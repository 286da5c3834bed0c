-- ===== src/Program/Picture.antt =====
-- The picture that `draw_fb` of m_buffer_input_show_test.cpp draws pixel by pixel while the mouse moves.
use native.Mathlib.Decide.{ℕ_discrete}
use native.Mathlib.Nat.{mul-le-mul}
use dsui.Prelude.{
  true, Bool, ltb, ◌⊎◌, ℕ, ◌+◌, ◌*◌, ◌%◌, ◌^◌, ◌<◌, ◌≤◌, ◌≡◌, inl, inr, some, none, arith,
  if◌then◌else◌, ◌&&◌, ◌==◌, leb, update,
}
use dsui.Mouse.Unsigned
use dsui.Frame.{draw_miw, line_pixel}
use dsui.Program.{at_pixel}

-- A row of the pointer whose distance to a row of a picture is an `int`, as is its absolute value.
abbrev pub IsRow : ℕ → Type 0
IsRow p = (p < 2 ^ 31) ⊎ ((2 ^ 31 + 2 ^ 16 ≤ p) × (p < 2 ^ 32))

-- Whether row `y` is within MIW rows of the pointer, which is above the picture if its row is the bit
-- pattern of a negative number.
abbrev pub near_row : ℕ → ℕ → Bool
near_row y p =
    if ltb p (2 ^ 31)
    then leb y (p + draw_miw) && leb p (y + draw_miw)
    else leb (y + 2 ^ 32) (p + draw_miw)

-- The pixel in row `y` and column `x`: white in the column of the pointer within MIW rows of it, and of
-- the given colour elsewhere.
abbrev pub line_value : Unsigned.MousePos → ℕ → ℕ → ℕ → ℕ
line_value mp color y x = if near_row y mp.y && (x == mp.x) then 0xffff_ffff else color

-- `At` says where the pointer can have been.
module _ (At : Unsigned.MousePos → Type 0) (width height : ℕ) where
  -- A whole picture of one colour of at most 0xf0, with each pixel drawn for a place where the pointer can have been.
  pub record IsPicture (pixels : ℕ → ℕ) : Type 0 where
    pub color : ℕ
    pub bounded : color ≤ 0xf0
    pub drawn :
        (y x : ℕ)
        → y < height
        → x < width
        → (mp : Unsigned.MousePos) × At mp × (pixels (y * width + x) ≡ line_value mp color y x)

  -- The same of the pixels before row `h`, column `w`.
  pub record IsPart (color : ℕ) (pixels : ℕ → ℕ) (h w : ℕ) : Type 0 where
    pub drawn_before :
        (y x : ℕ)
        → y < height
        → x < width
        → (y < h) ⊎ ((y ≡ h) × (x < w))
        → (mp : Unsigned.MousePos) × At mp × (pixels (y * width + x) ≡ line_value mp color y x)

  pub start-IsPart : (color : ℕ) (pixels : ℕ → ℕ) → IsPart color pixels 0 0
  start-IsPart color pixels = record {
    drawn_before = λ y x lt_y lt_x before. absurd (omega (arith, before));
  }

  -- Where the loops have ended, the picture is whole.
  pub end-IsPicture :
      (color : ℕ) (pixels : ℕ → ℕ) (h w : ℕ)
      → color ≤ 0xf0
      → at_pixel width height h w ≡ none
      → IsPart color pixels h w
      → IsPicture pixels
  end-IsPicture color pixels h w le ended part = record {
    color = color;
    bounded = le;
    drawn = λ y x lt_y lt_x. part.drawn_before y x lt_y lt_x (ground arith);
  }

  -- Where they go on, nothing has been left out.
  pub next-IsPart :
      (color : ℕ) (pixels : ℕ → ℕ) (h w : ℕ) {h' w' : ℕ}
      → at_pixel width height h w ≡ some (h', w')
      → IsPart color pixels h w
      → IsPart color pixels h' w' × (h' < height) × (w' < width)
  next-IsPart color pixels h w e part = (
    record {
      drawn_before = λ y x lt_y lt_x before. part.drawn_before y x lt_y lt_x (ground arith);
    },
    ground arith,
    ground arith,
  )

  earlier_row : (y h x : ℕ) → y < h → x < width → y * width + x < h * width
  earlier_row y h x above lt_x =
      let rows : (y + 1) * width ≤ h * width =
        mul-le-mul {n₁ = y + 1} {m₁ = width} {n₂ = h} {m₂ = width} (omega (arith, above))
          (omega arith) in
      omega (arith, rows, lt_x)

  module _ (small : (width < 2 ^ 16) × (height < 2 ^ 16)) where
    pub few_pixels : height * width ≤ 2 ^ 32
    few_pixels =
        let bound : height * width ≤ 2 ^ 16 * 2 ^ 16 =
          mul-le-mul {n₁ = height} {m₁ = width} {n₂ = 2 ^ 16} {m₂ = 2 ^ 16} (omega (arith, small))
            (omega (arith, small)) in
        omega (arith, bound)

    pub in_memory : (h w : ℕ) → h < height → w < width → (h * width + w) % 2 ^ 32 ≡ h * width + w
    in_memory h w lt_h lt_w = omega (arith, earlier_row h height w lt_h lt_w, few_pixels)

    -- The write of a pixel lies within a mapping of four bytes a pixel.
    pub pixel_fits :
        (h w size : ℕ)
        → 4 * (height * width) ≤ size
        → h < height
        → w < width
        → leb (4 * ((h * width + w) % 2 ^ 32 + 1)) size ≡ true
    pixel_fits h w size room lt_h lt_w =
        let below : h * width + w < height * width = earlier_row h height w lt_h lt_w in
        let at = in_memory h w lt_h lt_w in ground (arith, room, below, at)

    pub line_pixel_lem :
        (mp : Unsigned.MousePos) (color h w : ℕ)
        → h < height
        → IsRow mp.y
        → line_pixel mp color h w ≡ line_value mp color h w
    line_pixel_lem mp color h w lt_h low = ground (arith, small, lt_h, low)

    -- The next pixel, drawn for the place where the pointer is then.
    pub write-IsPart :
        (mp : Unsigned.MousePos) (color : ℕ) (pixels : ℕ → ℕ) (h w : ℕ)
        → h < height
        → w < width
        → At mp
        → IsRow mp.y
        → IsPart color pixels h w
        → IsPart color
            (update pixels ((h * width + w) % 2 ^ 32) (line_pixel mp color h w))
            h
            (w + 1)
    write-IsPart mp color pixels h w lt_h lt_w at low part = record {
      drawn_before = λ y x lt_y lt_x before. elim (ℕ_discrete y h) [
        | no above ↦
            let (mp', at', e) =
              part.drawn_before y x lt_y lt_x (inl (omega (arith, before, above))) in
            (
              mp',
              at',
              ground (
                arith,
                e,
                in_memory h w lt_h lt_w,
                earlier_row y h x (omega (arith, before, above)) lt_x,
              ),
            )
        | yes row ↦ elim (ℕ_discrete x w) [
          | yes here ↦ (
            mp,
            at,
            ground (arith, in_memory h w lt_h lt_w, line_pixel_lem mp color h w lt_h low),
          )
          | no left ↦
              let (mp', at', e) =
                part.drawn_before y x lt_y lt_x (inr (row, omega (arith, before, row, left))) in
              (mp', at', ground (arith, e, in_memory h w lt_h lt_w))
        ]
      ];
    }
