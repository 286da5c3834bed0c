-- ===== src/Screen.antt =====
-- How the programs of src/examples/input_show set up the screen and make frame buffers. What the calls
-- of libdrm and of the kernel answer is a parameter.
pub mod Drm
pub mod Buffers
pub mod Checks
pub mod Slides
pub mod Show
mod Tests
use dsui.Prelude.{
  ℕ, zero, suc, ◌+◌, true, false, Option, none, some, List, [], ◌∷◌, ◌==◌, if◌then◌else◌, get_elem?,
}
use dsui.Prelude.Int.{ℤ, negsuc}
use dsui.Screen.Drm.{DrmModeRes, DrmModeConnector}

infixl 5 ◌>>=◌
abbrev ◌>>=◌ : {A B : Type 0} → Option A → (A → Option B) → Option B
none >>= f = none
some a >>= f = f a

-- `main` reads a NULL pointer or behind an array, returns, or goes on with `crtc_id`, `conn_id` and
-- the connector.
pub data Setup : Type 0 where
  undefined : Setup
  returned : ℤ → Setup
  ready : ℕ → ℕ → DrmModeConnector → Setup

-- The programs differ in the index `slot` at which they read the arrays, and in what the tests after
-- the loop give if `connector` was never set, `unset`. `get i id` is the answer of the `i`-th call of
-- drmModeGetConnector.
module _ (slot : ℕ) (unset : Setup) (get : ℕ → ℕ → Option DrmModeConnector) (res : DrmModeRes) where
  -- The tests after the loop.
  abbrev pub check : Option (ℕ × ℕ × DrmModeConnector) → Setup
  check none = unset
  check (some (crtc, conn, c)) =
      if c.count_modes == 0 then returned (negsuc 1) else ready crtc conn c

  -- One round up to the printing of the counts: `none` is a read behind an array, or through the NULL
  -- that drmModeGetConnector gave, which is compared with NULL only afterwards.
  unfoldable pub next_connector : ℕ → Option (ℕ × ℕ × DrmModeConnector)
  next_connector i = do
    crtc ← get_elem? res.crtcs slot
    conn ← get_elem? res.connectors slot
    c ← get i conn
    some (crtc, conn, c)

  -- The loop over the connectors from index `i` on, `count` rounds: the same one is asked for in every
  -- round.
  unfoldable pub find_connector : ℕ → ℕ → Option (ℕ × ℕ × DrmModeConnector) → Setup
  unfolding next_connector
  find_connector i zero connector = check connector
  find_connector i (suc count) connector = elim (next_connector i) [
    | none ↦ undefined
    | some (crtc, conn, c) ↦ elim (c.count_modes == 0) [
      | true ↦ returned (negsuc 1)
      | false ↦ find_connector (i + 1) count (some (crtc, conn, c))
    ]
  ]

-- The part of `main` of m_buffer_input_show_test.cpp up to the size of the screen: its global
-- `connector` starts as NULL.
unfoldable pub find_screen : (ℕ → ℕ → Option DrmModeConnector) → Option DrmModeRes → Setup
unfolding find_connector
find_screen get none = undefined
find_screen get (some res) =
    find_connector 1 (returned (negsuc 0)) get res 0 res.count_connectors none
