-- ===== src/Screen/Checks.antt =====
-- What the tests of `main` catch.
use dsui.Prelude.{
  ℕ, zero, suc, ◌+◌, ◌≡◌, ◌≢◌, ◌↔◌, refl, Option, none, some, arith, Bool-cases, Option-cases, inl,
  inr, ◌==◌,
}
use dsui.Prelude.Int.{negsuc}
use dsui.Screen.Drm.{DrmModeRes, DrmModeConnector}
use dsui.Screen.{next_connector, returned, find_connector, find_screen}

module _ (slot : ℕ) (get : ℕ → ℕ → Option DrmModeConnector) (res : DrmModeRes) where
  -- Once a connector is there, -1 is not returned any more.
  find_connector_later :
      (i count : ℕ) (connector : ℕ × ℕ × DrmModeConnector)
      → find_connector slot (returned (negsuc 0)) get res i count (some connector)
        ≢ returned (negsuc 0)
  unfolding find_connector
  find_connector_later i zero (crtc, conn, c) = ground arith
  find_connector_later i (suc count) (crtc, conn, c) =
      elim (Option-cases (next_connector slot (returned (negsuc 0)) get res i)) [
        | inl e ↦ rw (e, find_connector) (λ r. cc)
        | inr ((crtc', conn', c'), e) ↦ elim (Bool-cases (c'.count_modes == 0)) [
          | inl no_mode ↦ rw (e, no_mode, find_connector) (λ r. cc)
          | inr mode ↦
              rw (e, mode, find_connector) (find_connector_later (i + 1) count (crtc', conn', c'))
        ]
      ]

  -- Nor is it with a round to go.
  find_connector_some :
      (i count : ℕ)
      → find_connector slot (returned (negsuc 0)) get res i (suc count) none ≢ returned (negsuc 0)
  unfolding find_connector
  find_connector_some i count =
      elim (Option-cases (next_connector slot (returned (negsuc 0)) get res i)) [
        | inl e ↦ rw (e, find_connector) (λ r. cc)
        | inr ((crtc, conn, c), e) ↦ elim (Bool-cases (c.count_modes == 0)) [
          | inl no_mode ↦ rw (e, no_mode, find_connector) (λ r. cc)
          | inr mode ↦
              rw (e, mode, find_connector) (find_connector_later (i + 1) count (crtc, conn, c))
        ]
      ]

  find_connector_first :
      (i count : ℕ)
      → (find_connector slot (returned (negsuc 0)) get res i count none ≡ returned (negsuc 0))
        ↔ (count ≡ 0)
  unfolding find_connector
  find_connector_first i zero = ((λ e. refl), (λ e. refl))
  find_connector_first i (suc count) =
      ((λ e. absurd (find_connector_some i count e)), (λ e. absurd (omega (arith, e))))

-- Whatever the calls answer, main of m_buffer_input_show_test.cpp returns -1 exactly if the number of
-- connectors is 0: a connector that is NULL is never reported.
find_screen_reports :
    (get : ℕ → ℕ → Option DrmModeConnector) (r : DrmModeRes)
    → (find_screen get (some r) ≡ returned (negsuc 0)) ↔ (r.count_connectors ≡ 0)
unfolding find_screen
find_screen_reports get r = find_connector_first 1 get r 0 r.count_connectors
