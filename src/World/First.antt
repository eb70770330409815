-- ===== src/World/First.antt =====
-- Only the first error counts.
use chabu.Prelude.{arith, ◌≡◌, ◌∙◌, ap, inl, inr, true, false, arith, Bool-cases}
use chabu.State.{Chabu}
use chabu.Errors.{ErrorCode}
use chabu.World.{World, Callbacks, IsPassive, is_ok, report_error}

module _ {U : Type 0} (cb : Callbacks U) (passive : IsPassive cb) where
  -- Where the application only takes note of errors: if no error was reported before, the error `e`
  -- becomes the last error, and once it is one, no further report changes anything.
  pub report_error-report_error :
      (e f : ErrorCode) (w : World U)
      → is_ok e ≡ false
      → ((is_ok w.chabu.last_error ≡ true) → (report_error cb e w).chabu.last_error ≡ e)
        × (report_error cb f (report_error cb e w) ≡ report_error cb e w)
  unfolding report_error
  report_error-report_error e f w bad = elim (Bool-cases (is_ok w.chabu.last_error)) [
    | inl t ↦
        let w' : World U = record w { chabu = record (w.chabu) { last_error = e } } in
        let kept : (cb.error_function e w').chabu.last_error ≡ e =
          ap (λ (c : Chabu). c.last_error) (passive.on_error e w') in
        let taken : is_ok (cb.error_function e w').chabu.last_error ≡ false = ap is_ok kept ∙ bad in
        (λ _. rw t kept, rw (t, taken))
    | inr t ↦ (λ t'. absurd (ground arith), rw (t, t))
  ]
