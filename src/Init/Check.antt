-- ===== src/Init/Check.antt =====
-- The checks of the arguments: the first fault is the one that is reported.
use mathlib.Core.Path.{subst}
use chabu.Prelude.{
  ℕ, ◌+◌, ◌^◌, ◌≤◌, ◌<◌, ◌≡◌, ◌⊎◌, inl, inr, refl, sym, ◌∙◌, ap, Bool, true, false, Option, none,
  some, List, [], ◌∷◌, ltb, not, arith, if◌then◌else◌,
}
use chabu.Prelude.Int.{ℤ, pos, negsuc}
use chabu.Errors.{
  ErrorCode, ok_noerror, init_param_apname_null, init_param_apname_too_long, init_param_rps_range,
  init_param_channels_null, init_param_channels_range, init_param_priorities_null,
  init_param_priorities_range, init_event_func_null, init_accept_func_null, init_nw_read_func_null,
  init_nw_write_func_null,
}
use chabu.State.{Chabu, apn_max_length, rps_min, rps_max, channel_count_max, priority_count_max}
use chabu.World.{World, Callbacks, IsPassive, is_ok, report_error, report_error_if}
use chabu.Common.{strnlen}
use chabu.Run.{ok}
use chabu.Init.{Arguments, zeroed, chabu_init, is_null, outside, check_arguments}

-- The error of the first condition that holds.
abbrev pub first_fault : List (Bool × ErrorCode) → ErrorCode
first_fault [] = ok_noerror
first_fault ((cond, e) ∷ rest) = if cond then e else first_fault rest

-- The tests of the code, in their order.
abbrev pub tests : Arguments → ℕ → List (Bool × ErrorCode)
tests a name_length =
    (is_null a.application_name, init_param_apname_null)
    ∷ (ltb apn_max_length name_length, init_param_apname_too_long)
    ∷ (outside rps_min rps_max a.receive_packet_size, init_param_rps_range)
    ∷ (not a.has_channels, init_param_channels_null)
    ∷ (outside 1 channel_count_max a.channel_count, init_param_channels_range)
    ∷ (not a.has_priorities, init_param_priorities_null)
    ∷ (outside 1 priority_count_max a.priority_count, init_param_priorities_range)
    ∷ (not a.has_event_notification, init_event_func_null)
    ∷ (not a.has_accept_connection, init_accept_func_null)
    ∷ (not a.has_network_recv_buffer, init_nw_read_func_null)
    ∷ (not a.has_network_xmit_buffer, init_nw_write_func_null)
    ∷ []

-- An `int` in a range.
abbrev pub Within : (low high : ℕ) → ℤ → Type 0
Within low high z = (n : ℕ) × (z ≡ pos n) × (low ≤ n) × (n ≤ high)

-- What is wrong with the arguments, in the order in which the application is told: a name of more than 56
-- characters, a packet size that is not from 256 to 2 ^ 28, numbers of channels and of priorities that are
-- not from 1 to 100, and what is missing.
abbrev pub faults : Arguments → ℕ → List (Type 0 × ErrorCode)
faults a name_length =
    (a.application_name ≡ none, init_param_apname_null)
    ∷ (56 < name_length, init_param_apname_too_long)
    ∷ (¬ Within 256 (2 ^ 28) a.receive_packet_size, init_param_rps_range)
    ∷ (a.has_channels ≡ false, init_param_channels_null)
    ∷ (¬ Within 1 100 a.channel_count, init_param_channels_range)
    ∷ (a.has_priorities ≡ false, init_param_priorities_null)
    ∷ (¬ Within 1 100 a.priority_count, init_param_priorities_range)
    ∷ (a.has_event_notification ≡ false, init_event_func_null)
    ∷ (a.has_accept_connection ≡ false, init_accept_func_null)
    ∷ (a.has_network_recv_buffer ≡ false, init_nw_read_func_null)
    ∷ (a.has_network_xmit_buffer ≡ false, init_nw_write_func_null)
    ∷ []

-- `r` is the error of the first fault there is, and no error where there is none.
abbrev pub FirstFault : List (Type 0 × ErrorCode) → ErrorCode → Type 0
FirstFault [] r = r ≡ ok_noerror
FirstFault ((P, e) ∷ rest) r = (P × (r ≡ e)) ⊎ ((¬ P) × FirstFault rest r)

-- A test tells whether a fault is there.
abbrev Tells : Bool → Type 0 → Type 0
Tells cond P = (cond ≡ true → P) × (cond ≡ false → ¬ P)

abbrev AllTell : List (Bool × ErrorCode) → List (Type 0 × ErrorCode) → Type 0
AllTell [] [] = Unit {0}
AllTell [] (_ ∷ _) = ⊥
AllTell (_ ∷ _) [] = ⊥
AllTell ((cond, e) ∷ cs) ((P, e') ∷ ps) = Tells cond P × (e ≡ e') × AllTell cs ps

first_fault-FirstFault :
    (cs : List (Bool × ErrorCode)) (ps : List (Type 0 × ErrorCode))
    → AllTell cs ps
    → FirstFault ps (first_fault cs)
first_fault-FirstFault [] [] t = refl
first_fault-FirstFault [] (_ ∷ _) t = absurd t
first_fault-FirstFault (_ ∷ _) [] t = absurd t
first_fault-FirstFault ((true, e) ∷ cs) ((P, e') ∷ ps) ((holds, _), same, t) =
    inl (holds refl, same)
first_fault-FirstFault ((false, e) ∷ cs) ((P, e') ∷ ps) ((_, fails), same, t) =
    inr (fails refl, first_fault-FirstFault cs ps t)

outside-Within : (low high : ℕ) (z : ℤ) → Tells (outside low high z) (¬ Within low high z)
outside-Within low high (negsuc k) = (λ _ (n, e, _, _). absurd cc, λ e. absurd cc)
outside-Within low high (pos k) =
    (λ t (n, e, l, h). absurd (ground arith), λ f no. no (k, refl, ground arith, ground arith))

ltb-Tells : (m n : ℕ) → Tells (ltb m n) (m < n)
ltb-Tells m n = (λ t. ground arith, λ f. ground arith)

not-Tells : (b : Bool) → Tells (not b) (b ≡ false)
not-Tells true = (λ e. absurd cc, λ e f. absurd cc)
not-Tells false = (λ e. refl, λ e f. absurd cc)

is_null-Tells : (o : Option (List ℕ)) → Tells (is_null o) (o ≡ none)
is_null-Tells none = (λ e. refl, λ e f. absurd cc)
is_null-Tells (some x) = (λ e. absurd cc, λ e f. absurd cc)

tests-AllTell : (a : Arguments) (n : ℕ) → AllTell (tests a n) (faults a n)
tests-AllTell a n = (
  (is_null-Tells a.application_name),
  refl,
  (
    (ltb-Tells 56 n),
    refl,
    (
      (outside-Within 256 (2 ^ 28) a.receive_packet_size),
      refl,
      (
        (not-Tells a.has_channels),
        refl,
        (
          (outside-Within 1 100 a.channel_count),
          refl,
          (
            (not-Tells a.has_priorities),
            refl,
            (
              (outside-Within 1 100 a.priority_count),
              refl,
              (
                (not-Tells a.has_event_notification),
                refl,
                (
                  (not-Tells a.has_accept_connection),
                  refl,
                  (
                    (not-Tells a.has_network_recv_buffer),
                    refl,
                    ((not-Tells a.has_network_xmit_buffer), refl, tt),
                  ),
                ),
              ),
            ),
          ),
        ),
      ),
    ),
  ),
)

abbrev AllErrors : List (Bool × ErrorCode) → Type 0
AllErrors [] = Unit {0}
AllErrors ((_, e) ∷ rest) = (is_ok e ≡ false) × AllErrors rest

module _ {U : Type 0} (cb : Callbacks U) (passive : IsPassive cb) where
  abbrev report_all : List (Bool × ErrorCode) → World U → World U
  report_all [] w = w
  report_all ((cond, e) ∷ rest) w = report_all rest (report_error_if cb cond e w)

  kept :
      (cond : Bool) (e : ErrorCode) (w : World U)
      → is_ok w.chabu.last_error ≡ false
      → report_error_if cb cond e w ≡ w
  unfolding report_error_if report_error
  kept true e w bad = rw bad
  kept false e w bad = refl

  report_all_kept :
      (cs : List (Bool × ErrorCode)) (w : World U)
      → is_ok w.chabu.last_error ≡ false
      → report_all cs w ≡ w
  report_all_kept [] w bad = refl
  report_all_kept ((cond, e) ∷ rest) w bad =
      ap (report_all rest) (kept cond e w bad) ∙ report_all_kept rest w bad

  report_all-first_fault :
      (cs : List (Bool × ErrorCode)) (w : World U)
      → AllErrors cs
      → w.chabu.last_error ≡ ok_noerror
      → (report_all cs w).chabu.last_error ≡ first_fault cs
  unfolding report_error_if report_error
  report_all-first_fault [] w all z = z
  report_all-first_fault ((false, e) ∷ rest) w (_, all) z = report_all-first_fault rest w all z
  report_all-first_fault ((true, e) ∷ rest) w (bad, all) z =
      let w' : World U = record w { chabu = record (w.chabu) { last_error = e } } in
      let v : World U = cb.error_function e w' in
      let seen : v.chabu.last_error ≡ e =
        ap (λ (c : Chabu). c.last_error) (passive.on_error e w') in
      let told : report_error_if cb true e w ≡ v = rw z in
      ap (λ u. (report_all rest u).chabu.last_error) told
      ∙ ap (λ (u : World U). u.chabu.last_error) (report_all_kept rest v (ap is_ok seen ∙ bad))
      ∙ seen

  pub check_arguments-tests :
      (a : Arguments) (name_length : ℕ) (w : World U)
      → w.chabu.last_error ≡ ok_noerror
      → (check_arguments cb a name_length w).chabu.last_error ≡ first_fault (tests a name_length)
  unfolding check_arguments
  check_arguments-tests a name_length w z =
      report_all-first_fault (tests a name_length) w
        (refl, (refl, (refl, (refl, (refl, (refl, (refl, (refl, (refl, (refl, (refl, tt))))))))))) z

  -- Where no error was reported before and the application only takes note of errors, the checks of
  -- Chabu_Init leave as last error the one of the first fault of the arguments, and none where the
  -- arguments have no fault. The faults are, in this order: no name, a name of more than 56 characters, a
  -- packet size that is not from 256 to 2 ^ 28, no channels, a number of them that is not from 1 to 100, no
  -- priorities, a number of them that is not from 1 to 100, and one of four functions that is missing.
  pub check_arguments-FirstFault :
      (a : Arguments) (name_length : ℕ) (w : World U)
      → w.chabu.last_error ≡ ok_noerror
      → FirstFault (faults a name_length) (check_arguments cb a name_length w).chabu.last_error
  check_arguments-FirstFault a name_length w z =
      subst (FirstFault (faults a name_length)) (sym (check_arguments-tests a name_length w z)) (
        first_fault-FirstFault (tests a name_length) (faults a name_length)
          (tests-AllTell a name_length))

  -- The state that the checks start from.
  abbrev pub unchecked : Arguments → U → World U
  unchecked a app = record {
    chabu = record (zeroed a.channels a.priorities) { info = true };
    app = app;
  }

  -- With a fault among its arguments Chabu_Init returns after the checks.
  pub chabu_init-check_arguments :
      (a : Arguments) (n : ℕ) (app : U)
      → a.has_error_function ≡ true
      → strnlen a.application_name (apn_max_length + 1) ≡ ok n
      → is_ok (check_arguments cb a n (unchecked a app)).chabu.last_error ≡ false
      → chabu_init cb a app ≡ ok (check_arguments cb a n (unchecked a app))
  unfolding chabu_init
  chabu_init-check_arguments a n app has len bad = rw (has, len, bad, chabu_init)
