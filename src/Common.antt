-- ===== src/Common.antt =====
-- c/org.chabu/src/Common.c. A `char` array is the list of its bytes, or `none` for NULL.
use chabu.Prelude.{ℕ, zero, suc, true, false, Option, none, some, List, [], ◌∷◌, ◌==◌}
use chabu.Run.{Run, ok, fault, out_of_bounds, ◌>>=◌}

-- The place of the first zero among the first `n` bytes, as `memchr` finds it.
unfoldable pub memchr_zero : List ℕ → ℕ → ℕ → Run (Option ℕ)
memchr_zero bytes zero at = ok none
memchr_zero [] (suc n) at = fault out_of_bounds
memchr_zero (c ∷ bytes) (suc n) at = elim (c == 0) [
  | true ↦ ok (some at)
  | false ↦ memchr_zero bytes n (suc at)
]

-- `Common_strnlen`
unfoldable pub strnlen : Option (List ℕ) → ℕ → Run ℕ
unfolding memchr_zero
strnlen none maxlen = ok 0
strnlen (some start) maxlen = do
  p ← memchr_zero start maxlen 0
  elim p [ some at ↦ ok at | none ↦ ok maxlen ]
