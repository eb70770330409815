-- ===== src/Priority/Turn.antt =====
-- Channels of one level are served in turn.
use chabu.Prelude.{ℕ, ◌≡◌, ◌⊎◌, true, Option, none, some, List, []}
use chabu.Prelude.Int.{ℤ, pos, ltb_ℤ}
use chabu.Priority.Select.{NoneAbove}

-- The channel `r` is served in turn after the number `s`: it is above `s`, or nothing in the list is.
abbrev pub Turn : ℤ → List ℕ → Option ℕ → Type 0
Turn s xs none = xs ≡ []
Turn s xs (some y) = (ltb_ℤ s (pos y) ≡ true) ⊎ NoneAbove s xs
