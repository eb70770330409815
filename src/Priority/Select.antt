-- ===== src/Priority/Select.antt =====
-- The abstract choice out of a request list: the first number above the one selected last, or the
-- head where there is none.
use chabu.Prelude.{
  ℕ, suc, ◌≤◌, ◌<◌, ◌≡◌, refl, sym, ◌≢◌, ◌↔◌, ◌⊎◌, inl, inr, Bool, true, false, Option, none, some,
  List, [], ◌∷◌, ◌||◌, if◌then◌else◌, arith, Bool-cases,
}
use chabu.Prelude.Int.{ℤ, pos, ltb_ℤ}
use chabu.Priority.Chain.{NotIn, Ascends, IsQueue, Ascends-weaken, NotIn-of_lt}

-- The number that is taken out, and what is left.
abbrev pub Choice : Type 0
Choice = Option (ℕ × List ℕ)

abbrev pub keep : ℕ → Choice → Choice
keep x none = none
keep x (some (y, rest)) = some (y, x ∷ rest)

unfoldable pub first_above : ℤ → List ℕ → Choice
first_above s [] = none
first_above s (y ∷ ys) = if ltb_ℤ s (pos y) then some (y, ys) else keep y (first_above s ys)

abbrev pub is_empty : List ℕ → Bool
is_empty [] = true
is_empty (_ ∷ _) = false

abbrev pub or_head : ℕ → List ℕ → Choice → Choice
or_head x xs none = some (x, xs)
or_head x xs (some (y, rest)) = some (y, x ∷ rest)

unfoldable pub select : ℤ → List ℕ → Choice
unfolding first_above
select s [] = none
select s (x ∷ xs) =
    if is_empty xs || ltb_ℤ s (pos x) then some (x, xs) else or_head x xs (first_above s xs)

-- What a choice `(y, rest)` out of the ascending `xs` keeps.
abbrev pub Keeps : ℕ → ℕ → List ℕ → Choice → Type 0
Keeps low n xs none = Unit {0}
Keeps low n xs (some (y, rest)) =
    (low ≤ y)
    × (y < n)
    × Ascends low n rest
    × NotIn y rest
    × ((j : ℕ) → NotIn j xs ↔ ((j ≢ y) × NotIn j rest))

pub first_above-Keeps :
    (s : ℤ) (low n : ℕ) (xs : List ℕ) → Ascends low n xs → Keeps low n xs (first_above s xs)
unfolding first_above
first_above-Keeps s low n [] a = tt
first_above-Keeps s low n (y ∷ ys) (le, lt, a) = elim (Bool-cases (ltb_ℤ s (pos y))) [
  | inl e ↦ rw e (
    le,
    lt,
    Ascends-weaken low (suc y) n ys (omega arith) a,
    NotIn-of_lt y (suc y) n ys (omega arith) a,
    λ j. (λ h. h, λ h. h),
  )
  | inr e ↦ rw e (later (first_above s ys) (first_above-Keeps s (suc y) n ys a))
]
  where
    later : (r : Choice) → Keeps (suc y) n ys r → Keeps low n (y ∷ ys) (keep y r)
    later none k = tt
    later (some (z, rest)) (le', lt', a', out, same) = (
      omega arith,
      lt',
      (le, lt, a'),
      (omega arith, out),
      λ j. (
        λ (h, o). let (h', o') = (same j).0 o in (h', (h, o')),
        λ (h', (h, o')). (h, (same j).1 (h', o')),
      ),
    )

-- What a choice out of a request list keeps: a well-formed rest, which has the number that is taken
-- out no longer and every other number as before.
abbrev pub Chosen : ℕ → List ℕ → Choice → Type 0
Chosen n xs none = xs ≡ []
Chosen n xs (some (y, rest)) =
    (y < n) × IsQueue n rest × NotIn y rest × ((j : ℕ) → NotIn j xs ↔ ((j ≢ y) × NotIn j rest))

pub IsQueue-Ascends : (n : ℕ) (xs : List ℕ) → Ascends 0 n xs → IsQueue n xs
IsQueue-Ascends n [] a = tt
IsQueue-Ascends n (x ∷ xs) (le, lt, a) =
    (lt, NotIn-of_lt x (suc x) n xs (omega arith) a, Ascends-weaken 0 (suc x) n xs (omega arith) a)

or_head-Chosen :
    (n x : ℕ) (xs : List ℕ) (r : Choice)
    → IsQueue n (x ∷ xs)
    → Keeps 0 n xs r
    → Chosen n (x ∷ xs) (or_head x xs r)
or_head-Chosen n x xs none (lt, out, a) k = (lt, IsQueue-Ascends n xs a, out, λ j. (λ h. h, λ h. h))
or_head-Chosen n x xs (some (y, rest)) (lt, out, a) (le, lt', a', out', same) =
    let (ne, o) = (same x).0 out in
    (
      lt',
      (lt, o, a'),
      ((λ e. ne (sym e)), out'),
      λ j. (
        λ (h, i). let (h', i') = (same j).0 i in (h', (h, i')),
        λ (h', (h, i')). (h, (same j).1 (h', i')),
      ),
    )

pub select-Chosen : (s : ℤ) (n : ℕ) (xs : List ℕ) → IsQueue n xs → Chosen n xs (select s xs)
unfolding select
select-Chosen s n [] q = refl
select-Chosen s n (x ∷ xs) q = elim (Bool-cases (is_empty xs || ltb_ℤ s (pos x))) [
  | inl e ↦ rw e (or_head-Chosen n x xs none q tt)
  | inr e ↦ rw e (or_head-Chosen n x xs (first_above s xs) q (first_above-Keeps s 0 n xs q.2))
]

abbrev pub NoneAbove : ℤ → List ℕ → Type 0
NoneAbove s [] = Unit {0}
NoneAbove s (x ∷ xs) = (ltb_ℤ s (pos x) ≡ false) × NoneAbove s xs

-- The number taken is above `s`, or none is.
abbrev pub InTurn : ℤ → List ℕ → Choice → Type 0
InTurn s xs none = xs ≡ []
InTurn s xs (some (y, rest)) = (ltb_ℤ s (pos y) ≡ true) ⊎ NoneAbove s xs

abbrev FoundAbove : ℤ → List ℕ → Choice → Type 0
FoundAbove s xs none = NoneAbove s xs
FoundAbove s xs (some (y, rest)) = ltb_ℤ s (pos y) ≡ true

first_above-FoundAbove : (s : ℤ) (xs : List ℕ) → FoundAbove s xs (first_above s xs)
unfolding first_above
first_above-FoundAbove s [] = tt
first_above-FoundAbove s (x ∷ xs) = elim (Bool-cases (ltb_ℤ s (pos x))) [
  | inl e ↦ rw e e
  | inr e ↦ rw e (later (first_above s xs) (first_above-FoundAbove s xs) e)
]
  where
    later :
        (r : Choice)
        → FoundAbove s xs r
        → ltb_ℤ s (pos x) ≡ false
        → FoundAbove s (x ∷ xs) (keep x r)
    later none f e = (e, f)
    later (some (y, rest)) f e = f

-- The choice passes over no number above `s` in favour of one that is not.
pub select-InTurn : (s : ℤ) (xs : List ℕ) → InTurn s xs (select s xs)
unfolding select
select-InTurn s [] = refl
select-InTurn s (x ∷ []) = elim (Bool-cases (ltb_ℤ s (pos x))) [
  | inl e ↦ inl e
  | inr e ↦ inr (e, tt)
]
select-InTurn s (x ∷ y ∷ xs) = elim (Bool-cases (ltb_ℤ s (pos x))) [
  | inl e ↦ rw e (inl e)
  | inr e ↦ rw e (later (first_above s (y ∷ xs)) (first_above-FoundAbove s (y ∷ xs)) e)
]
  where
    later :
        (r : Choice)
        → FoundAbove s (y ∷ xs) r
        → ltb_ℤ s (pos x) ≡ false
        → InTurn s (x ∷ y ∷ xs) (or_head x (y ∷ xs) r)
    later none f e = inr (e, f)
    later (some (z, rest)) f e = inl f
