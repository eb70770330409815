-- ===== src/Priority/Chain.antt =====
-- What a linked list of entries stands for: the channel numbers along it. The abstract operations
-- on such lists, and the order that the code keeps: behind the first entry the numbers ascend.
use mathlib.Core.Path.{subst}
use native.Mathlib.Decide.{dec_lt, ℕ_discrete}
use chabu.Prelude.{
  ℕ, suc, ◌+◌, ◌≤◌, ◌<◌, ◌≡◌, refl, sym, ◌≢◌, Option, none, some, List, [], ◌∷◌, ltb, ◌==◌,
  if◌then◌else◌, length, arith, lt→ltb, not_lt→ltb, eq→==, ne→==,
}
use chabu.State.{PriorityEntry, PriorityList, update}
use chabu.Priority.{Entries}
use chabu.Priority.Walk.{IsLinked}

-- From `p` the `next` pointers lead through exactly the entries `xs`.
abbrev pub Seg : Entries → Option ℕ → List ℕ → Type 0
Seg es p [] = p ≡ none
Seg es p (x ∷ xs) = (p ≡ some x) × Seg es (es x).next xs

abbrev pub NotIn : ℕ → List ℕ → Type 0
NotIn i [] = Unit {0}
NotIn i (x ∷ xs) = (i ≢ x) × NotIn i xs

-- The numbers ascend strictly from `low` on, and stay below `n`.
abbrev pub Ascends : ℕ → ℕ → List ℕ → Type 0
Ascends low n [] = Unit {0}
Ascends low n (x ∷ xs) = (low ≤ x) × (x < n) × Ascends (suc x) n xs

-- The shape of a request list over `n` channels.
abbrev pub IsQueue : ℕ → List ℕ → Type 0
IsQueue n [] = Unit {0}
IsQueue n (x ∷ xs) = (x < n) × NotIn x xs × Ascends 0 n xs

abbrev pub All : (ℕ → Type 0) → List ℕ → Type 0
All P [] = Unit {0}
All P (x ∷ xs) = P x × All P xs

-- A channel's number is put into an ascending list, once.
unfoldable pub insert : ℕ → List ℕ → List ℕ
insert c [] = c ∷ []
insert c (x ∷ xs) = if ltb x c then x ∷ insert c xs else if x == c then x ∷ xs else c ∷ x ∷ xs

module _ (c x : ℕ) (xs : List ℕ) where
  pub insert_lt : x < c → insert c (x ∷ xs) ≡ x ∷ insert c xs
  unfolding insert
  insert_lt p = rw (lt→ltb x c p)

  pub insert_eq : x ≡ c → insert c (x ∷ xs) ≡ x ∷ xs
  unfolding insert
  insert_eq e = rw (not_lt→ltb x c (omega arith), eq→== x c e)

  pub insert_gt : c < x → insert c (x ∷ xs) ≡ c ∷ x ∷ xs
  unfolding insert
  insert_gt p = rw (not_lt→ltb x c (omega arith), ne→== x c (omega arith))

-- What a request of channel `c` makes of the list.
unfoldable pub request : ℕ → List ℕ → List ℕ
unfolding insert
request c [] = c ∷ []
request c (x ∷ xs) = if x == c then x ∷ xs else x ∷ insert c xs

pub update_self : (es : Entries) (i : ℕ) (e : PriorityEntry) → update es i e i ≡ e
update_self es i e = ground arith

pub update-ne : (es : Entries) (i j : ℕ) (e : PriorityEntry) → i ≢ j → update es i e j ≡ es j
update-ne es i j e h = ground arith

-- A list is read off the entries that it goes through.
pub Seg-same :
    (es es' : Entries) (p : Option ℕ) (xs : List ℕ)
    → All (λ x. (es' x).next ≡ (es x).next) xs
    → Seg es p xs
    → Seg es' p xs
Seg-same es es' p [] same s = s
Seg-same es es' p (x ∷ xs) (e, same) (h, s) =
    (h, subst (λ q. Seg es' q xs) (sym e) (Seg-same es es' (es x).next xs same s))

-- A change at an entry that is not in the list leaves the list alone.
pub Seg-frame :
    (es : Entries) (i : ℕ) (e : PriorityEntry) (p : Option ℕ) (xs : List ℕ)
    → NotIn i xs
    → Seg es p xs
    → Seg (update es i e) p xs
Seg-frame es i e p [] out s = s
Seg-frame es i e p (x ∷ xs) (ne, out) (h, s) = (
  h,
  subst (λ (q : PriorityEntry). Seg (update es i e) q.next xs) (sym (update-ne es i x e ne))
      (Seg-frame es i e (es x).next xs out s),
)

pub NotIn-of_lt : (c low n : ℕ) (xs : List ℕ) → c < low → Ascends low n xs → NotIn c xs
NotIn-of_lt c low n [] h a = tt
NotIn-of_lt c low n (x ∷ xs) h (le, lt, a) =
    (omega arith, NotIn-of_lt c (suc x) n xs (omega arith) a)

pub Ascends-weaken :
    (low low' n : ℕ) (xs : List ℕ) → low ≤ low' → Ascends low' n xs → Ascends low n xs
Ascends-weaken low low' n [] h a = tt
Ascends-weaken low low' n (x ∷ xs) h (le, lt, a) = (omega arith, lt, a)

-- An ascending list below `n` is no longer than the numbers left, so the rounds are enough.
pub length-Ascends : (low n : ℕ) (xs : List ℕ) → Ascends low n xs → low ≤ n → low + length xs ≤ n
length-Ascends low n [] a h = omega arith
length-Ascends low n (x ∷ xs) (le, lt, a) h =
    omega (arith, length-Ascends (suc x) n xs a (omega arith))

pub insert-Ascends :
    (c low n : ℕ) (xs : List ℕ) → c < n → low ≤ c → Ascends low n xs → Ascends low n (insert c xs)
unfolding insert
insert-Ascends c low n [] h l a = (l, h, tt)
insert-Ascends c low n (x ∷ xs) h l (le, lt, a) = elim (dec_lt x c) [
  | yes p ↦ rw (lt→ltb x c p) (le, lt, insert-Ascends c (suc x) n xs h p a)
  | no p ↦ elim (ℕ_discrete x c) [
    | yes e ↦ rw (not_lt→ltb x c p, eq→== x c e) (le, lt, a)
    | no e ↦ rw (not_lt→ltb x c p, ne→== x c e) (l, h, (omega arith, lt, a))
  ]
]

pub NotIn-insert : (i c : ℕ) (xs : List ℕ) → i ≢ c → NotIn i xs → NotIn i (insert c xs)
unfolding insert
NotIn-insert i c [] h out = (h, tt)
NotIn-insert i c (x ∷ xs) h (ne, out) = elim (dec_lt x c) [
  | yes p ↦ rw (lt→ltb x c p) (ne, NotIn-insert i c xs h out)
  | no p ↦ elim (ℕ_discrete x c) [
    | yes e ↦ rw (not_lt→ltb x c p, eq→== x c e) (ne, out)
    | no e ↦ rw (not_lt→ltb x c p, ne→== x c e) (h, (ne, out))
  ]
]

-- A request keeps the order, and puts no number twice into the list.
pub request-IsQueue : (c n : ℕ) (xs : List ℕ) → c < n → IsQueue n xs → IsQueue n (request c xs)
unfolding request
request-IsQueue c n [] h q = (h, tt, tt)
request-IsQueue c n (x ∷ xs) h (lt, out, a) = elim (ℕ_discrete x c) [
  | yes e ↦ rw (eq→== x c e) (lt, out, a)
  | no e ↦
      rw (ne→== x c e) (lt, NotIn-insert x c xs e out, insert-Ascends c 0 n xs h (omega arith) a)
]

pub insert_nil : (c : ℕ) → insert c [] ≡ c ∷ []
unfolding insert
insert_nil c = refl

module _ (c x : ℕ) (xs : List ℕ) where
  pub request_head : x ≡ c → request c (x ∷ xs) ≡ x ∷ xs
  unfolding request
  request_head e = rw (eq→== x c e)

  pub request_other : x ≢ c → request c (x ∷ xs) ≡ x ∷ insert c xs
  unfolding request
  request_other e = rw (ne→== x c e)

-- `l` is the head of a well-formed list of the channels `xs`, out of `n`.
pub record IsRequestList (n : ℕ) (ids : ℕ → ℕ) (es : Entries) (l : PriorityList) (xs : List ℕ)
    : Type 0 where
  pub linked : IsLinked ids es
  pub queue : IsQueue n xs
  pub chain : Seg es l.request xs
