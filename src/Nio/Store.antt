-- ===== src/Nio/Store.antt =====
-- Stores and loads of several bytes: what is stored is loaded again, and nothing else changes.
use chabu.Prelude.{
  ℕ, zero, suc, ◌+◌, ◌*◌, ◌/◌, ◌%◌, ◌^◌, ◌<◌, ◌≤◌, ◌≡◌, refl, ◌∙◌, ap, ◌≢◌, ◌⊎◌, inl, inr, List, [],
  ◌∷◌, ◌++◌, arith, length, set, lt→ltb, length-set, get_elem?-set_self, get_elem?-set_ne,
}
use chabu.Run.{ok, Returns}
use chabu.Buffer.{byte_at}
use chabu.Nio.Word.{store, store_down, store_up, fetch_up, fetch_down, joined, low_bytes, words}

-- From `at` on stand the bytes `xs`, the lowest of the value at the highest address.
abbrev pub Down : List ℕ → ℕ → List ℕ → Type 0
Down [] at m = Unit {0}
Down (x ∷ xs) at m = (byte_at m (at + length xs) ≡ ok x) × Down xs at m

-- … at the lowest address.
abbrev pub Up : List ℕ → ℕ → List ℕ → Type 0
Up [] at m = Unit {0}
Up (x ∷ xs) at m = (byte_at m at ≡ ok x) × Up xs (at + 1) m

-- Outside of `n` bytes from `at` on nothing has changed.
pub record Kept (at n : ℕ) (m m' : List ℕ) : Type 0 where
  pub size : length m' ≡ length m
  pub outside : (i : ℕ) → (i < at) ⊎ (at + n ≤ i) → byte_at m' i ≡ byte_at m i

pub byte_at-set_self : (m : List ℕ) (i v : ℕ) → i < length m → byte_at (set m i v) i ≡ ok v
unfolding byte_at
byte_at-set_self m i v h = rw (get_elem?-set_self m i v h, byte_at)

pub byte_at-set_ne : (m : List ℕ) (i j v : ℕ) → i ≢ j → byte_at (set m i v) j ≡ byte_at m j
unfolding byte_at
byte_at-set_ne m i j v h = rw (get_elem?-set_ne m v h, byte_at)

-- A store inside of the array, at an address that has not wrapped.
pub store_lem :
    (m : List ℕ) (i j v : ℕ)
    → i < length m
    → length m < 2 ^ 64
    → j ≡ i % 2 ^ 64
    → store m j v ≡ ok (set m i v)
unfolding store
store_lem m i j v h word e = let same : j ≡ i = omega arith in rw (same, lt→ltb i (length m) h)

pub store_down_lem :
    (xs : List ℕ) (at : ℕ) (m : List ℕ)
    → at + length xs ≤ length m
    → length m < 2 ^ 64
    → Returns (λ m'. Down xs at m' × Kept at (length xs) m m') (store_down xs at m)
unfolding store_down
store_down_lem [] at m h word = (m, refl, (tt, record { size = refl; outside = λ i out. refl }))
store_down_lem (x ∷ xs) at m h word =
    let i = at + length xs in
    let m1 = set m i x in
    let len = length-set m i x in
    let (m', e, (down, kept)) = store_down_lem xs at m1 (omega (arith, len)) (omega (arith, len)) in
    (
      m',
      rw (store_lem m i (i % 2 ^ 64) x (omega arith) word refl) e,
      (
        (kept.outside i (inr (omega arith)) ∙ byte_at-set_self m i x (omega arith), down),
        record {
          size = kept.size ∙ len;
          outside = λ j out. elim out [
            | inl l ↦ kept.outside j (inl l) ∙ byte_at-set_ne m i j x (omega arith)
            | inr r ↦ kept.outside j (inr (omega arith)) ∙ byte_at-set_ne m i j x (omega arith)
          ];
        },
      ),
    )

pub store_up_lem :
    (xs : List ℕ) (at : ℕ) (m : List ℕ)
    → at + length xs ≤ length m
    → length m < 2 ^ 64
    → Returns (λ m'. Up xs at m' × Kept at (length xs) m m') (store_up xs at m)
unfolding store_up
store_up_lem [] at m h word = (m, refl, (tt, record { size = refl; outside = λ i out. refl }))
store_up_lem (x ∷ xs) at m h word =
    let m1 = set m at x in
    let len = length-set m at x in
    let (m', e, (up, kept)) =
      store_up_lem xs (at + 1) m1 (omega (arith, len)) (omega (arith, len)) in
    (
      m',
      rw (store_lem m at (at % 2 ^ 64) x (omega arith) word refl) e,
      (
        (kept.outside at (inl (omega arith)) ∙ byte_at-set_self m at x (omega arith), up),
        record {
          size = kept.size ∙ len;
          outside = λ j out. elim out [
            | inl l ↦ kept.outside j (inl (omega arith)) ∙ byte_at-set_ne m at j x (omega arith)
            | inr r ↦ kept.outside j (inr (omega arith)) ∙ byte_at-set_ne m at j x (omega arith)
          ];
        },
      ),
    )

-- The bytes with the highest first.
abbrev pub reversed : List ℕ → List ℕ
reversed [] = []
reversed (x ∷ xs) = reversed xs ++ (x ∷ [])

pub fetch_up_lem :
    (xs : List ℕ) (at : ℕ) (m : List ℕ)
    → at + length xs < 2 ^ 64
    → Down xs at m
    → fetch_up (length xs) at m ≡ ok (reversed xs)
unfolding fetch_up
fetch_up_lem [] at m word d = refl
fetch_up_lem (x ∷ xs) at m word (e, d) =
    let here : (at + length xs) % 2 ^ 64 ≡ at + length xs = omega arith in
    rw (fetch_up_lem xs at m (omega arith) d, here, e)

pub fetch_down_lem :
    (xs : List ℕ) (at : ℕ) (m : List ℕ)
    → at + length xs < 2 ^ 64
    → Up xs at m
    → fetch_down (length xs) at m ≡ ok (reversed xs)
unfolding fetch_down
fetch_down_lem [] at m word u = refl
fetch_down_lem (x ∷ xs) at m word (e, u) =
    let here : at % 2 ^ 64 ≡ at = omega arith in
    rw (fetch_down_lem xs (at + 1) m (omega arith) u, here, e)

joined-append : (xs ys : List ℕ) (res : ℕ) → joined (xs ++ ys) res ≡ joined ys (joined xs res)
unfolding joined
joined-append [] ys res = refl
joined-append (x ∷ xs) ys res = joined-append xs ys (res * 256 + x)

-- A value is the value of its bytes.
pub joined-low_bytes : (n v : ℕ) → v < words n → joined (reversed (low_bytes n v)) 0 ≡ v
unfolding joined low_bytes words
joined-low_bytes zero v h = omega arith
joined-low_bytes (suc n) v h =
    joined-append (reversed (low_bytes n (v / 256))) (v % 256 ∷ []) 0
    ∙ omega (arith, joined-low_bytes n (v / 256) (omega arith))

pub length-low_bytes : (n v : ℕ) → length (low_bytes n v) ≡ n
unfolding low_bytes
length-low_bytes zero v = refl
length-low_bytes (suc n) v = ap suc (length-low_bytes n (v / 256))
