-- ===== src/Buffer/Bytes.antt =====
-- Lists of bytes: what `take` and `drop` see of a write, and the four bytes of a 32-bit pattern.
use chabu.Prelude.{
  ℕ, zero, suc, ◌+◌, ◌*◌, ◌/◌, ◌%◌, ◌^◌, ◌≤◌, ◌<◌, ◌≡◌, refl, ap, List, [], ◌∷◌, ◌++◌, arith,
  length, set, take, drop, get_elem?, append_assoc, length-append, length-drop, length-take,
}

-- Most significant byte first.
abbrev pub be32 : ℕ → List ℕ
be32 v = v / 2 ^ 24 % 256 ∷ v / 2 ^ 16 % 256 ∷ v / 2 ^ 8 % 256 ∷ v % 256 ∷ []

module _ {ℓ} {A : Type ℓ} where
  pub take-set :
      (i : ℕ) (xs : List A) (v : A)
      → i < length xs
      → take (i + 1) (set xs i v) ≡ take i xs ++ v ∷ []
  take-set zero [] v h = elim h [ ]
  take-set zero (x ∷ xs) v h = refl
  take-set (suc i) [] v h = absurd (omega arith)
  take-set (suc i) (x ∷ xs) v h =
      let e : suc i + 1 ≡ suc (i + 1) = omega arith in
      rw e (ap (λ t. x ∷ t) (take-set i xs v (omega arith)))

  pub take-append : (xs ys : List A) → take (length xs) (xs ++ ys) ≡ xs
  take-append [] ys = refl
  take-append (x ∷ xs) ys = rw (take-append xs ys)

  pub drop-append : (xs ys : List A) → drop (length xs) (xs ++ ys) ≡ ys
  drop-append [] ys = refl
  drop-append (x ∷ xs) ys = drop-append xs ys

  pub drop-nil : (n : ℕ) → drop {A = A} n [] ≡ []
  drop-nil zero = refl
  drop-nil (suc n) = refl

  pub drop-drop : (m n : ℕ) (xs : List A) → drop n (drop m xs) ≡ drop (m + n) xs
  drop-drop zero n xs = ap (λ k. drop k xs) (omega arith)
  drop-drop (suc m) n [] = let e : suc m + n ≡ suc (m + n) = omega arith in rw (e, drop-nil n)
  drop-drop (suc m) n (x ∷ xs) =
      let e : suc m + n ≡ suc (m + n) = omega arith in rw e (drop-drop m n xs)

  pub length-le_of_drop :
      (n : ℕ) (xs ys zs : List A) → drop n xs ≡ ys ++ zs → 0 < length ys → n + length ys ≤ length xs
  length-le_of_drop n xs ys zs e h =
      omega (arith, ap length e, length-drop n xs, length-append ys zs)

  pub get_elem?-drop : (n i : ℕ) (xs : List A) → get_elem? (drop n xs) i ≡ get_elem? xs (n + i)
  get_elem?-drop zero i xs = ap (get_elem? xs) (omega arith)
  get_elem?-drop (suc n) i [] = refl
  get_elem?-drop (suc n) i (x ∷ xs) =
      let e : suc n + i ≡ suc (n + i) = omega arith in rw e (get_elem?-drop n i xs)

  pub take-take : (n m : ℕ) (xs : List A) → take n (take (n + m) xs) ≡ take n xs
  take-take zero m xs = refl
  take-take (suc n) m [] = let e : suc n + m ≡ suc (n + m) = omega arith in rw e
  take-take (suc n) m (x ∷ xs) =
      let e : suc n + m ≡ suc (n + m) = omega arith in rw e (ap (λ l. x ∷ l) (take-take n m xs))

  -- What a block copy leaves in front of its end.
  pub take-splice :
      (to n : ℕ) (block target : List A)
      → length block ≡ n
      → to + n ≤ length target
      → take (to + n) (take to target ++ (block ++ drop (to + n) target)) ≡ take to target ++ block
  take-splice to n block target e h =
      let len : to + n ≡ length (take to target ++ block) =
        omega (arith, length-append (take to target) block, length-take to target) in
      rw (← append_assoc, len, take-append)

  pub length-splice :
      (to n : ℕ) (block target : List A)
      → length block ≡ n
      → to + n ≤ length target
      → length (take to target ++ (block ++ drop (to + n) target)) ≡ length target
  length-splice to n block target e h = omega (
    arith,
    length-append (take to target) (block ++ drop (to + n) target),
    length-append block (drop (to + n) target),
    length-take to target,
    length-drop (to + n) target,
  )

pub length-be32 : (v : ℕ) → length (be32 v) ≡ 4
length-be32 v = refl

-- The four bytes determine the pattern.
pub value-be32 :
    (v : ℕ)
    → v < 2 ^ 32
    → ((v / 2 ^ 24 % 256 * 256 + v / 2 ^ 16 % 256) * 256 + v / 2 ^ 8 % 256) * 256 + v % 256 ≡ v
value-be32 v h = omega arith
