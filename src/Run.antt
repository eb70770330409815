-- ===== src/Run.antt =====
-- The outcome of C code that may go wrong: a result, or the first fault. A fault stands for
-- behaviour that C leaves undefined (an access out of an array, a NULL pointer), for a failed
-- `assert`, for a loop that has used up the rounds it was given, and for a C++ exception.
use mathlib.Core.Path.{subst}
use chabu.Prelude.{ℕ, ◌≡◌, refl, Bool, true, false, if◌then◌else◌, Option, none, some}
use chabu.Prelude.Int.{ℤ, pos, negsuc}

-- `std::overflow_error`, `std::out_of_range`, `std::runtime_error`, `boost::bad_lexical_cast`
pub data Exception : Type 0 where
  overflow_error out_of_range runtime_error bad_lexical_cast : Exception

pub data Fault : Type 0 where
  out_of_bounds null_pointer assert_failed no_rounds_left : Fault
  thrown : Exception → Fault

pub data Run {ℓ} (A : Type ℓ) : Type ℓ where
  ok : A → Run A
  fault : Fault → Run A

infixl 5 ◌>>=◌ ◌>>◌
abbrev pub ◌>>=◌ {ℓ κ} : {A : Type ℓ} {B : Type κ} → Run A → (A → Run B) → Run B
ok a >>= k = k a
fault e >>= k = fault e

abbrev pub ◌>>◌ {ℓ} : {B : Type ℓ} → Run (Unit {0}) → Run B → Run B
m >> k = m >>= λ _. k

-- `r` ends well, in a state of which `P` holds.
abbrev pub Returns {ℓ κ} : {A : Type ℓ} → (A → Type κ) → Run A → Type (ℓ ⊔ κ)
Returns {A} P r = (a : A) × (r ≡ ok a) × P a

-- `P` holds of the result, where there is one.
abbrev pub OnOk {ℓ} : {A : Type ℓ} → (A → Type 0) → Run A → Type 0
OnOk P (ok a) = P a
OnOk P (fault e) = Unit {0}

pub bind-OnOk {ℓ κ} :
    {A : Type ℓ} {B : Type κ} (Q : A → Type 0) (P : B → Type 0) (m : Run A) (k : A → Run B)
    → OnOk Q m
    → ((a : A) → Q a → OnOk P (k a))
    → OnOk P (m >>= k)
bind-OnOk Q P (ok a) k q h = h a q
bind-OnOk Q P (fault e) k q h = tt

-- Nothing is known of what the first part gives.
pub then-OnOk {ℓ κ} :
    {A : Type ℓ} {B : Type κ} (P : B → Type 0) (m : Run A) (k : A → Run B)
    → ((a : A) → OnOk P (k a))
    → OnOk P (m >>= k)
then-OnOk P (ok a) k h = h a
then-OnOk P (fault e) k h = tt

pub if-OnOk {ℓ} :
    {A : Type ℓ} (P : A → Type 0) (t : Bool) (r s : Run A)
    → OnOk P r
    → OnOk P s
    → OnOk P (if t then r else s)
if-OnOk P true r s h g = h
if-OnOk P false r s h g = g

pub test-OnOk {ℓ} :
    {A : Type ℓ} (P : A → Type 0) (t : Bool) (r s : Run A)
    → (t ≡ true → OnOk P r)
    → (t ≡ false → OnOk P s)
    → OnOk P (if t then r else s)
test-OnOk P true r s h g = h refl
test-OnOk P false r s h g = g refl

pub option-OnOk {ℓ κ} :
    {A : Type ℓ} {B : Type κ} (P : B → Type 0) (o : Option A) (r : Run B) (k : A → Run B)
    → OnOk P r
    → ((a : A) → OnOk P (k a))
    → OnOk P (elim o [ none ↦ r | some a ↦ k a ])
option-OnOk P none r k h g = h
option-OnOk P (some a) r k h g = g a

pub int-OnOk {ℓ} :
    {A : Type ℓ} (P : A → Type 0) (z : ℤ) (r s : ℕ → Run A)
    → ((n : ℕ) → z ≡ negsuc n → OnOk P (r n))
    → ((n : ℕ) → z ≡ pos n → OnOk P (s n))
    → OnOk P (elim z [ negsuc n ↦ r n | pos n ↦ s n ])
int-OnOk P (negsuc n) r s h g = h n refl
int-OnOk P (pos n) r s h g = g n refl

pub OnOk-mono {ℓ} :
    {A : Type ℓ} (P Q : A → Type 0) (m : Run A) → ((a : A) → P a → Q a) → OnOk P m → OnOk Q m
OnOk-mono P Q (ok a) f h = f a h
OnOk-mono P Q (fault e) f h = tt

-- A computation has one result.
pub Returns_at {ℓ κ} :
    {A : Type ℓ} (P : A → Type κ) (r : Run A) (a : A) → Returns P r → r ≡ ok a → P a
Returns_at P r a (b, e, p) f = let same : b ≡ a = cc (e, f) in subst P same p

pub bool-OnOk {ℓ} :
    {A : Type ℓ} (P : A → Type 0) (t : Bool) (r s : Run A)
    → OnOk P r
    → OnOk P s
    → OnOk P (elim t [ true ↦ r | false ↦ s ])
bool-OnOk P true r s h g = h
bool-OnOk P false r s h g = g

pub OnOk_at {ℓ} : {A : Type ℓ} (P : A → Type 0) (r : Run A) (a : A) → OnOk P r → r ≡ ok a → P a
OnOk_at P r a h e = subst (OnOk P) e h
