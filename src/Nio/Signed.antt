-- ===== src/Nio/Signed.antt =====
-- Signed numbers: the signed methods write the same bytes as the unsigned ones do for the two's
-- complement pattern, and what is put is got back with its sign.
use chabu.Prelude.{
  ℕ, zero, suc, ◌+◌, ◌-◌, ◌*◌, ◌/◌, ◌%◌, ◌<◌, ◌≤◌, ◌≡◌, refl, ◌∙◌, ap, ◌∷◌, arith, lt→ltb,
  not_lt→ltb,
}
use chabu.Prelude.Int.{ℤ, pos, negsuc}
use chabu.Run.{ok, ◌>>=◌, Returns}
use chabu.Nio.{ByteBuffer}
use chabu.Nio.Word.{low_bytes, low_bytes_signed, words, to_signed, put_at, put, get_at}
use chabu.Nio.Number.{
  put_short_at, put_u_short_at, put_int, put_u_int, put_int_at, put_u_int_at, put_long, put_u_long,
  put_long_at, put_u_long_at, get_short_at, get_int_at, get_long_at,
}
use chabu.Nio.Round.{IsValid, get_at-put_at}

-- The two's complement pattern in `n` bytes.
abbrev pub pattern : ℕ → ℤ → ℕ
pattern n (pos v) = v
pattern n (negsuc v) = words n - 1 - v

-- `-256 ^ n / 2 <= v < 256 ^ n / 2`
abbrev pub Fits : ℕ → ℤ → Type 0
Fits n (pos v) = v < words n / 2
Fits n (negsuc v) = v < words n / 2

-- Any pattern of `n` bytes, signed or not.
abbrev pub InWord : ℕ → ℤ → Type 0
InWord n (pos v) = v < words n
InWord n (negsuc v) = v < words n

low_bytes-pattern : (n : ℕ) (v : ℤ) → InWord n v → low_bytes_signed n v ≡ low_bytes n (pattern n v)
unfolding low_bytes_signed low_bytes words
low_bytes-pattern zero v h = refl
low_bytes-pattern (suc n) (pos v) h =
    ap (λ l. v % 256 ∷ l) (low_bytes-pattern n (pos (v / 256)) (omega arith))
low_bytes-pattern (suc n) (negsuc v) h =
    let low : 255 - v % 256 ≡ (256 * words n - 1 - v) % 256 = omega arith in
    let high : words n - 1 - v / 256 ≡ (256 * words n - 1 - v) / 256 = omega arith in
    rw (low_bytes-pattern n (negsuc (v / 256)) (omega arith), high, low)

pattern-small : (n : ℕ) (v : ℤ) → 0 < n → Fits n v → (pattern n v < words n) × InWord n v
unfolding words
pattern-small zero v some_bytes h = elim some_bytes [ ]
pattern-small (suc n) (pos v) some_bytes h = (omega arith, omega arith)
pattern-small (suc n) (negsuc v) some_bytes h = (omega arith, omega arith)

to_signed-pattern : (n : ℕ) (v : ℤ) → 0 < n → Fits n v → to_signed n (pattern n v) ≡ v
unfolding to_signed words
to_signed-pattern zero v some_bytes h = elim some_bytes [ ]
to_signed-pattern (suc n) (pos v) some_bytes h = rw (lt→ltb v (256 * words n / 2) h)
to_signed-pattern (suc n) (negsuc v) some_bytes h =
    rw (not_lt→ltb (256 * words n - 1 - v) (256 * words n / 2) (omega arith))
      (ap negsuc (omega arith))

-- At the widths of 2, 4 and 8 bytes, and for a value that fits, the signed methods do what the
-- unsigned ones do for the pattern of the value: at the position for four and eight bytes, and at an
-- index for all three.
pub put_int-put_u_int :
    (b : ByteBuffer) (index : ℕ) (v : ℤ)
    → (Fits 2 v → put_short_at b index v ≡ put_u_short_at b index (pattern 2 v))
      × (Fits 4 v
          → (put_int b v ≡ put_u_int b (pattern 4 v))
            × (put_int_at b index v ≡ put_u_int_at b index (pattern 4 v)))
      × (Fits 8 v
          → (put_long b v ≡ put_u_long b (pattern 8 v))
            × (put_long_at b index v ≡ put_u_long_at b index (pattern 8 v)))
unfolding put_short_at put_u_short_at put_int put_u_int put_int_at put_u_int_at put_long put_u_long
    put_long_at put_u_long_at
put_int-put_u_int b index v = (
  λ h. ap (put_at b index) (same 2 (omega arith) h),
  λ h. (ap (put b) (same 4 (omega arith) h), ap (put_at b index) (same 4 (omega arith) h)),
  λ h. (ap (put b) (same 8 (omega arith) h), ap (put_at b index) (same 8 (omega arith) h)),
)
  where
    same : (n : ℕ) → 0 < n → Fits n v → low_bytes_signed n v ≡ low_bytes n (pattern n v)
    same n some_bytes h = low_bytes-pattern n v (pattern-small n v some_bytes h).1

round_trip :
    (b : ByteBuffer) (n index : ℕ) (v : ℤ)
    → IsValid b
    → 0 < n
    → Fits n v
    → index + n ≤ b.limit
    → Returns
        (λ b'. (get_at b' n index >>= λ p. ok (to_signed n p)) ≡ ok v)
        (put_at b index (low_bytes_signed n v))
round_trip b n index v valid some_bytes h room =
    let (small, word) = pattern-small n v some_bytes h in
    let (b', e, (got, _, _)) = get_at-put_at b n index (pattern n v) valid some_bytes small room in
    (
      b',
      ap (put_at b index) (low_bytes-pattern n v word) ∙ e,
      rw got (ap ok (to_signed-pattern n v some_bytes h)),
    )

-- A signed value of 2, 4 or 8 bytes that is put at an index of a valid buffer, with room for it in
-- front of the limit, is got back from there with its sign, in either byte order.
pub get_int_at-put_int_at :
    (b : ByteBuffer) (index : ℕ) (v : ℤ)
    → IsValid b
    → (Fits 2 v
        → index + 2 ≤ b.limit
        → Returns (λ b'. get_short_at b' index ≡ ok v) (put_short_at b index v))
      × (Fits 4 v
          → index + 4 ≤ b.limit
          → Returns (λ b'. get_int_at b' index ≡ ok v) (put_int_at b index v))
      × (Fits 8 v
          → index + 8 ≤ b.limit
          → Returns (λ b'. get_long_at b' index ≡ ok v) (put_long_at b index v))
unfolding put_short_at put_int_at put_long_at get_short_at get_int_at get_long_at
get_int_at-put_int_at b index v valid = (
  round_trip b 2 index v valid (omega arith),
  round_trip b 4 index v valid (omega arith),
  round_trip b 8 index v valid (omega arith),
)
