-- ===== src/Nio/Flaws.antt =====
-- What the node's buffer does at the edges of its methods.
use mathlib.Core.Path.{subst}
use chabu.Prelude.{
  Bool, ℕ, ◌+◌, ◌-◌, ◌*◌, ◌%◌, ◌^◌, ◌<◌, ◌≤◌, ◌≡◌, sym, ◌∙◌, ap, true, false, List, [], ◌∷◌, arith,
  length, leb, set, lt→ltb, not_lt→ltb, length-set, if◌then◌else◌,
}
use chabu.Prelude.Int.{ℤ}
use chabu.Run.{ok, fault, out_of_bounds, ◌>>=◌, Returns}
use chabu.Buffer.{byte_at}
use chabu.Nio.{ByteBuffer}
use chabu.Nio.Word.{low_byte, low_bytes, store, store_down, store_up, joined, put_at}
use chabu.Nio.Number.{put_short, put_u_int_at, get_u_short_at}
use chabu.Nio.Store.{byte_at-set_self, byte_at-set_ne}
use chabu.Nio.Round.{IsValid, Placed, get_at-Placed, leb-false}

store_ok : (m : List ℕ) (i v : ℕ) → i < length m → store m i v ≡ ok (set m i v)
unfolding store
store_ok m i v h = rw (lt→ltb i (length m) h)

store_fault : (m : List ℕ) (i v : ℕ) → length m ≤ i → store m i v ≡ fault out_of_bounds
unfolding store
store_fault m i v h = rw (not_lt→ltb i (length m) (omega arith))

stores_fail :
    (be : Bool) (b0 b1 b2 b3 : ℕ) (m : List ℕ)
    → 2 < length m
    → length m < 2 ^ 63
    → (if be
        then store_down (b0 ∷ b1 ∷ b2 ∷ b3 ∷ []) (2 ^ 64 - 1) m
        else store_up (b0 ∷ b1 ∷ b2 ∷ b3 ∷ []) (2 ^ 64 - 1) m)
      ≡ fault out_of_bounds
unfolding store_down store_up
stores_fail true b0 b1 b2 b3 m h word =
    let m1 = set m 2 b0 in
    let m2 = set m1 1 b1 in
    let m3 = set m2 0 b2 in
    let e1 = length-set m 2 b0 in
    let e2 = length-set m1 1 b1 in
    let e3 = length-set m2 0 b2 in
    rw (
      store_ok m 2 b0 h,
      store_ok m1 1 b1 (omega (arith, e1)),
      store_ok m2 0 b2 (omega (arith, e1, e2)),
      store_fault m3 (2 ^ 64 - 1) b3 (omega (arith, e1, e2, e3)),
    )
stores_fail false b0 b1 b2 b3 m h word = rw (store_fault m (2 ^ 64 - 1) b0 (omega arith))

-- The guard of `putUInt` at an index adds 3 without regard to the wrap of `size_t`. At the largest
-- index it passes in a valid buffer with a limit above 2, in either byte order, and the code writes
-- outside of the array.
pub put_u_int_at-out_of_bounds :
    (b : ByteBuffer) (v : ℕ)
    → IsValid b
    → 2 < b.limit
    → put_u_int_at b (2 ^ 64 - 1) v ≡ fault out_of_bounds
unfolding put_u_int_at put_at low_bytes
put_u_int_at-out_of_bounds b v valid room =
    let free : leb b.limit 2 ≡ false = leb-false b.limit 2 room in
    rw (free, put_u_int_at)
      (ap (λ r. r >>= λ m. ok (record b { memory = m }))
        (stores_fail b.order_be _ _ _ _ b.memory (omega (arith, valid.inside, valid.full))
          (omega (arith, valid.full, valid.word))))

-- Little endian `putShort`, with room for it in a valid buffer, puts the low byte of the value to
-- both addresses: what is read back is 257 times the low byte, whatever the high byte was.
pub get_u_short_at-put_short :
    (b : ByteBuffer) (v : ℤ)
    → IsValid b
    → b.order_be ≡ false
    → b.position + 2 ≤ b.limit
    → Returns (λ b'. get_u_short_at b' b.position ≡ ok (257 * low_byte v)) (put_short b v)
unfolding put_short get_u_short_at joined
get_u_short_at-put_short b v valid le room =
    let p = b.position in
    let x = low_byte v in
    let m1 = set b.memory (p + 1) x in
    let m2 = set m1 p x in
    let e1 = length-set b.memory (p + 1) x in
    let wrap : (p + 1) % 2 ^ 64 ≡ p + 1 = omega (arith, valid.inside, valid.word) in
    let free : leb b.limit ((p + 1) % 2 ^ 64) ≡ false =
      leb-false b.limit _ (omega (arith, valid.inside, valid.word)) in
    let b' : ByteBuffer = record b { memory = m2; position = (p + 2) % 2 ^ 64 } in
    let low : byte_at m2 p ≡ ok x =
      byte_at-set_self m1 p x (omega (arith, e1, valid.inside, valid.full)) in
    let high : byte_at m2 (p + 1) ≡ ok x =
      byte_at-set_ne m1 p (p + 1) x (omega arith)
      ∙ byte_at-set_self b.memory (p + 1) x (omega (arith, valid.inside, valid.full)) in
    (
      b',
      rw (
        le,
        free,
        wrap,
        store_ok b.memory (p + 1) x (omega (arith, valid.inside, valid.full)),
        store_ok m1 p x (omega (arith, e1, valid.inside, valid.full)),
        put_short,
      ),
      get_at-Placed b' p (x ∷ x ∷ []) (omega (arith, valid.inside, valid.word)) (omega arith) room
            (subst (λ o. Placed o (x ∷ x ∷ []) p m2) (sym le) (low, (high, tt)))
          ∙ ap ok (omega arith),
    )
