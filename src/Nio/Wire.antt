-- ===== src/Nio/Wire.antt =====
-- The node's buffer and the C library's buffer read numbers on the wire alike.
use chabu.Prelude.{
  ℕ, ◌+◌, ◌-◌, ◌*◌, ◌%◌, ◌^◌, ◌<◌, ◌≤◌, ◌≡◌, refl, ap, true, false, List, [], ◌∷◌, ◌++◌, arith, leb,
}
use chabu.Run.{Run, ok, fault, ◌>>=◌}
use chabu.Buffer
use chabu.Buffer.{byte_at, get_int_at_be}
use chabu.Nio.{ByteBuffer}
use chabu.Nio.Word.{joined, fetch_up, get_at}
use chabu.Nio.Number.{get_u_int_at}
use chabu.Nio.Round.{leb-false}

abbrev after : Run (List ℕ) → Run ℕ → Run (List ℕ)
after r s = do xs ← r; x ← s; ok (xs ++ (x ∷ []))

same4 :
    (r0 r1 r2 r3 : Run ℕ)
    → (after (after (after (after (ok []) r0) r1) r2) r3 >>= λ xs. ok (joined xs 0))
      ≡ (do b0 ← r0; b1 ← r1; b2 ← r2; b3 ← r3; ok (((b0 * 256 + b1) * 256 + b2) * 256 + b3))
unfolding joined
same4 (fault e) r1 r2 r3 = refl
same4 (ok b0) (fault e) r2 r3 = refl
same4 (ok b0) (ok b1) (fault e) r3 = refl
same4 (ok b0) (ok b1) (ok b2) (fault e) = refl
same4 (ok b0) (ok b1) (ok b2) (ok b3) = ap ok (omega arith)

-- For the same memory and the big endian order, `getUInt` of the node at an index in front of the
-- limit is what `Chabu_ByteBuffer_getIntAt_BE` of the library gives there, faults included.
pub get_u_int_at-get_int_at_be :
    (b : ByteBuffer) (c : Buffer.ByteBuffer) (index : ℕ)
    → b.order_be ≡ true
    → c.memory ≡ b.memory
    → b.limit < 2 ^ 63
    → index + 4 ≤ b.limit
    → get_u_int_at b index ≡ get_int_at_be c index
unfolding get_u_int_at get_at fetch_up get_int_at_be
get_u_int_at-get_int_at_be b c index be same word room =
    let wrap : (k : ℕ) → k ≤ 3 → (index + k) % 2 ^ 64 ≡ index + k = λ k h. omega arith in
    let start : (index + 0) % 2 ^ 64 ≡ index = omega arith in
    let free : leb b.limit ((index + (4 - 1)) % 2 ^ 64) ≡ false =
      leb-false b.limit _ (omega arith) in
    rw
      (
        free,
        be,
        start,
        wrap 1 (omega arith),
        wrap 2 (omega arith),
        wrap 3 (omega arith),
        same,
        get_u_int_at,
      )
      (same4 (byte_at b.memory index) (byte_at b.memory (index + 1)) (byte_at b.memory (index + 2))
        (byte_at b.memory (index + 3)))
