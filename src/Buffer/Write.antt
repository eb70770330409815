-- ===== src/Buffer/Write.antt =====
-- What the writing operations leave in the buffer: each appends its bytes behind those that were
-- written before, and touches no other field.
use chabu.Prelude.{
  ℕ, zero, suc, ◌+◌, ◌/◌, ◌%◌, ◌^◌, ◌≤◌, ◌<◌, ◌≡◌, refl, List, [], ◌∷◌, ◌++◌, arith, length, set,
  take, replicate, length-set, append_assoc, append-nil, length-append, lt→ltb, ◌∙◌,
}
use chabu.Run.{Run, ok, ◌>>=◌}
use chabu.Buffer.{ByteBuffer, put_byte, put_padding, put_int_be}
use chabu.Buffer.Bytes.{be32, take-set}

-- The bytes in front of the position.
abbrev pub written : ByteBuffer → List ℕ
written b = take b.position b.memory

pub record Writes (b : ByteBuffer) (bytes : List ℕ) (b' : ByteBuffer) : Type 0 where
  pub place : b'.position ≡ b.position + length bytes
  pub content : written b' ≡ written b ++ bytes
  pub room : length b'.memory ≡ length b.memory
  pub same_limit : b'.limit ≡ b.limit
  pub same_capacity : b'.capacity ≡ b.capacity

-- `r` ends well, having appended `bytes` to `b`.
abbrev pub Puts : ByteBuffer → List ℕ → Run ByteBuffer → Type 0
Puts b bytes r = (b' : ByteBuffer) × (r ≡ ok b') × Writes b bytes b'

abbrev pub Fits : ByteBuffer → ℕ → Type 0
Fits b n = b.position + n ≤ length b.memory

pub Writes-trans :
    {a b c : ByteBuffer} (xs ys : List ℕ) → Writes a xs b → Writes b ys c → Writes a (xs ++ ys) c
Writes-trans {a} xs ys u v = record {
  place = omega (arith, u.place, v.place, length-append xs ys);
  content = rw (v.content, u.content, append_assoc);
  room = v.room ∙ u.room;
  same_limit = v.same_limit ∙ u.same_limit;
  same_capacity = v.same_capacity ∙ u.same_capacity;
}

pub Puts-bind :
    {b : ByteBuffer} {r : Run ByteBuffer} {k : ByteBuffer → Run ByteBuffer} (xs ys : List ℕ)
    → Puts b xs r
    → ((b' : ByteBuffer) → Writes b xs b' → Puts b' ys (k b'))
    → Puts b (xs ++ ys) (r >>= k)
Puts-bind xs ys (b', e, w) next = let (c, f, v) = next b' w in (c, rw e f, Writes-trans xs ys w v)

pub put_byte_lem : (b : ByteBuffer) (v : ℕ) → Fits b 1 → Puts b (v % 256 ∷ []) (put_byte b v)
unfolding put_byte
put_byte_lem b v h =
    let lt : b.position < length b.memory = omega arith in
    (
      record b { memory = set b.memory b.position (v % 256); position = b.position + 1 },
      rw (lt→ltb _ _ lt),
      record {
        place = refl;
        content = take-set b.position b.memory (v % 256) lt;
        room = length-set b.memory b.position (v % 256);
        same_limit = refl;
        same_capacity = refl;
      },
    )

pub put_padding_lem : (n : ℕ) (b : ByteBuffer) → Fits b n → Puts b (replicate n 0) (put_padding b n)
unfolding put_padding
put_padding_lem zero b h = (
  b,
  refl,
  record {
    place = omega arith;
    content = rw append-nil;
    room = refl;
    same_limit = refl;
    same_capacity = refl;
  },
)
put_padding_lem (suc n) b h =
    Puts-bind (0 ∷ []) (replicate n 0) (put_byte_lem b 0 (omega arith))
      λ b' w. put_padding_lem n b' (omega (arith, w.place, w.room))

pub put_int_be_lem : (b : ByteBuffer) (v : ℕ) → Fits b 4 → Puts b (be32 v) (put_int_be b v)
unfolding put_int_be
put_int_be_lem b v h =
    Puts-bind (v / 2 ^ 24 % 256 ∷ []) _ (put_byte_lem b (v / 2 ^ 24) (omega arith)) λ b1 w1.
      Puts-bind (v / 2 ^ 16 % 256 ∷ []) _ (put_byte_lem b1 (v / 2 ^ 16) (omega arith)) λ b2 w2.
        Puts-bind (v / 2 ^ 8 % 256 ∷ []) _ (put_byte_lem b2 (v / 2 ^ 8) (omega arith))
          λ b3 w3. put_byte_lem b3 v (omega arith)
