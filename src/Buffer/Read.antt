-- ===== src/Buffer/Read.antt =====
-- Reading: what was written in big-endian order is read back.
use chabu.Prelude.{
  ℕ, ◌+◌, ◌/◌, ◌%◌, ◌^◌, ◌<◌, ◌≡◌, refl, sym, ◌∙◌, ap, some, List, ◌++◌, arith, length, take, drop,
  get_elem?, length-take, take-append-drop, append_assoc,
}
use chabu.Run.{ok, Returns}
use chabu.Buffer.{ByteBuffer, byte_at, get_int_at_be, get_int_be, put_int_be, to_int}
use chabu.Prelude.Int.{pos}
use chabu.Buffer.Write.{Writes, Fits, written, put_int_be_lem}
use chabu.Buffer.Bytes.{
  be32, value-be32, take-append, take-take, drop-append, drop-drop, get_elem?-drop,
}

-- The bytes from the position on.
abbrev pub unread : ByteBuffer → List ℕ
unread b = drop b.position b.memory

-- The byte `k` places behind `i`, where the bytes from `i` on are known.
pub byte_at-drop :
    (m bytes : List ℕ) (i k j v : ℕ)
    → drop i m ≡ bytes
    → j ≡ i + k
    → get_elem? bytes k ≡ some v
    → byte_at m j ≡ ok v
unfolding byte_at
byte_at-drop m bytes i k j v e ej g =
    let at : get_elem? m j ≡ some v =
      ap (get_elem? m) ej ∙ sym (get_elem?-drop i k m) ∙ ap (λ l. get_elem? l k) e ∙ g in
    rw (at, byte_at)

pub get_int_at_be_lem :
    (b : ByteBuffer) (i v : ℕ) (rest : List ℕ)
    → v < 2 ^ 32
    → drop i b.memory ≡ be32 v ++ rest
    → get_int_at_be b i ≡ ok v
unfolding get_int_at_be
get_int_at_be_lem b i v rest h e = rw (
  byte_at-drop b.memory _ i 0 i (v / 2 ^ 24 % 256) e (omega arith) refl,
  byte_at-drop b.memory _ i 1 (i + 1) (v / 2 ^ 16 % 256) e refl refl,
  byte_at-drop b.memory _ i 2 (i + 2) (v / 2 ^ 8 % 256) e refl refl,
  byte_at-drop b.memory _ i 3 (i + 3) (v % 256) e refl refl,
  value-be32 v h,
)

-- A 32-bit pattern at the position is read, and the rest stays unread.
pub get_int_be_lem :
    (b : ByteBuffer) (v : ℕ) (rest : List ℕ)
    → v < 2 ^ 32
    → unread b ≡ be32 v ++ rest
    → (get_int_be b ≡ ok (v, record b { position = b.position + 4 }))
      × (drop (b.position + 4) b.memory ≡ rest)
unfolding get_int_be
get_int_be_lem b v rest h e = (
  rw (get_int_at_be_lem b b.position v rest h e),
  sym (drop-drop b.position 4 b.memory) ∙ ap (drop 4) e,
)

-- Behind the old position stand the bytes that were appended.
pub drop-Writes :
    {b b' : ByteBuffer} (bytes : List ℕ)
    → Fits b (length bytes)
    → Writes b bytes b'
    → drop b.position b'.memory ≡ bytes ++ unread b'
drop-Writes {b} {b'} bytes h w =
    let all : b'.memory ≡ (written b ++ bytes) ++ unread b' =
      sym (take-append-drop b'.position b'.memory) ∙ ap (λ l. l ++ unread b') w.content in
    let len : b.position ≡ length (written b) = omega (arith, length-take b.position b.memory) in
    ap (drop b.position) (all ∙ append_assoc (written b) bytes (unread b'))
    ∙ ap (λ k. drop k (written b ++ (bytes ++ unread b'))) len
    ∙ drop-append (written b) (bytes ++ unread b')

-- The bytes in front of the old position are kept.
pub take-Writes :
    {b b' : ByteBuffer} (bytes : List ℕ)
    → Fits b (length bytes)
    → Writes b bytes b'
    → take b.position b'.memory ≡ written b
take-Writes {b} {b'} bytes h w =
    let len : b.position ≡ length (written b) = omega (arith, length-take b.position b.memory) in
    sym (take-take b.position (length bytes) b'.memory)
    ∙ ap (λ k. take b.position (take k b'.memory)) (sym w.place)
    ∙ ap (take b.position) w.content
    ∙ ap (λ k. take k (written b ++ bytes)) len
    ∙ take-append (written b) bytes

-- A 32-bit pattern that is put into a buffer with room for it stands there: it is read back from
-- where it was put, and the buffer has moved on by four bytes and keeps the bytes before it.
pub get_int_at_be-put_int_be :
    (b : ByteBuffer) (v : ℕ)
    → v < 2 ^ 32
    → Fits b 4
    → Returns
        (λ b'.
          (get_int_at_be b' b.position ≡ ok v)
          × (b'.position ≡ b.position + 4)
          × (take b.position b'.memory ≡ written b))
        (put_int_be b v)
get_int_at_be-put_int_be b v h room =
    let (b', e, w) = put_int_be_lem b v room in
    (
      b',
      e,
      (
        get_int_at_be_lem b' b.position v (unread b') h (drop-Writes (be32 v) room w),
        w.place,
        take-Writes (be32 v) room w,
      ),
    )

pub to_int_small : (w : ℕ) → w < 2 ^ 31 → to_int w ≡ pos w
unfolding to_int
to_int_small w h = ground arith
