-- ===== src/Buffer/Text.antt =====
-- Strings: what putString writes, and that getString reads it back.
use chabu.Prelude.{
  ℕ, zero, suc, ◌+◌, ◌-◌, ◌^◌, ◌<◌, ◌≤◌, ◌≡◌, refl, ◌∙◌, ap, ◌≢◌, some, List, [], ◌∷◌, ◌++◌, arith,
  length, take, drop, replicate, min, ne→==, append_assoc, append-nil, length-append, length-drop,
  length-replicate,
}
use chabu.Run.{ok, ◌>>=◌, Returns}
use chabu.Common.{memchr_zero, strnlen}
use chabu.Buffer.{ByteBuffer, put_string, get_string, get_chars, to_int, copy, align_up4}
use chabu.Buffer.Bytes.{be32, take-append, take-splice, length-splice}
use chabu.Buffer.Write.{
  Writes, Writes-trans, Puts, Puts-bind, Fits, put_int_be_lem, put_padding_lem,
}
use chabu.Buffer.Read.{unread, drop-Writes, get_int_be_lem, to_int_small}
use chabu.Buffer.Xfer.{copy_lem}

-- The characters of a string, none of which is the terminating zero.
abbrev pub NoZero : List ℕ → Type 0
NoZero [] = Unit {0}
NoZero (c ∷ cs) = (c ≢ 0) × NoZero cs

memchr_zero_lem :
    (cs rest : List ℕ) (n at : ℕ)
    → NoZero cs
    → length cs < n
    → memchr_zero (cs ++ (0 ∷ rest)) n at ≡ ok (some (at + length cs))
unfolding memchr_zero
memchr_zero_lem cs rest zero at nz h = absurd (omega arith)
memchr_zero_lem [] rest (suc n) at nz h = ap (λ k. ok (some k)) (omega arith)
memchr_zero_lem (c ∷ cs) rest (suc n) at (ne, nz) h =
    rw (ne→== c 0 ne, memchr_zero)
      (memchr_zero_lem cs rest n (suc at) nz (omega arith) ∙ ap (λ k. ok (some k)) (omega arith))

pub strnlen_lem :
    (cs rest : List ℕ) (n : ℕ)
    → NoZero cs
    → length cs < n
    → strnlen (some (cs ++ (0 ∷ rest))) n ≡ ok (length cs)
unfolding strnlen
strnlen_lem cs rest n nz h = rw (memchr_zero_lem cs rest n 0 nz h) (ap ok (omega arith))

-- The bytes of a string in a packet: its length, the characters, and zeros up to a multiple of four.
abbrev pub string_bytes : List ℕ → List ℕ
string_bytes cs = be32 (length cs) ++ (cs ++ replicate (align_up4 (length cs) - length cs) 0)

pub length-string_bytes : (cs : List ℕ) → length (string_bytes cs) ≡ 4 + align_up4 (length cs)
unfolding align_up4
length-string_bytes cs =
    let z : ℕ = 0 in
    omega (
      arith,
      length-append cs (replicate (align_up4 (length cs) - length cs) z),
      length-replicate (align_up4 (length cs) - length cs) z,
    )

-- The characters behind the length, where there is room.
put_chars :
    (b : ByteBuffer) (cs rest : List ℕ)
    → Fits b (length cs)
    → Returns
        (λ m. Writes b cs (record b { memory = m; position = b.position + length cs }))
        (copy (cs ++ (0 ∷ rest)) b.memory 0 b.position (length cs))
put_chars b cs rest room =
    let value = cs ++ (0 ∷ rest) in
    let n = length cs in
    let long : 0 + n ≤ length value = omega (arith, length-append cs (0 ∷ rest)) in
    let block : take n value ≡ cs = take-append cs (0 ∷ rest) in
    (
      take b.position b.memory ++ (take n value ++ drop (b.position + n) b.memory),
      copy_lem value b.memory 0 b.position n long room,
      record {
        place = refl;
        content =
            take-splice b.position n (take n value) b.memory (ap length block) room
            ∙ ap (λ l. take b.position b.memory ++ l) block;
        room = length-splice b.position n (take n value) b.memory (ap length block) room;
        same_limit = refl;
        same_capacity = refl;
      },
    )

-- A string of at most 255 characters, none of them zero, is put into a buffer with room for it
-- without a fault, as exactly its length, its characters and the padding.
pub put_string-string_bytes :
    (b : ByteBuffer) (cs rest : List ℕ)
    → NoZero cs
    → length cs < 0x100
    → Fits b (4 + align_up4 (length cs))
    → Puts b (string_bytes cs) (put_string b (cs ++ (0 ∷ rest)))
unfolding put_string align_up4
put_string-string_bytes b cs rest nz short room =
    let pad = align_up4 (length cs) - length cs in
    rw (strnlen_lem cs rest 0x100 nz short) (
      Puts-bind (be32 (length cs)) _ (put_int_be_lem b (length cs) (omega arith)) λ b1 w1.
        let (m, e, w2) = put_chars b1 cs rest (omega (arith, w1.place, w1.room)) in
        let b2 : ByteBuffer = record b1 { memory = m; position = b1.position + length cs } in
        let (b3, e3, w3) = put_padding_lem pad b2 (omega (arith, w1.place, w1.room, w2.room)) in
        (b3, rw e e3, Writes-trans cs (replicate pad 0) w2 w3))

drop-replicate : (n z : ℕ) → drop n (replicate n z) ≡ []
drop-replicate zero z = refl
drop-replicate (suc n) z = drop-replicate n z

-- Where the unread bytes begin with a string that the array has room for, getString returns its
-- characters without a fault, and goes on behind the padding.
pub get_string-string_bytes :
    (b : ByteBuffer) (cs rest : List ℕ) (n : ℕ)
    → length cs < 2 ^ 31
    → length cs ≤ n
    → unread b ≡ string_bytes cs ++ rest
    → get_string b (suc n) ≡ ok (cs, record b { position = b.position + 4 + align_up4 (length cs) })
unfolding get_string get_chars
get_string-string_bytes b cs rest n small fits e =
    let z : ℕ = 0 in
    let pad = replicate (align_up4 (length cs) - length cs) z in
    let (r, s) = get_int_be_lem b (length cs) ((cs ++ pad) ++ rest) (omega arith) e in
    let s' : drop (b.position + 4) b.memory ≡ cs ++ (pad ++ rest) = s ∙ append_assoc cs pad rest in
    let len : min (length cs) n ≡ length cs = omega arith in
    let long : b.position + 4 + length cs ≤ length b.memory = omega (
      arith,
      length-drop b.position b.memory,
      ap length e,
      length-append (string_bytes cs) rest,
      length-append cs pad,
    ) in
    let got =
      copy_lem b.memory (replicate (length cs) z) (b.position + 4) 0 (length cs) long
        (omega (arith, length-replicate (length cs) z)) in
    let chars : take (length cs) (drop (b.position + 4) b.memory) ≡ cs =
      ap (take (length cs)) s' ∙ take-append cs (pad ++ rest) in
    let b4 : ByteBuffer = record b { position = b.position + 4 } in
    let tail : drop (0 + length cs) (replicate (length cs) z) ≡ [] =
      ap (λ k. drop k (replicate (length cs) z)) (omega arith) ∙ drop-replicate (length cs) z in
    ap (λ q. q >>= λ (w, b). get_chars b n (to_int w)) r
    ∙ ap (get_chars b4 n) (to_int_small (length cs) small)
    ∙ rw (len, got, chars, tail, append-nil)

-- A string of at most 255 characters, none of them zero, that putString puts into a buffer with room
-- for it, is read back by getString from the same place, into an array that has room for it and the
-- terminating zero; both end behind the padding.
pub get_string-put_string :
    (b : ByteBuffer) (cs rest : List ℕ) (n : ℕ)
    → NoZero cs
    → length cs < 0x100
    → length cs ≤ n
    → Fits b (4 + align_up4 (length cs))
    → Returns
        (λ b'. get_string (record b' { position = b.position }) (suc n) ≡ ok (cs, b'))
        (put_string b (cs ++ (0 ∷ rest)))
get_string-put_string b cs rest n nz short fits room =
    let (b', e, w) = put_string-string_bytes b cs rest nz short room in
    let size = length-string_bytes cs in
    let read =
      get_string-string_bytes (record b' { position = b.position }) cs (unread b') n (omega arith)
        fits (drop-Writes (string_bytes cs) (omega (arith, room, size)) w) in
    (
      b',
      e,
      read ∙ ap (λ (p : ℕ). ok (cs, record b' { position = p })) (omega (arith, w.place, size)),
    )
