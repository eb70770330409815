-- ===== src/Buffer.antt =====
-- The byte buffer of c/org.chabu/include/Chabu.h and c/org.chabu/src/ChabuByteBuffer.c.
-- `memory` is the array behind the pointer `data`. An access outside of it is a fault.
-- An `int` value is written as its 32-bit pattern, a number below 2 ^ 32, where it goes to or
-- comes from the buffer, and as an integer where the code computes with its sign.
pub mod Bytes
pub mod Write
pub mod Read
pub mod Chain
pub mod Xfer
pub mod Text
use chabu.Prelude.{
  ℕ, zero, suc, ◌+◌, ◌-◌, ◌*◌, ◌/◌, ◌%◌, ◌^◌, Bool, none, some, List, ◌++◌, ltb, leb, ◌&&◌,
  if◌then◌else◌, length, get_elem?, set, take, drop, min, replicate,
}
use chabu.Prelude.Int.{ℤ, pos, negsuc, sub_ℕ, ltb_ℤ}
use chabu.Common.{strnlen}
use chabu.Run.{Run, ok, fault, out_of_bounds, ◌>>=◌}

-- `struct Chabu_ByteBuffer_Data`
pub record ByteBuffer : Type 0 where
  pub position : ℕ
  pub limit : ℕ
  pub capacity : ℕ
  pub memory : List ℕ

-- `Common_AlignUp4`
unfoldable pub align_up4 : ℕ → ℕ
align_up4 v = (v + 3) / 4 * 4

-- The value of a 32-bit pattern as a C `int`, and back.
unfoldable pub to_int : ℕ → ℤ
to_int w = if ltb w (2 ^ 31) then pos w else negsuc (2 ^ 32 - 1 - w)

unfoldable pub of_int : ℤ → ℕ
of_int (pos n) = n % 2 ^ 32
of_int (negsuc n) = 2 ^ 32 - 1 - n % 2 ^ 32

unfoldable pub init : List ℕ → ℕ → ByteBuffer
init memory size = record { position = 0; limit = size; capacity = size; memory = memory }

unfoldable pub clear : ByteBuffer → ByteBuffer
clear b = record b { limit = b.capacity; position = 0 }

unfoldable pub flip : ByteBuffer → ByteBuffer
flip b = record b { limit = b.position; position = 0 }

unfoldable pub has_remaining : ByteBuffer → Bool
has_remaining b = ltb b.position b.limit

unfoldable pub remaining : ByteBuffer → ℤ
remaining b = sub_ℕ b.limit b.position

unfoldable pub put_byte : ByteBuffer → ℕ → Run ByteBuffer
put_byte b value =
    if ltb b.position (length b.memory)
    then ok (record b { memory = set b.memory b.position (value % 256); position = b.position + 1 })
    else fault out_of_bounds

unfoldable pub put_padding : ByteBuffer → ℕ → Run ByteBuffer
put_padding b zero = ok b
put_padding b (suc count) = put_byte b 0 >>= λ b. put_padding b count

unfoldable pub put_int_be : ByteBuffer → ℕ → Run ByteBuffer
put_int_be b value = do
  b ← put_byte b (value / 2 ^ 24)
  b ← put_byte b (value / 2 ^ 16)
  b ← put_byte b (value / 2 ^ 8)
  put_byte b value

unfoldable pub byte_at : List ℕ → ℕ → Run ℕ
byte_at memory i = elim (get_elem? memory i) [ none ↦ fault out_of_bounds | some v ↦ ok v ]

unfoldable pub get : ByteBuffer → Run (ℕ × ByteBuffer)
get b = do v ← byte_at b.memory b.position; ok (v, record b { position = b.position + 1 })

unfoldable pub get_int_at_be : ByteBuffer → ℕ → Run ℕ
unfolding byte_at
get_int_at_be b i = do
  b0 ← byte_at b.memory i
  b1 ← byte_at b.memory (i + 1)
  b2 ← byte_at b.memory (i + 2)
  b3 ← byte_at b.memory (i + 3)
  ok (((b0 * 256 + b1) * 256 + b2) * 256 + b3)

unfoldable pub get_int_be : ByteBuffer → Run (ℕ × ByteBuffer)
unfolding get_int_at_be
get_int_be b = do v ← get_int_at_be b b.position; ok (v, record b { position = b.position + 4 })

-- `memcpy` of `n` bytes out of one array into another.
unfoldable pub copy : (source target : List ℕ) → (from to n : ℕ) → Run (List ℕ)
copy source target from to n =
    if leb (from + n) (length source) && leb (to + n) (length target)
    then ok (take to target ++ (take n (drop from source) ++ drop (to + n) target))
    else fault out_of_bounds

-- A negative count is a huge `size_t` for `memcpy`.
unfoldable pub copy_int : (source target : List ℕ) → (from to : ℕ) → ℤ → Run (List ℕ × ℕ)
unfolding copy
copy_int source target from to (pos n) = do m ← copy source target from to n; ok (m, n)
copy_int source target from to (negsuc n) = fault out_of_bounds

unfoldable pub min_ℤ : ℤ → ℤ → ℤ
min_ℤ a b = if ltb_ℤ a b then a else b

-- The result is the number of bytes, the target and the source.
unfoldable pub xfer_with_max : (trg src : ByteBuffer) → ℤ → Run (ℕ × ByteBuffer × ByteBuffer)
unfolding copy_int remaining min_ℤ
xfer_with_max trg src max_length =
    let rem = min_ℤ (remaining trg) (remaining src) in
    let rem' = if ltb_ℤ max_length rem then max_length else rem in
    do
      (m, n) ← copy_int src.memory trg.memory src.position trg.position rem'
      ok (
        n,
        record trg { memory = m; position = trg.position + n },
        record src { position = src.position + n },
      )

abbrev int_max : ℕ
int_max = 2 ^ 31 - 1

unfoldable pub xfer_all_possible : (trg src : ByteBuffer) → Run (ℕ × ByteBuffer × ByteBuffer)
unfolding xfer_with_max
xfer_all_possible trg src = xfer_with_max trg src (pos int_max)

-- `appendPadding( data, Common_AlignUp4(length)-length )`; a negative length has failed in the
-- transfer before.
unfoldable pub put_string_from_buffer :
    (b string_buffer : ByteBuffer) → Run (ByteBuffer × ByteBuffer)
unfolding put_int_be xfer_all_possible put_padding align_up4 of_int
put_string_from_buffer b string_buffer =
    let len = remaining string_buffer in
    do
      b ← put_int_be b (of_int len)
      (_, b, string_buffer) ← xfer_all_possible b string_buffer
      b ← elim len [ pos n ↦ put_padding b (align_up4 n - n) | negsuc _ ↦ fault out_of_bounds ]
      ok (b, string_buffer)

unfoldable pub compact : ByteBuffer → Run ByteBuffer
unfolding copy_int remaining
compact b = do
  (m, n) ← copy_int b.memory b.memory b.position 0 (remaining b)
  ok (record b { memory = m; position = n; limit = b.capacity })

-- What `getString` does behind the length: `max_length` characters fit.
unfoldable pub get_chars : ByteBuffer → (max_length : ℕ) → ℤ → Run (List ℕ × ByteBuffer)
unfolding copy align_up4
get_chars b max_length (negsuc _) = fault out_of_bounds
get_chars b max_length (pos size) = do
  s ← copy b.memory (replicate (min size max_length) 0) b.position 0 (min size max_length)
  ok (s, record b { position = b.position + align_up4 size })

-- The result is the characters that are stored before the terminating zero (their number is what
-- the function returns) and the buffer. A negative size, or no room at all, puts the terminator in
-- front of the caller's array.
unfoldable pub get_string : ByteBuffer → ℕ → Run (List ℕ × ByteBuffer)
unfolding get_int_be to_int get_chars
get_string b zero = fault out_of_bounds
get_string b (suc max_length) = do (w, b) ← get_int_be b; get_chars b max_length (to_int w)

unfoldable pub put_string : ByteBuffer → List ℕ → Run ByteBuffer
unfolding strnlen put_int_be copy put_padding align_up4
put_string b value = do
  len ← strnlen (some value) 0x100
  b ← put_int_be b len
  m ← copy value b.memory 0 b.position len
  put_padding (record b { memory = m; position = b.position + len }) (align_up4 len - len)
