-- ===== src/Nio/Number.antt =====
-- The methods of ByteBuffer.cpp for numbers: at the position, and at an index (`…_at`). The unsigned
-- methods of the source have a `U` in their names.
use chabu.Prelude.{ℕ, ◌+◌, ◌%◌, ◌^◌, [], ◌∷◌, if◌then◌else◌}
use chabu.Prelude.Int.{ℤ}
use chabu.Run.{Run, ok, ◌>>=◌}
use chabu.Nio.{ByteBuffer}
use chabu.Nio.Word.{
  low_byte, low_bytes, low_bytes_signed, put_at, put, get_at, get, guarded, store, to_signed,
}

unfoldable pub put_u : ByteBuffer → ℕ → Run ByteBuffer
unfolding put
put_u b value = put b (value % 256 ∷ [])

unfoldable pub put_byte : ByteBuffer → ℤ → Run ByteBuffer
unfolding put
put_byte b value = put b (low_byte value ∷ [])

unfoldable pub put_u_at : ByteBuffer → ℕ → ℕ → Run ByteBuffer
unfolding put_at
put_u_at b index value = put_at b index (value % 256 ∷ [])

unfoldable pub put_byte_at : ByteBuffer → ℕ → ℤ → Run ByteBuffer
unfolding put_at
put_byte_at b index value = put_at b index (low_byte value ∷ [])

unfoldable pub put_u_short : ByteBuffer → ℕ → Run ByteBuffer
unfolding put low_bytes
put_u_short b value = put b (low_bytes 2 value)

unfoldable pub put_u_short_at : ByteBuffer → ℕ → ℕ → Run ByteBuffer
unfolding put_at low_bytes
put_u_short_at b index value = put_at b index (low_bytes 2 value)

-- With the little endian order the low byte goes to both addresses: the value is shifted after the
-- second assignment.
unfoldable pub put_short : ByteBuffer → ℤ → Run ByteBuffer
unfolding put low_bytes_signed store
put_short b value =
    if b.order_be
    then put b (low_bytes_signed 2 value)
    else guarded b b.position 1 (do
      m ← store b.memory ((b.position + 1) % 2 ^ 64) (low_byte value)
      m ← store m b.position (low_byte value)
      ok (record b { memory = m; position = (b.position + 2) % 2 ^ 64 }))

unfoldable pub put_short_at : ByteBuffer → ℕ → ℤ → Run ByteBuffer
unfolding put_at low_bytes_signed
put_short_at b index value = put_at b index (low_bytes_signed 2 value)

unfoldable pub put_u_int : ByteBuffer → ℕ → Run ByteBuffer
unfolding put low_bytes
put_u_int b value = put b (low_bytes 4 value)

unfoldable pub put_u_int_at : ByteBuffer → ℕ → ℕ → Run ByteBuffer
unfolding put_at low_bytes
put_u_int_at b index value = put_at b index (low_bytes 4 value)

unfoldable pub put_int : ByteBuffer → ℤ → Run ByteBuffer
unfolding put low_bytes_signed
put_int b value = put b (low_bytes_signed 4 value)

unfoldable pub put_int_at : ByteBuffer → ℕ → ℤ → Run ByteBuffer
unfolding put_at low_bytes_signed
put_int_at b index value = put_at b index (low_bytes_signed 4 value)

unfoldable pub put_u_long : ByteBuffer → ℕ → Run ByteBuffer
unfolding put low_bytes
put_u_long b value = put b (low_bytes 8 value)

unfoldable pub put_u_long_at : ByteBuffer → ℕ → ℕ → Run ByteBuffer
unfolding put_at low_bytes
put_u_long_at b index value = put_at b index (low_bytes 8 value)

unfoldable pub put_long : ByteBuffer → ℤ → Run ByteBuffer
unfolding put low_bytes_signed
put_long b value = put b (low_bytes_signed 8 value)

unfoldable pub put_long_at : ByteBuffer → ℕ → ℤ → Run ByteBuffer
unfolding put_at low_bytes_signed
put_long_at b index value = put_at b index (low_bytes_signed 8 value)

unfoldable pub get_byte : ByteBuffer → Run (ℤ × ByteBuffer)
unfolding get to_signed
get_byte b = do (v, b) ← get b 1; ok (to_signed 1 v, b)

unfoldable pub get_byte_at : ByteBuffer → ℕ → Run ℤ
unfolding get_at to_signed
get_byte_at b index = do v ← get_at b 1 index; ok (to_signed 1 v)

unfoldable pub get_u : ByteBuffer → Run (ℕ × ByteBuffer)
unfolding get
get_u b = get b 1

unfoldable pub get_u_at : ByteBuffer → ℕ → Run ℕ
unfolding get_at
get_u_at b index = get_at b 1 index

unfoldable pub get_u_short : ByteBuffer → Run (ℕ × ByteBuffer)
unfolding get
get_u_short b = get b 2

unfoldable pub get_u_short_at : ByteBuffer → ℕ → Run ℕ
unfolding get_at
get_u_short_at b index = get_at b 2 index

unfoldable pub get_short : ByteBuffer → Run (ℤ × ByteBuffer)
unfolding get to_signed
get_short b = do (v, b) ← get b 2; ok (to_signed 2 v, b)

unfoldable pub get_short_at : ByteBuffer → ℕ → Run ℤ
unfolding get_at to_signed
get_short_at b index = do v ← get_at b 2 index; ok (to_signed 2 v)

unfoldable pub get_u_int : ByteBuffer → Run (ℕ × ByteBuffer)
unfolding get
get_u_int b = get b 4

unfoldable pub get_u_int_at : ByteBuffer → ℕ → Run ℕ
unfolding get_at
get_u_int_at b index = get_at b 4 index

unfoldable pub get_int : ByteBuffer → Run (ℤ × ByteBuffer)
unfolding get to_signed
get_int b = do (v, b) ← get b 4; ok (to_signed 4 v, b)

unfoldable pub get_int_at : ByteBuffer → ℕ → Run ℤ
unfolding get_at to_signed
get_int_at b index = do v ← get_at b 4 index; ok (to_signed 4 v)

unfoldable pub get_u_long : ByteBuffer → Run (ℕ × ByteBuffer)
unfolding get
get_u_long b = get b 8

unfoldable pub get_u_long_at : ByteBuffer → ℕ → Run ℕ
unfolding get_at
get_u_long_at b index = get_at b 8 index

unfoldable pub get_long : ByteBuffer → Run (ℤ × ByteBuffer)
unfolding get to_signed
get_long b = do (v, b) ← get b 8; ok (to_signed 8 v, b)

unfoldable pub get_long_at : ByteBuffer → ℕ → Run ℤ
unfolding get_at to_signed
get_long_at b index = do v ← get_at b 8 index; ok (to_signed 8 v)
