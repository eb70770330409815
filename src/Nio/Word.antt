-- ===== src/Nio/Word.antt =====
-- The bytes of a number, and how the unrolled code of ByteBuffer.cpp stores and loads them. The
-- code takes the lowest byte and shifts the value down, `data_[ … ] = value; value >>= 8;`, and
-- builds a value by `res <<= 8; res |= data_[ … ];`.
use chabu.Prelude.{
  ℕ, zero, suc, ◌+◌, ◌-◌, ◌*◌, ◌/◌, ◌%◌, ◌^◌, List, [], ◌∷◌, ◌++◌, ltb, leb, if◌then◌else◌, length,
  set,
}
use chabu.Prelude.Int.{ℤ, pos, negsuc}
use chabu.Run.{Run, ok, fault, out_of_bounds, thrown, overflow_error, ◌>>=◌}
use chabu.Buffer.{byte_at}
use chabu.Nio.{ByteBuffer}

-- The `n` lowest bytes of an unsigned value, the lowest first.
unfoldable pub low_bytes : ℕ → ℕ → List ℕ
low_bytes zero v = []
low_bytes (suc n) v = v % 256 ∷ low_bytes n (v / 256)

-- `(uint8_t) value` and `value >>= 8` of a signed value.
abbrev pub low_byte : ℤ → ℕ
low_byte (pos n) = n % 256
low_byte (negsuc n) = 255 - n % 256

abbrev pub shift_down : ℤ → ℤ
shift_down (pos n) = pos (n / 256)
shift_down (negsuc n) = negsuc (n / 256)

-- The `n` lowest bytes of a signed value, the lowest first.
unfoldable pub low_bytes_signed : ℕ → ℤ → List ℕ
low_bytes_signed zero v = []
low_bytes_signed (suc n) v = low_byte v ∷ low_bytes_signed n (shift_down v)

-- `data_[ index ] = v;`
unfoldable pub store : List ℕ → ℕ → ℕ → Run (List ℕ)
store m index v = if ltb index (length m) then ok (set m index v) else fault out_of_bounds

-- Big endian: the lowest byte goes to the highest address, which is stored to first.
unfoldable pub store_down : List ℕ → ℕ → List ℕ → Run (List ℕ)
unfolding store
store_down [] at m = ok m
store_down (x ∷ xs) at m = store m ((at + length xs) % 2 ^ 64) x >>= λ m. store_down xs at m

-- Little endian: the lowest byte goes to the lowest address, which is stored to first.
unfoldable pub store_up : List ℕ → ℕ → List ℕ → Run (List ℕ)
unfolding store
store_up [] at m = ok m
store_up (x ∷ xs) at m = store m (at % 2 ^ 64) x >>= λ m. store_up xs (at + 1) m

-- The bytes at the `n` addresses from `at` on, read upwards.
unfoldable pub fetch_up : ℕ → ℕ → List ℕ → Run (List ℕ)
unfolding byte_at
fetch_up zero at m = ok []
fetch_up (suc n) at m = do
  xs ← fetch_up n at m
  x ← byte_at m ((at + n) % 2 ^ 64)
  ok (xs ++ (x ∷ []))

-- The same bytes, read downwards.
unfoldable pub fetch_down : ℕ → ℕ → List ℕ → Run (List ℕ)
unfolding byte_at
fetch_down zero at m = ok []
fetch_down (suc n) at m = do
  xs ← fetch_down n (at + 1) m
  x ← byte_at m (at % 2 ^ 64)
  ok (xs ++ (x ∷ []))

-- `res <<= 8; res |= x;` for each byte; the sum is at most the width of `res`.
unfoldable pub joined : List ℕ → ℕ → ℕ
joined [] res = res
joined (x ∷ xs) res = joined xs (res * 256 + x)

-- `if( index + last >= limit_ ) throw …`
abbrev pub guarded {ℓ} : {A : Type ℓ} → ByteBuffer → (index last : ℕ) → Run A → Run A
guarded b index last r =
    if leb b.limit ((index + last) % 2 ^ 64) then fault (thrown overflow_error) else r

-- The bytes of a value are stored at an index, in the order that the buffer has.
unfoldable pub put_at : ByteBuffer → ℕ → List ℕ → Run ByteBuffer
unfolding store_down store_up
put_at b index bytes = guarded b index (length bytes - 1) (do
  m ← (if b.order_be then store_down bytes index b.memory else store_up bytes index b.memory)
  ok (record b { memory = m }))

-- … and at the position, which moves on.
unfoldable pub put : ByteBuffer → List ℕ → Run ByteBuffer
unfolding put_at
put b bytes = do
  b ← put_at b b.position bytes
  ok (record b { position = (b.position + length bytes) % 2 ^ 64 })

-- The value of the `n` bytes at an index.
unfoldable pub get_at : ByteBuffer → (n index : ℕ) → Run ℕ
unfolding fetch_up fetch_down joined
get_at b n index = guarded b index (n - 1) (do
  xs ← (if b.order_be then fetch_up n index b.memory else fetch_down n index b.memory)
  ok (joined xs 0))

-- … and at the position, which moves on.
unfoldable pub get : ByteBuffer → (n : ℕ) → Run (ℕ × ByteBuffer)
unfolding get_at
get b n = do v ← get_at b n b.position; ok (v, record b { position = (b.position + n) % 2 ^ 64 })

-- The signed value of a pattern of `n` bytes, of which there are `words n`.
unfoldable pub words : ℕ → ℕ
words zero = 1
words (suc n) = 256 * words n

unfoldable pub to_signed : ℕ → ℕ → ℤ
unfolding words
to_signed n v = if ltb v (words n / 2) then pos v else negsuc (words n - 1 - v)
