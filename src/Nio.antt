-- ===== src/Nio.antt =====
-- c/org.chabu.node/src/java/nio: the byte buffer of the C++ node, after the one of Java. `memory` is
-- the array behind `data_`. A `size_t` is a number below 2 ^ 64, and its sums wrap. Positions and
-- limits may be set to anything; an access outside of the array is a fault.
pub mod Word
pub mod Number
pub mod Store
pub mod Valid
pub mod Round
pub mod Signed
pub mod Wire
pub mod Flaws
use chabu.Prelude.{
  ℕ, ◌+◌, ◌-◌, ◌%◌, ◌^◌, Bool, true, false, List, ltb, leb, ◌==◌, ◌||◌, if◌then◌else◌, length, set,
}
use chabu.Run.{
  Run, ok, fault, out_of_bounds, thrown, overflow_error, out_of_range, runtime_error, ◌>>=◌,
}
use chabu.Buffer.{copy}

pub data ByteOrder : Type 0 where
  little_endian big_endian : ByteOrder

-- `class ByteBuffer`; `order_be` is the field `orderBe_`.
pub record ByteBuffer : Type 0 where
  pub memory : List ℕ
  pub position : ℕ
  pub limit : ℕ
  pub capacity : ℕ
  pub mark : ℕ
  pub order_be : Bool

-- `std::numeric_limits<std::size_t>::max()`
abbrev pub mark_discarded : ℕ
mark_discarded = 2 ^ 64 - 1

-- The constructor; the limit is 0.
unfoldable pub create : List ℕ → (size : ℕ) → ByteBuffer
create memory size = record {
  memory = memory;
  position = 0;
  limit = 0;
  capacity = size;
  mark = mark_discarded;
  order_be = true;
}

unfoldable pub position_increase : ByteBuffer → ℕ → ByteBuffer
position_increase b increment = record b { position = (b.position + increment) % 2 ^ 64 }

unfoldable pub set_position : ByteBuffer → ℕ → ByteBuffer
set_position b new_position = record b { position = new_position }

unfoldable pub set_limit : ByteBuffer → ℕ → ByteBuffer
set_limit b new_limit = record b { limit = new_limit }

unfoldable pub has_remaining : ByteBuffer → Bool
has_remaining b = ltb b.position b.limit

unfoldable pub remaining : ByteBuffer → ℕ
remaining b = (b.limit + 2 ^ 64 - b.position) % 2 ^ 64

unfoldable pub order : ByteBuffer → ByteOrder
order b = if b.order_be then big_endian else little_endian

unfoldable pub set_order : ByteBuffer → ByteOrder → ByteBuffer
set_order b big_endian = record b { order_be = true }
set_order b little_endian = record b { order_be = false }

unfoldable pub set_mark : ByteBuffer → ByteBuffer
set_mark b = record b { mark = b.position }

-- `reset`: it is the mark that the code assigns.
unfoldable pub reset_mark : ByteBuffer → Run ByteBuffer
reset_mark b =
    if b.mark == mark_discarded
    then fault (thrown runtime_error)
    else ok (record b { mark = b.position })

unfoldable pub clear : ByteBuffer → ByteBuffer
clear b = record b { mark = mark_discarded; position = 0; limit = b.capacity }

-- `rewing`, as the source spells it.
unfoldable pub rewing : ByteBuffer → ByteBuffer
rewing b = record b { mark = mark_discarded; position = 0 }

unfoldable pub flip : ByteBuffer → ByteBuffer
flip b = record b { limit = b.position; position = 0; mark = mark_discarded }

-- `if( sz && position_ ) std::memmove( data_, data_ + position_, sz );`
move_down : ByteBuffer → ℕ → Run (List ℕ)
unfolding copy
move_down b sz =
    if sz == 0 || b.position == 0 then ok b.memory else copy b.memory b.memory b.position 0 sz

unfoldable pub compact : ByteBuffer → Run ByteBuffer
unfolding remaining move_down
compact b = do
  let sz = remaining b
  m ← move_down b sz
  ok (record b { memory = m; limit = b.capacity; position = sz; mark = mark_discarded })

-- `put( const void* value, std::size_t offset, std::size_t length )`, with what `value` points to.
unfoldable pub put_bytes : ByteBuffer → (value : List ℕ) → (offset len : ℕ) → Run ByteBuffer
unfolding remaining copy
put_bytes b value offset len =
    if ltb len offset
    then fault (thrown out_of_range)
    else if ltb (remaining b) len
    then fault (thrown overflow_error)
    else (do
      m ← copy value b.memory offset b.position len
      ok (record b { memory = m; position = (b.position + len) % 2 ^ 64 }))

-- `put( ByteBuffer& src )`, for another buffer. The result is both buffers.
unfoldable pub put_buffer : (b src : ByteBuffer) → Run (ByteBuffer × ByteBuffer)
unfolding remaining copy
put_buffer b src =
    let n = remaining src in
    if ltb (remaining b) n then fault (thrown overflow_error) else (do
      m ← copy src.memory b.memory src.position b.position n
      ok (
        record b { memory = m; position = (b.position + n) % 2 ^ 64 },
        record src { position = (src.position + n) % 2 ^ 64 },
      ))
