-- ===== src/Tests/NodeBuffer.antt =====
-- Runs of the node's buffer: c/org.chabu.node/src/java/nio.
use chabu.Prelude.{ℕ, ◌+◌, ◌-◌, ◌^◌, ◌<◌, ◌≤◌, ◌≡◌, refl, true, false, List, [], ◌∷◌, arith}
use chabu.Prelude.Int.{negsuc}
use chabu.Run.{ok, fault, out_of_bounds, thrown, overflow_error, Returns}
use chabu.Buffer.{get_int_at_be}
use chabu.Nio.{ByteBuffer, mark_discarded, put_buffer}
use chabu.Nio.Word.{low_bytes, words, put}
use chabu.Nio.Number.{
  put_u_int_at, put_short_at, put_int_at, put_long_at, get_short_at, get_int_at, get_long_at,
  get_u_int_at,
}
use chabu.Nio.Round.{IsValid, Put, put-Put}
use chabu.Nio.Signed.{Fits, get_int_at-put_int_at}
use chabu.Nio.Valid.{Transferred, put_buffer-Transferred}
use chabu.Nio.Wire.{get_u_int_at-get_int_at_be}
use chabu.Nio.Flaws.{put_u_int_at-out_of_bounds}
use chabu.Tests.Sample.{holding}

abbrev sample_bytes : List ℕ
sample_bytes = 1 ∷ 2 ∷ 3 ∷ 4 ∷ 5 ∷ 6 ∷ 7 ∷ 8 ∷ 9 ∷ 10 ∷ []

-- Two bytes are read, and the limit is the end of the array.
abbrev part_read : ByteBuffer
part_read = record {
  memory = sample_bytes;
  position = 2;
  limit = 10;
  capacity = 10;
  mark = mark_discarded;
  order_be = true;
}

abbrev little : ByteBuffer
little = record part_read { order_be = false }

abbrev target : ByteBuffer
target = record part_read { position = 0 }

part_read-IsValid : IsValid part_read
part_read-IsValid = record {
  ordered = omega arith;
  inside = omega arith;
  full = refl;
  word = omega arith;
}

little-IsValid : IsValid little
little-IsValid = record {
  ordered = omega arith;
  inside = omega arith;
  full = refl;
  word = omega arith;
}

target-IsValid : IsValid target
target-IsValid = record {
  ordered = omega arith;
  inside = omega arith;
  full = refl;
  word = omega arith;
}

put-Put_example :
    (2 + 4 ≤ 10 → Returns (Put part_read 4 77777) (put part_read (low_bytes 4 77777)))
    × (10 < 2 + 4 → put part_read (low_bytes 4 77777) ≡ fault (thrown overflow_error))
unfolding words
put-Put_example =
    put-Put part_read 4 77777 part_read-IsValid (omega arith) (omega arith) (omega arith)

get_int_at-put_int_at_example :
    (Fits 2 (negsuc 6)
      → 1 + 2 ≤ 10
      → Returns (λ b'. get_short_at b' 1 ≡ ok (negsuc 6)) (put_short_at part_read 1 (negsuc 6)))
    × (Fits 4 (negsuc 6)
        → 1 + 4 ≤ 10
        → Returns (λ b'. get_int_at b' 1 ≡ ok (negsuc 6)) (put_int_at part_read 1 (negsuc 6)))
    × (Fits 8 (negsuc 6)
        → 1 + 8 ≤ 10
        → Returns (λ b'. get_long_at b' 1 ≡ ok (negsuc 6)) (put_long_at part_read 1 (negsuc 6)))
get_int_at-put_int_at_example = get_int_at-put_int_at part_read 1 (negsuc 6) part_read-IsValid

put_buffer-Transferred_example :
    (10 - 2 ≤ 10 - 0
      → Returns (λ (b', src'). Transferred target part_read b' src') (put_buffer target part_read))
    × (10 - 0 < 10 - 2 → put_buffer target part_read ≡ fault (thrown overflow_error))
put_buffer-Transferred_example =
    put_buffer-Transferred target part_read target-IsValid part_read-IsValid

get_u_int_at-get_int_at_be_example :
    get_u_int_at part_read 3 ≡ get_int_at_be (holding sample_bytes) 3
get_u_int_at-get_int_at_be_example =
    get_u_int_at-get_int_at_be part_read (holding sample_bytes) 3 refl refl (omega arith)
      (omega arith)

put_u_int_at-out_of_bounds_example : put_u_int_at part_read (2 ^ 64 - 1) 77777 ≡ fault out_of_bounds
put_u_int_at-out_of_bounds_example =
    put_u_int_at-out_of_bounds part_read 77777 part_read-IsValid (omega arith)
