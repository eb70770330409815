-- ===== src/Nio/Valid.antt =====
-- Bookkeeping and bulk transfers of a valid buffer.
use native.Mathlib.Decide.{ℕ_discrete}
use chabu.Prelude.{
  ℕ, ◌+◌, ◌-◌, ◌%◌, ◌^◌, ◌<◌, ◌≤◌, ◌≡◌, refl, sym, ◌∙◌, ap, ◌++◌, arith, length, take, drop, lt→ltb,
  not_lt→ltb, eq→==, ne→==, length-take, length-drop,
}
use chabu.Run.{fault, thrown, overflow_error, Returns}
use chabu.Buffer.Bytes.{take-splice, length-splice, take-append}
use chabu.Buffer.Xfer.{copy_lem}
use chabu.Nio.{
  mark_discarded, ByteBuffer, ByteOrder, big_endian, little_endian, remaining, set_mark, set_order,
  clear, rewing, flip, move_down, compact, put_buffer,
}
use chabu.Nio.Round.{IsValid}

pub remaining_lem : (b : ByteBuffer) → IsValid b → remaining b ≡ b.limit - b.position
unfolding remaining
remaining_lem b v = omega (arith, v.ordered, v.inside, v.word)

set_order-IsValid : (b : ByteBuffer) (o : ByteOrder) → IsValid b → IsValid (set_order b o)
unfolding set_order
set_order-IsValid b big_endian v = record {
  ordered = v.ordered;
  inside = v.inside;
  full = v.full;
  word = v.word;
}
set_order-IsValid b little_endian v = record {
  ordered = v.ordered;
  inside = v.inside;
  full = v.full;
  word = v.word;
}

-- `flip`, `clear`, `rewing`, `mark` and `order` keep a buffer valid.
pub bookkeeping-IsValid :
    (b : ByteBuffer) (o : ByteOrder)
    → IsValid b
    → IsValid (flip b)
      × IsValid (clear b)
      × IsValid (rewing b)
      × IsValid (set_mark b)
      × IsValid (set_order b o)
unfolding flip clear rewing set_mark
bookkeeping-IsValid b o v = (
  record {
    ordered = omega arith;
    inside = omega (arith, v.ordered, v.inside);
    full = v.full;
    word = v.word;
  },
  record { ordered = omega arith; inside = omega arith; full = v.full; word = v.word },
  record { ordered = omega arith; inside = v.inside; full = v.full; word = v.word },
  record { ordered = v.ordered; inside = v.inside; full = v.full; word = v.word },
  set_order-IsValid b o v,
)

-- What `compact` leaves: a valid buffer with the unread bytes at the front.
pub record Packed (b b' : ByteBuffer) : Type 0 where
  pub valid : IsValid b'
  pub place : b'.position ≡ b.limit - b.position
  pub content : take b'.position b'.memory ≡ take (b.limit - b.position) (drop b.position b.memory)
  pub end : b'.limit ≡ b.capacity

-- The front of the array after the move, where the code leaves it out too.
move_down_lem :
    (b : ByteBuffer) (n : ℕ)
    → b.position + n ≤ length b.memory
    → Returns
        (λ m. (take n m ≡ take n (drop b.position b.memory)) × (length m ≡ length b.memory))
        (move_down b n)
unfolding move_down
move_down_lem b n h = elim (ℕ_discrete n 0) [
  | yes e ↦ (
    b.memory,
    rw (eq→== n 0 e, move_down),
    (ap (λ k. take k b.memory) e ∙ sym (ap (λ k. take k (drop b.position b.memory)) e), refl),
  )
  | no ne ↦ elim (ℕ_discrete b.position 0) [
    | yes z ↦ (
      b.memory,
      rw (ne→== n 0 ne, eq→== b.position 0 z, move_down),
      (sym (ap (λ k. take n (drop k b.memory)) z), refl),
    )
    | no nz ↦
        let block = take n (drop b.position b.memory) in
        let size : length block ≡ n =
          omega
            (arith, h, length-take n (drop b.position b.memory), length-drop b.position b.memory) in
        (
          take 0 b.memory ++ (block ++ drop (0 + n) b.memory),
          rw (ne→== n 0 ne, ne→== b.position 0 nz, move_down)
              (copy_lem b.memory b.memory b.position 0 n h (omega arith)),
          (
            ap (λ k. take k (block ++ drop (0 + n) b.memory)) (sym size)
                ∙ take-append block (drop (0 + n) b.memory),
            length-splice 0 n block b.memory size (omega arith),
          ),
        )
  ]
]

-- `compact` of a valid buffer ends without a fault: the buffer stays valid, the unread bytes stand at
-- the front in order, the position is behind them and the limit is the capacity.
pub compact-Packed : (b : ByteBuffer) → IsValid b → Returns (Packed b) (compact b)
unfolding compact
compact-Packed b v =
    let n = b.limit - b.position in
    let (m, e, (front, size)) = move_down_lem b n (omega (arith, v.ordered, v.inside, v.full)) in
    (
      record b { memory = m; limit = b.capacity; position = n; mark = mark_discarded },
      rw (remaining_lem b v, e),
      record {
        valid = record {
          ordered = omega (arith, v.inside);
          inside = omega arith;
          full = v.full ∙ sym size;
          word = v.word;
        };
        place = refl;
        content = front;
        end = refl;
      },
    )

-- What a transfer of everything that remains in `src` leaves.
pub record Transferred (b src b' src' : ByteBuffer) : Type 0 where
  pub valid : IsValid b'
  pub source : src' ≡ record src { position = src.limit }
  pub place : b'.position ≡ b.position + (src.limit - src.position)
  pub content :
      take b'.position b'.memory
      ≡ take b.position b.memory ++ take (src.limit - src.position) (drop src.position src.memory)

-- `put` of one valid buffer into another one, on both branches. Where the target has room for all
-- that remains in the source, all of it is appended without a fault, in order, the target stays
-- valid and the source is at its limit. Elsewhere `std::overflow_error` is thrown.
pub put_buffer-Transferred :
    (b src : ByteBuffer)
    → IsValid b
    → IsValid src
    → (src.limit - src.position ≤ b.limit - b.position
        → Returns (λ (b', src'). Transferred b src b' src') (put_buffer b src))
      × (b.limit - b.position < src.limit - src.position
          → put_buffer b src ≡ fault (thrown overflow_error))
unfolding put_buffer
put_buffer-Transferred b src v vs =
    let n = src.limit - src.position in
    let to_fits : n ≤ b.limit - b.position → b.position + n ≤ length b.memory =
      λ h. omega (arith, v.ordered, v.inside, v.full, h) in
    let from_fits : src.position + n ≤ length src.memory =
      omega (arith, vs.ordered, vs.inside, vs.full) in
    let block = take n (drop src.position src.memory) in
    let size : length block ≡ n = omega (
      arith,
      from_fits,
      length-take n (drop src.position src.memory),
      length-drop src.position src.memory,
    ) in
    (
      λ h.
          let place : (b.position + n) % 2 ^ 64 ≡ b.position + n =
            omega (arith, to_fits h, v.full, v.word) in
          let place' : (src.position + n) % 2 ^ 64 ≡ src.limit =
            omega (arith, vs.ordered, vs.inside, vs.word) in
          (
            (
              record b {
                memory = take b.position b.memory ++ (block ++ drop (b.position + n) b.memory);
                position = b.position + n;
              },
              record src { position = src.limit },
            ),
            rw (
              remaining_lem b v,
              remaining_lem src vs,
              not_lt→ltb (b.limit - b.position) n (omega (arith, h)),
              copy_lem src.memory b.memory src.position b.position n from_fits (to_fits h),
              place,
              place',
            ),
            record {
              valid = record {
                ordered = omega (arith, h, v.ordered);
                inside = v.inside;
                full = v.full ∙ sym (length-splice b.position n block b.memory size (to_fits h));
                word = v.word;
              };
              source = refl;
              place = refl;
              content = take-splice b.position n block b.memory size (to_fits h);
            },
          ),
      λ h. rw (remaining_lem b v, remaining_lem src vs, lt→ltb (b.limit - b.position) n h),
    )
