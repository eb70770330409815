-- ===== src/Buffer/Xfer.antt =====
-- Transfers between buffers: as many bytes as both sides and the maximum allow.
use chabu.Prelude.{
  ℕ, ◌+◌, ◌-◌, ◌≤◌, ◌≡◌, refl, sym, ◌∙◌, ap, List, ◌++◌, arith, length, take, drop, min, true, leb,
  if◌then◌else◌, length-take, length-drop,
}
use chabu.Prelude.Int.{pos, ltb_ℤ}
use chabu.Run.{ok, Returns}
use chabu.Buffer.{ByteBuffer, remaining, min_ℤ, copy, copy_int, xfer_with_max, compact}
use chabu.Buffer.Bytes.{take-append, take-splice, length-splice}
use chabu.Buffer.Write.{Writes}

-- `0 <= position <= limit`, inside the memory.
pub record IsValid (b : ByteBuffer) : Type 0 where
  pub ordered : b.position ≤ b.limit
  pub inside : b.limit ≤ length b.memory

pub remaining_lem : (b : ByteBuffer) → IsValid b → remaining b ≡ pos (b.limit - b.position)
unfolding remaining
remaining_lem b v = ground arith

min_pos : (a b : ℕ) → min_ℤ (pos a) (pos b) ≡ pos (min a b)
unfolding min_ℤ
min_pos a b = ground arith

if_pos_min : (m r : ℕ) → (if ltb_ℤ (pos m) (pos r) then pos m else pos r) ≡ pos (min r m)
if_pos_min m r = ground arith

pub copy_lem :
    (source target : List ℕ) (from to n : ℕ)
    → from + n ≤ length source
    → to + n ≤ length target
    → copy source target from to n
      ≡ ok (take to target ++ (take n (drop from source) ++ drop (to + n) target))
unfolding copy
copy_lem source target from to n h h' =
    let e : leb (from + n) (length source) ≡ true = ground arith in
    let e' : leb (to + n) (length target) ≡ true = ground arith in rw (e, e')

-- The bytes that a transfer of at most `m` moves.
abbrev pub moved : ByteBuffer → ByteBuffer → ℕ → ℕ
moved trg src m = min (min (trg.limit - trg.position) (src.limit - src.position)) m

abbrev pub moved_bytes : ByteBuffer → ByteBuffer → ℕ → List ℕ
moved_bytes trg src m = take (moved trg src m) (drop src.position src.memory)

-- A transfer between valid buffers ends without a fault. It moves as many bytes as the target has
-- room for, the source holds and the maximum allows; they are appended to the target in order, the
-- source moves on by as many, and its bytes stay.
pub xfer_with_max_lem :
    (trg src : ByteBuffer) (m : ℕ)
    → IsValid trg
    → IsValid src
    → Returns
        (λ (n, trg', src').
          (n ≡ moved trg src m)
          × Writes trg (moved_bytes trg src m) trg'
          × (src' ≡ record src { position = src.position + moved trg src m }))
        (xfer_with_max trg src (pos m))
unfolding xfer_with_max copy_int
xfer_with_max_lem trg src m vt vs =
    let n = moved trg src m in
    let from_fits : src.position + n ≤ length src.memory = omega (arith, vs.ordered, vs.inside) in
    let to_fits : trg.position + n ≤ length trg.memory = omega (arith, vt.ordered, vt.inside) in
    let size : length (moved_bytes trg src m) ≡ n = omega (
      arith,
      from_fits,
      length-take n (drop src.position src.memory),
      length-drop src.position src.memory,
    ) in
    (
      (
        n,
        record trg {
          memory =
              take trg.position trg.memory
              ++ (moved_bytes trg src m ++ drop (trg.position + n) trg.memory);
          position = trg.position + n;
        },
        record src { position = src.position + n },
      ),
      rw (
        remaining_lem trg vt,
        remaining_lem src vs,
        min_pos,
        if_pos_min,
        copy_int,
        copy_lem src.memory trg.memory src.position trg.position n from_fits to_fits,
      ),
      (
        refl,
        record {
          place = omega (arith, size);
          content = take-splice trg.position n (moved_bytes trg src m) trg.memory size to_fits;
          room = length-splice trg.position n (moved_bytes trg src m) trg.memory size to_fits;
          same_limit = refl;
          same_capacity = refl;
        },
        refl,
      ),
    )

-- What `compact` leaves: the unread bytes at the front, and room for more up to the capacity.
pub record Compacted (b b' : ByteBuffer) : Type 0 where
  pub place : b'.position ≡ b.limit - b.position
  pub content : take b'.position b'.memory ≡ take (b.limit - b.position) (drop b.position b.memory)
  pub room : length b'.memory ≡ length b.memory
  pub end : b'.limit ≡ b.capacity

-- `compact` of a valid buffer ends without a fault: the unread bytes stand at the front, in order,
-- the position is behind them, the limit is the capacity and the memory keeps its size.
pub compact-Compacted : (b : ByteBuffer) → IsValid b → Returns (Compacted b) (compact b)
unfolding compact copy_int
compact-Compacted b v =
    let n = b.limit - b.position in
    let block = take n (drop b.position b.memory) in
    let size : length block ≡ n = omega (
      arith,
      v.ordered,
      v.inside,
      length-take n (drop b.position b.memory),
      length-drop b.position b.memory,
    ) in
    (
      record b {
        memory = take 0 b.memory ++ (block ++ drop (0 + n) b.memory);
        position = n;
        limit = b.capacity;
      },
      rw (
        remaining_lem b v,
        copy_int,
        copy_lem b.memory b.memory b.position 0 n (omega (arith, v.ordered, v.inside))
            (omega (arith, v.inside)),
      ),
      record {
        place = refl;
        content =
            ap (λ k. take k (block ++ drop (0 + n) b.memory)) (sym size)
            ∙ take-append block (drop (0 + n) b.memory);
        room = length-splice 0 n block b.memory size (omega (arith, v.inside));
        end = refl;
      },
    )
