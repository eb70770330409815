-- ===== src/Buffer/Chain.antt =====
-- Rules for a chain of writes: each step goes on behind the bytes that the chain has written so far.
use chabu.Prelude.{
  ℕ, ◌+◌, ◌≤◌, ◌≡◌, refl, ◌∙◌, ap, List, [], ◌++◌, arith, length, take, replicate, append-nil,
}
use chabu.Run.{Run, ◌>>=◌, Returns}
use chabu.Buffer.{ByteBuffer, clear, flip, put_int_be, put_padding}
use chabu.Buffer.Bytes.{be32}
use chabu.Buffer.Write.{Writes, Puts, Writes-trans, put_int_be_lem, put_padding_lem}

pub Writes-refl : (a : ByteBuffer) → Writes a [] a
Writes-refl a = record {
  place = omega arith;
  content = rw append-nil;
  room = refl;
  same_limit = refl;
  same_capacity = refl;
}

module _ {A : Type 0} {P : A → Type 0} {a b : ByteBuffer} {xs : List ℕ} (w : Writes a xs b) where
  pub put_step :
      {r : Run ByteBuffer} {k : ByteBuffer → Run A} (ys : List ℕ)
      → Puts b ys r
      → ((b' : ByteBuffer) → Writes a (xs ++ ys) b' → Returns P (k b'))
      → Returns P (r >>= k)
  put_step ys (b', e, v) next = let (x, f, p) = next b' (Writes-trans xs ys w v) in (x, rw e f, p)

  pub put_int_step :
      {k : ByteBuffer → Run A} (v : ℕ)
      → a.position + length xs + 4 ≤ length a.memory
      → ((b' : ByteBuffer) → Writes a (xs ++ be32 v) b' → Returns P (k b'))
      → Returns P (put_int_be b v >>= k)
  put_int_step v room next =
      put_step (be32 v) (put_int_be_lem b v (omega (arith, w.place, w.room))) next

  pub put_padding_step :
      {k : ByteBuffer → Run A} (n : ℕ)
      → a.position + length xs + n ≤ length a.memory
      → ((b' : ByteBuffer) → Writes a (xs ++ replicate n 0) b' → Returns P (k b'))
      → Returns P (put_padding b n >>= k)
  put_padding_step n room next =
      put_step (replicate n 0) (put_padding_lem n b (omega (arith, w.place, w.room))) next

-- A buffer that is ready to be read holds exactly the bytes between position and limit.
pub record Holds (b : ByteBuffer) (bytes : List ℕ) : Type 0 where
  pub front : b.position ≡ 0
  pub end : b.limit ≡ length bytes
  pub content : take b.limit b.memory ≡ bytes
  pub within : b.limit ≤ length b.memory

-- What was written into a cleared buffer is what it holds once it is flipped.
pub Holds-flip :
    {a b : ByteBuffer} {bytes : List ℕ}
    → a.position ≡ 0
    → length bytes ≤ length a.memory
    → Writes a bytes b
    → Holds (flip b) bytes × (length (flip b).memory ≡ length a.memory)
unfolding flip
Holds-flip {a} {b} {bytes} z room w = (
  record {
    front = refl;
    end = omega (arith, w.place);
    content = w.content ∙ ap (λ k. take k a.memory ++ bytes) z;
    within = omega (arith, w.place, w.room);
  },
  w.room,
)

pub position-clear : (b : ByteBuffer) → (clear b).position ≡ 0
unfolding clear
position-clear b = refl

pub memory-clear : (b : ByteBuffer) → (clear b).memory ≡ b.memory
unfolding clear
memory-clear b = refl
