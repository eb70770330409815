-- ===== src/Xmit/Unread.antt =====
-- The unread bytes of a buffer that the network takes byte by byte.
use chabu.Prelude.{
  ℕ, zero, suc, ◌+◌, ◌-◌, ◌<◌, ◌≤◌, ◌≡◌, refl, sym, ◌∙◌, ap, false, ltb, List, [], ◌∷◌, ◌++◌, arith,
  length, take, drop, length-take, length-drop,
}
use chabu.Prelude.Int.{pos, ◌-ℤ◌}
use chabu.Buffer.{ByteBuffer, remaining}
use chabu.Buffer.Bytes.{take-take, drop-drop}
use chabu.Buffer.Xfer.{IsValid}
use chabu.Xmit.Carrier.{unread, Usable}

abbrev no_bytes : List ℕ
no_bytes = []

take-nil : (m : ℕ) → take m (no_bytes) ≡ no_bytes
take-nil zero = refl
take-nil (suc m) = refl

take-sum : (n m : ℕ) (xs : List ℕ) → take (n + m) xs ≡ take n xs ++ take m (drop n xs)
take-sum zero m xs = ap (λ k. take k xs) (omega arith)
take-sum (suc n) m [] = let e : suc n + m ≡ suc (n + m) = omega arith in rw e (sym (take-nil m))
take-sum (suc n) m (x ∷ xs) =
    let e : suc n + m ≡ suc (n + m) = omega arith in rw e (ap (λ l. x ∷ l) (take-sum n m xs))

pub length-take-unread :
    (b : ByteBuffer) (n : ℕ) → IsValid b → n ≤ b.limit - b.position → length (take n (unread b)) ≡ n
length-take-unread b n v h = omega (
  arith,
  v.inside,
  length-take n (unread b),
  length-take (b.limit - b.position) (drop b.position b.memory),
  length-drop b.position b.memory,
)

pub unread-position :
    (b : ByteBuffer) (n : ℕ)
    → n ≤ b.limit - b.position
    → take n (unread b) ++ unread (record b { position = b.position + n }) ≡ unread b
unread-position b n h =
    let from_here = drop b.position b.memory in
    let m = b.limit - (b.position + n) in
    let whole : b.limit - b.position ≡ n + m = omega arith in
    ap (λ k. take n (take k from_here) ++ take m (drop (b.position + n) b.memory)) whole
    ∙ ap (λ l. l ++ take m (drop (b.position + n) b.memory)) (take-take n m from_here)
    ∙ ap (λ l. take n from_here ++ take m l) (sym (drop-drop b.position n b.memory))
    ∙ sym (take-sum n m from_here)
    ∙ ap (λ k. take k from_here) (sym whole)

-- The difference that the loop takes for the number of bytes that went out.
pub taken_lem :
    (b : ByteBuffer) (n : ℕ)
    → IsValid b
    → n ≤ b.limit - b.position
    → remaining b -ℤ remaining (record b { position = b.position + n }) ≡ pos n
unfolding remaining ◌-ℤ◌
taken_lem b n v bound = ground (arith, v.ordered)

abbrev pub at_position : ByteBuffer → ℕ → ByteBuffer
at_position b p = record b { position = p }

-- What is left of a buffer when the network has taken its first bytes, and what is known then.
abbrev pub moved_on : ByteBuffer → ℕ → ByteBuffer
moved_on b n = record b { position = b.position + n }

pub Usable-moved_on :
    (b : ByteBuffer) (n most : ℕ)
    → Usable b most
    → b.position + n < b.limit
    → Usable (moved_on b n) (most - n)
Usable-moved_on b n most u more = record {
  valid = record { ordered = omega arith; inside = u.valid.inside };
  some_bytes = more;
  short = omega (arith, u.short);
}

pub nothing_left :
    (b : ByteBuffer) (n : ℕ) → ltb (b.position + n) b.limit ≡ false → [] ≡ unread (moved_on b n)
nothing_left b n all =
    let none_left : b.limit - (b.position + n) ≡ 0 = ground arith in
    sym (ap (λ k. take k (drop (b.position + n) b.memory)) none_left)
