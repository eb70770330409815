-- ===== src/Nio/Round.antt =====
-- Numbers that are put into a valid buffer are got back, and what happens where there is no room.
use mathlib.Core.Path.{subst}
use chabu.Prelude.{
  ℕ, ◌+◌, ◌-◌, ◌%◌, ◌^◌, ◌<◌, ◌≤◌, ◌≡◌, refl, sym, ◌∙◌, ap, Bool, true, false, List, arith, length,
  leb, if◌then◌else◌,
}
use chabu.Run.{ok, fault, thrown, overflow_error, ◌>>=◌, Returns}
use chabu.Nio.{ByteBuffer}
use chabu.Nio.Word.{
  low_bytes, words, joined, store_down, store_up, fetch_up, fetch_down, put_at, put, get_at, get,
}
use chabu.Nio.Store.{
  Down, Up, Kept, store_down_lem, store_up_lem, fetch_up_lem, fetch_down_lem, reversed,
  joined-low_bytes, length-low_bytes,
}

-- `position <= limit <= capacity`, the size of the array; an array is smaller than 2 ^ 63.
pub record IsValid (b : ByteBuffer) : Type 0 where
  pub ordered : b.position ≤ b.limit
  pub inside : b.limit ≤ b.capacity
  pub full : b.capacity ≡ length b.memory
  pub word : b.capacity < 2 ^ 63

-- The bytes of a value stand at `at`, in the given order.
abbrev pub Placed : Bool → List ℕ → ℕ → List ℕ → Type 0
Placed true bytes at m = Down bytes at m
Placed false bytes at m = Up bytes at m

-- What a put at an index leaves.
pub record PutAt (b : ByteBuffer) (index : ℕ) (bytes : List ℕ) (b' : ByteBuffer) : Type 0 where
  pub placed : Placed b.order_be bytes index b'.memory
  pub kept : Kept index (length bytes) b.memory b'.memory
  pub rest : b' ≡ record b { memory = b'.memory }

pub leb-false : (a b : ℕ) → b < a → leb a b ≡ false
leb-false a b h = ground arith

pub leb-true : (a b : ℕ) → a ≤ b → leb a b ≡ true
leb-true a b h = ground arith

store_lem :
    (be : Bool) (bytes : List ℕ) (index : ℕ) (m : List ℕ)
    → index + length bytes ≤ length m
    → length m < 2 ^ 64
    → Returns
        (λ m'. Placed be bytes index m' × Kept index (length bytes) m m')
        (if be then store_down bytes index m else store_up bytes index m)
store_lem true = store_down_lem
store_lem false = store_up_lem

pub put_at-PutAt :
    (b : ByteBuffer) (index : ℕ) (bytes : List ℕ)
    → IsValid b
    → 0 < length bytes
    → index + length bytes ≤ b.limit
    → Returns (PutAt b index bytes) (put_at b index bytes)
unfolding put_at
put_at-PutAt b index bytes v some_bytes room =
    let (m, e, (placed, kept)) =
      store_lem b.order_be bytes index b.memory (omega (arith, v.inside, v.full))
        (omega (arith, v.full, v.word)) in
    let free : leb b.limit ((index + (length bytes - 1)) % 2 ^ 64) ≡ false =
      leb-false b.limit _ (omega (arith, v.inside, v.word)) in
    (record b { memory = m }, rw (free, e), record { placed = placed; kept = kept; rest = refl })

fetch_lem :
    (be : Bool) (bytes : List ℕ) (index : ℕ) (m : List ℕ)
    → index + length bytes < 2 ^ 64
    → Placed be bytes index m
    → (if be then fetch_up (length bytes) index m else fetch_down (length bytes) index m)
      ≡ ok (reversed bytes)
fetch_lem true = fetch_up_lem
fetch_lem false = fetch_down_lem

pub get_at-Placed :
    (b : ByteBuffer) (index : ℕ) (bytes : List ℕ)
    → b.limit < 2 ^ 64
    → 0 < length bytes
    → index + length bytes ≤ b.limit
    → Placed b.order_be bytes index b.memory
    → get_at b (length bytes) index ≡ ok (joined (reversed bytes) 0)
unfolding get_at
get_at-Placed b index bytes word some_bytes room placed =
    let free : leb b.limit ((index + (length bytes - 1)) % 2 ^ 64) ≡ false =
      leb-false b.limit _ (omega arith) in
    rw (free, get_at)
      (ap (λ r. r >>= λ xs. ok (joined xs 0))
        (fetch_lem b.order_be bytes index b.memory (omega arith) placed))

-- A value below 256 ^ `n` that is put at an index of a valid buffer, with room for its `n` bytes in
-- front of the limit, is got back from there, in either byte order. No byte outside of them changes,
-- and of the buffer only the memory.
pub get_at-put_at :
    (b : ByteBuffer) (n index value : ℕ)
    → IsValid b
    → 0 < n
    → value < words n
    → index + n ≤ b.limit
    → Returns
        (λ b'.
          (get_at b' n index ≡ ok value)
          × Kept index n b.memory b'.memory
          × (b' ≡ record b { memory = b'.memory }))
        (put_at b index (low_bytes n value))
get_at-put_at b n index value v some_bytes small room =
    let bytes = low_bytes n value in
    let len : length bytes ≡ n = length-low_bytes n value in
    let (b', e, p) = put_at-PutAt b index bytes v (omega (arith, len)) (omega (arith, len)) in
    let lim : b'.limit ≡ b.limit = ap (λ (x : ByteBuffer). x.limit) p.rest in
    let be : b'.order_be ≡ b.order_be = ap (λ (x : ByteBuffer). x.order_be) p.rest in
    let got =
      get_at-Placed b' index bytes (omega (arith, lim, v.inside, v.word)) (omega (arith, len))
        (omega (arith, len, lim)) (subst (λ o. Placed o bytes index b'.memory) (sym be) p.placed) in
    (
      b',
      e,
      (
        ap (λ k. get_at b' k index) (sym len) ∙ got ∙ ap ok (joined-low_bytes n value small),
        subst (λ k. Kept index k b.memory b'.memory) len p.kept,
        p.rest,
      ),
    )

get_at-position :
    (b : ByteBuffer) (p n index : ℕ) → get_at (record b { position = p }) n index ≡ get_at b n index
unfolding get_at
get_at-position b p n index = refl

-- What a put at the position leaves: the buffer is valid again, and moved on.
pub record Put (b : ByteBuffer) (n value : ℕ) (b' : ByteBuffer) : Type 0 where
  pub valid : IsValid b'
  pub moved : b'.position ≡ b.position + n
  pub read_back : get (record b' { position = b.position }) n ≡ ok (value, b')
  pub kept : Kept b.position n b.memory b'.memory

-- A value below 256 ^ `n` is put at the position of a valid buffer on every branch as follows. Where
-- `n` bytes remain it is put without a fault, the buffer stays valid and moves on by `n` bytes, and a
-- get from the old position gives the value and ends at the new one; no byte outside changes. Where
-- fewer bytes remain `std::overflow_error` is thrown.
pub put-Put :
    (b : ByteBuffer) (n value : ℕ)
    → IsValid b
    → 0 < n
    → n < 2 ^ 32
    → value < words n
    → (b.position + n ≤ b.limit → Returns (Put b n value) (put b (low_bytes n value)))
      × (b.limit < b.position + n → put b (low_bytes n value) ≡ fault (thrown overflow_error))
unfolding put get
put-Put b n value v some_bytes short small = (
  λ room.
      let (b1, e, (got, kept, rest)) = get_at-put_at b n b.position value v some_bytes small room in
      let p1 : b1.position ≡ b.position = ap (λ (x : ByteBuffer). x.position) rest in
      let lim : b1.limit ≡ b.limit = ap (λ (x : ByteBuffer). x.limit) rest in
      let cap : b1.capacity ≡ b.capacity = ap (λ (x : ByteBuffer). x.capacity) rest in
      let b' : ByteBuffer = record b1 {
        position = (b.position + length (low_bytes n value)) % 2 ^ 64;
      } in
      let place : b'.position ≡ b.position + n = omega (arith, len, v.inside, v.word) in
      (
        b',
        rw e (
            ap (λ (k : ℕ). ok (record b1 { position = (k + length (low_bytes n value)) % 2 ^ 64 }))
              p1),
        record {
          valid = record {
            ordered = omega (arith, place, lim);
            inside = omega (arith, lim, cap, v.inside);
            full = cap ∙ v.full ∙ sym kept.size;
            word = omega (arith, cap, v.word);
          };
          moved = place;
          read_back =
              rw (get_at-position b1 b.position n b.position, got, get)
                (ap (λ (k : ℕ). ok (value, record b1 { position = (b.position + k) % 2 ^ 64 }))
                  (sym len));
          kept = kept;
        },
      ),
  λ none_left.
      let full : leb b.limit ((b.position + (length (low_bytes n value) - 1)) % 2 ^ 64) ≡ true =
        leb-true b.limit _ (omega (arith, len, v.ordered, v.inside, v.word)) in
      rw (full, put, put_at),
)
  where
    len : length (low_bytes n value) ≡ n
    len = length-low_bytes n value
