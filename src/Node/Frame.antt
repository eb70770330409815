-- ===== src/Node/Frame.antt =====
-- What becomes of the bytes that a session of the node has received.
use chabu.Prelude.{[], ℕ, ◌≡◌, List, take}
use chabu.Run.{ok}
use chabu.Nio.{ByteBuffer, flip}
use chabu.Nio.Number.{get_u_int_at}
use chabu.Nio.Round.{IsValid}
use chabu.Node.Session.{SessionCtrl}

-- The bytes that have been received and are not done with.
abbrev pub received : ByteBuffer → List ℕ
received b = take b.position b.memory

-- `rest` of the received bytes is kept, with room behind it up to the capacity.
pub record Keeps (b : ByteBuffer) (rest : List ℕ) (b' : ByteBuffer) : Type 0 where
  pub valid : IsValid b'
  pub kept : received b' ≡ rest
  pub room : b'.limit ≡ b.capacity

abbrev no_bytes : List ℕ
no_bytes = []

-- What the first four bytes announce.
abbrev pub Announces : SessionCtrl → ℕ → Type 0
Announces s size = get_u_int_at (flip s.rx) 0 ≡ ok size
