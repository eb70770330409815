-- ===== src/Recv/Received.antt =====
-- c/org.chabu/src/Chabu.c: the payload of a SEQ packet on its way in, in `handleReads`.
use mathlib.Core.Path.{subst}
use chabu.Prelude.{
  ℕ, ◌+◌, ◌-◌, ◌<◌, ◌≤◌, ◌≡◌, ◌≢◌, refl, sym, ◌∙◌, ap, ◌==◌, Option, none, some, List, [], ◌∷◌,
  ◌++◌, arith, length,
}
use chabu.Prelude.Int.{pos, ◌-ℤ◌}
use chabu.Buffer.{ByteBuffer, remaining}
use chabu.Buffer.Write.{Writes}
use chabu.Buffer.Xfer.{IsValid, remaining_lem}
use chabu.State.{Chabu, recv_completed}
use chabu.World.{World, Callbacks, with_chabu}
use chabu.Xmit.Carrier.{Usable}
use chabu.Recv.Packet.{Step, again, stop}
use chabu.Recv.Payload.{is_zero}
use chabu.Recv.Fill.{Filling}

-- The difference that the code takes for the number of bytes that came in.
pub read_size :
    (b : ByteBuffer) (bytes : List ℕ) (b' : ByteBuffer)
    → IsValid b
    → length bytes ≤ b.limit - b.position
    → Writes b bytes b'
    → remaining b -ℤ remaining b' ≡ pos (length bytes)
unfolding remaining ◌-ℤ◌
read_size b bytes b' v bound w = ground (arith, v.ordered, w.place, w.same_limit)

pub IsValid-Writes :
    (b : ByteBuffer) (bytes : List ℕ) (b' : ByteBuffer)
    → IsValid b
    → length bytes ≤ b.limit - b.position
    → Writes b bytes b'
    → IsValid b'
IsValid-Writes b bytes b' v bound w = record {
  ordered = omega (arith, v.ordered, bound, w.place, w.same_limit);
  inside = omega (arith, v.inside, w.same_limit, w.room);
}

pub no_bytes : (bytes : List ℕ) → length bytes ≡ 0 → bytes ≡ []
no_bytes [] h = refl
no_bytes (x ∷ bytes) h = absurd (ground arith)

pub Usable-Writes :
    (b : ByteBuffer) (bytes : List ℕ) (b' : ByteBuffer) (most : ℕ)
    → Usable b most
    → Writes b bytes b'
    → b.position + length bytes < b.limit
    → Usable b' (most - length bytes)
Usable-Writes b bytes b' most u w more = record {
  valid = IsValid-Writes b bytes b' u.valid (omega (arith, more)) w;
  some_bytes = omega (arith, more, w.place, w.same_limit);
  short = omega (arith, u.short, w.place, w.same_limit);
}

pub is_zero-remaining :
    (b : ByteBuffer) → IsValid b → is_zero (remaining b) ≡ (b.limit - b.position == 0)
is_zero-remaining b v = ap is_zero (remaining_lem b v)

module _ {U : Type 0} (cb : Callbacks U) (arrived : U → List ℕ) where
  -- The full buffer `u` of the application was handed back: the application was told so of the channel
  -- in a state where `u` ends at position `at` with the bytes of `memory`, and is not held any longer.
  pub record Handed (u : ByteBuffer) (at : ℕ) (memory : List ℕ) (w w' : World U) : Type 0 where
    pub i : ℕ
    pub channel : w.chabu.recv_seq_channel ≡ some i
    pub seen : World U
    pub filled_up :
        seen.chabu.recv_seq_buffer_user ≡ some (record u { position = at; memory = memory })
    pub told :
        let told =
          cb.channel_event_notification (w.chabu.channels i).channel_id recv_completed seen in
        w' ≡ with_chabu told (record (told.chabu) { recv_seq_buffer_user = none })

  -- The bytes of a payload have come in: they are counted, they stand behind what the buffer `target`
  -- held, a full buffer `u` was handed back with the position behind them, any other one is kept, and
  -- nothing but the count and the buffers has changed.
  pub record Received (w : World U) (u target : ByteBuffer) (bytes : List ℕ) (w' : World U)
      : Type 0 where
    pub counted :
        length bytes + w'.chabu.recv_seq_remaining_payload ≡ w.chabu.recv_seq_remaining_payload
    pub came : arrived w'.app ≡ arrived w.app ++ bytes
    pub writes : Writes target bytes w'.chabu.recv_seq_buffer
    pub full : target.position + length bytes ≡ target.limit → w'.chabu.recv_seq_buffer_user ≡ none
    pub handed :
        target.position + length bytes ≡ target.limit
        → Handed u (target.position + length bytes) w'.chabu.recv_seq_buffer.memory w w'
    pub held :
        target.position + length bytes ≢ target.limit → w'.chabu.recv_seq_buffer_user ≡ some u
    pub ready :
        Filling w'.chabu.recv_seq_buffer_user w'.chabu.recv_seq_buffer
          w'.chabu.recv_seq_remaining_payload
    pub rest : w'.chabu ≡ record (w.chabu) {
      recv_seq_remaining_payload = w'.chabu.recv_seq_remaining_payload;
      recv_seq_buffer_user = w'.chabu.recv_seq_buffer_user;
      recv_seq_buffer = w'.chabu.recv_seq_buffer;
    }

  -- The loop stops where nothing came in, and goes on elsewhere.
  abbrev pub Outcome : World U → (u target : ByteBuffer) → Step (World U) → Type 0
  Outcome w u target (stop w') = Received w u target [] w'
  Outcome w u target (again w') =
      (bytes : List ℕ) × (0 < length bytes) × Received w u target bytes w'

  -- A state that differs from `w` in the count and the buffers only.
  pub received_lem :
      (w w' : World U) (u target : ByteBuffer) (bytes : List ℕ) (o : Option ByteBuffer)
      (b' : ByteBuffer)
      → Usable target w.chabu.recv_seq_remaining_payload
      → length bytes ≤ target.limit - target.position
      → Writes target bytes b'
      → (target.position + length bytes ≡ target.limit → o ≡ none)
      → (target.position + length bytes ≡ target.limit
          → Handed u (target.position + length bytes) w'.chabu.recv_seq_buffer.memory w w')
      → (target.position + length bytes ≢ target.limit → o ≡ some u)
      → Filling o b' (w.chabu.recv_seq_remaining_payload - length bytes)
      → w'.chabu ≡ record (w.chabu) {
        recv_seq_remaining_payload = w.chabu.recv_seq_remaining_payload - length bytes;
        recv_seq_buffer_user = o;
        recv_seq_buffer = b';
      }
      → arrived w'.app ≡ arrived w.app ++ bytes
      → Received w u target bytes w'
  received_lem w w' u target bytes o b' usable bound writes full handed held ready e came =
      let left = ap (λ (c : Chabu). c.recv_seq_remaining_payload) e in
      let user = ap (λ (c : Chabu). c.recv_seq_buffer_user) e in
      let buffer = ap (λ (c : Chabu). c.recv_seq_buffer) e in
      let last_of : Chabu → Chabu = λ c. record (w.chabu) {
        recv_seq_remaining_payload = c.recv_seq_remaining_payload;
        recv_seq_buffer_user = c.recv_seq_buffer_user;
        recv_seq_buffer = c.recv_seq_buffer;
      } in
      let filling : Chabu → Type 0 =
        λ c. Filling c.recv_seq_buffer_user c.recv_seq_buffer c.recv_seq_remaining_payload in
      record {
        counted = omega (arith, left, usable.short, bound);
        came = came;
        writes = subst (Writes target bytes) (sym buffer) writes;
        full = λ h. user ∙ full h;
        handed = handed;
        held = λ h. user ∙ held h;
        ready = subst filling (sym e) ready;
        rest = e ∙ ap last_of (sym e);
      }
