-- ===== src/Recv/Arrive.antt =====
-- c/org.chabu/src/Chabu.c: one pass of `handleReads` over the payload of a SEQ packet.
use native.Mathlib.Decide.{ℕ_discrete}
use mathlib.Core.Path.{subst}
use chabu.Prelude.{
  ℕ, ◌+◌, ◌-◌, ◌<◌, ◌≡◌, refl, sym, ◌∙◌, ap, true, false, ltb, eq→==, ne→==, not_lt→ltb, Option,
  none, some, List, [], ◌++◌, arith, length,
}
use chabu.Prelude.Int.{pos, ◌-ℤ◌}
use chabu.Run.{ok, Returns}
use chabu.Buffer.{ByteBuffer, remaining}
use chabu.State.{Chabu, recv_completed}
use chabu.World.{World, Callbacks, with_chabu}
use chabu.Xmit.Carrier.{Usable}
use chabu.Recv.Packet.{Step, again, stop}
use chabu.Recv.Payload.{filled, is_zero, recv_get_buffer, recv_into_buffer, recv_payload}
use chabu.Recv.Source.{Filled, IsSource}
use chabu.Recv.Fill.{Filling, Target, world, recv_get_buffer_lem}
use chabu.Recv.Received.{
  read_size, IsValid-Writes, no_bytes, Usable-Writes, is_zero-remaining, Received, Outcome,
  received_lem,
}

-- The buffer of the application, with the position and the array of the copy.
filled_lem :
    (o : Option ByteBuffer) (u b : ByteBuffer) (at : ℕ) (memory : List ℕ)
    → o ≡ some u
    → b.position ≡ at
    → b.memory ≡ memory
    → filled o b ≡ some (record u { position = at; memory = memory })
filled_lem o u b at memory has e f =
    ap (λ x. filled x b) has
    ∙ ap (λ k. some (record u { position = k; memory = b.memory })) e
    ∙ ap (λ m. some (record u { position = at; memory = m })) f

module _ {U : Type 0} (cb : Callbacks U) (arrived : U → List ℕ) where
  recv_into_buffer_lem :
      IsSource cb arrived
      → (w : World U) (i : ℕ) (u b' : ByteBuffer) (app : U) → w.chabu.recv_seq_channel ≡ some i
      → w.chabu.recv_seq_buffer_user ≡ some u
      → Usable w.chabu.recv_seq_buffer w.chabu.recv_seq_remaining_payload
      → (cb.network_recv_buffer w.chabu.recv_seq_buffer w.app ≡ (b', app))
      → Filled cb arrived w.chabu.recv_seq_buffer w.app b' app
      → Returns (Outcome cb arrived w u w.chabu.recv_seq_buffer) (recv_into_buffer cb w i)
  unfolding recv_into_buffer
  recv_into_buffer_lem k w i u b' app ch has use_b fetch f =
      let b = w.chabu.recv_seq_buffer in
      let n = length f.bytes in
      let size : remaining b -ℤ remaining b' ≡ pos n =
        read_size b f.bytes b' use_b.valid f.bound f.writes in
      elim (ℕ_discrete n 0) [
        | yes nothing ↦
            let w0 : World U = record {
              chabu = record (w.chabu) { recv_seq_buffer = b' };
              app = app;
            } in
            let counted : ℕ → Chabu =
              λ r. record (w.chabu) { recv_seq_remaining_payload = r; recv_seq_buffer = b' } in
            let usable =
              Usable-Writes b f.bytes b' w.chabu.recv_seq_remaining_payload use_b f.writes
                (omega (arith, nothing, use_b.some_bytes)) in
            (
              stop w0,
              simp (fetch, size, eq→== n 0 nothing, recv_into_buffer),
              subst (λ l. Received cb arrived w u b l w0) (no_bytes f.bytes nothing)
                  (received_lem cb arrived w w0 u b f.bytes w.chabu.recv_seq_buffer_user b' use_b
                    f.bound f.writes (λ h. absurd (omega (arith, nothing, h, use_b.some_bytes)))
                    (λ h. absurd (omega (arith, nothing, h, use_b.some_bytes))) (λ _. has)
                    (subst (λ o. Filling o b' (w.chabu.recv_seq_remaining_payload - n)) (sym has)
                      usable)
                    (ap counted (omega (arith, nothing))) f.came),
            )
        | no some_bytes ↦
            let left = w.chabu.recv_seq_remaining_payload - n in
            let fits : ltb w.chabu.recv_seq_remaining_payload n ≡ false =
              not_lt→ltb w.chabu.recv_seq_remaining_payload n
                (omega (arith, f.bound, use_b.short)) in
            let valid = IsValid-Writes b f.bytes b' use_b.valid f.bound f.writes in
            let rest_of : b'.limit - b'.position ≡ b.limit - (b.position + n) =
              omega (arith, f.writes.place, f.writes.same_limit) in
            elim (ℕ_discrete (b.limit - (b.position + n)) 0) [
              | yes all ↦
                  let zero_left : is_zero (remaining b') ≡ true =
                    is_zero-remaining b' valid ∙ eq→== _ 0 (rest_of ∙ all) in
                  let c : Chabu = record (w.chabu) {
                    recv_seq_buffer = b';
                    recv_seq_remaining_payload = left;
                    recv_seq_buffer_user = filled w.chabu.recv_seq_buffer_user b';
                  } in
                  let at_end : World U = record { chabu = c; app = app } in
                  let told =
                    cb.channel_event_notification (w.chabu.channels i).channel_id recv_completed
                      at_end in
                  let w1 : World U =
                    with_chabu told (record (told.chabu) { recv_seq_buffer_user = none }) in
                  let back : Chabu → Chabu = λ x. record x { recv_seq_buffer_user = none } in
                  let (same, heard) =
                    k.notes (w.chabu.channels i).channel_id recv_completed at_end in
                  (
                    again w1,
                    simp (fetch, size, ne→== n 0 some_bytes, fits, zero_left, recv_into_buffer),
                    (
                      f.bytes,
                      omega (arith, some_bytes),
                      received_lem cb arrived w w1 u b f.bytes none b' use_b f.bound f.writes
                          (λ h. refl)
                          (λ _. record {
                            i = i;
                            channel = ch;
                            seen = at_end;
                            filled_up =
                                filled_lem w.chabu.recv_seq_buffer_user u b' (b.position + n)
                                  w1.chabu.recv_seq_buffer.memory has f.writes.place
                                  (sym (ap (λ (x : Chabu). x.recv_seq_buffer.memory) same));
                            told = refl;
                          })
                          (λ h. absurd (omega (arith, h, all, use_b.some_bytes, f.bound))) tt
                          (ap back same) (heard ∙ f.came),
                    ),
                  )
              | no more ↦
                  let not_zero : is_zero (remaining b') ≡ false =
                    is_zero-remaining b' valid ∙ ne→== _ 0 (λ h. more (sym rest_of ∙ h)) in
                  let w2 : World U = record {
                    chabu = record (w.chabu) {
                      recv_seq_buffer = b';
                      recv_seq_remaining_payload = left;
                    };
                    app = app;
                  } in
                  let usable =
                    Usable-Writes b f.bytes b' w.chabu.recv_seq_remaining_payload use_b f.writes
                      (omega (arith, more)) in
                  (
                    again w2,
                    simp (fetch, size, ne→== n 0 some_bytes, fits, not_zero, recv_into_buffer),
                    (
                      f.bytes,
                      omega (arith, some_bytes),
                      received_lem cb arrived w w2 u b f.bytes w.chabu.recv_seq_buffer_user b' use_b
                          f.bound f.writes (λ h. absurd (omega (arith, more, h)))
                          (λ h. absurd (omega (arith, more, h))) (λ _. has)
                          (subst (λ o. Filling o b' left) (sym has) usable) refl f.came,
                    ),
                  )
            ]
      ]

  -- The buffers of `w` do not matter to what is left when others were put in their place.
  from_world :
      (w : World U) (u b : ByteBuffer) (app : U) (o : Option ByteBuffer) (bytes : List ℕ)
      (w' : World U)
      → arrived app ≡ arrived w.app
      → Received cb arrived (world cb arrived w b app o) u b bytes w'
      → Received cb arrived w u b bytes w'
  from_world w u b app o bytes w' same d = record {
    counted = d.counted;
    came = d.came ∙ ap (λ l. l ++ bytes) same;
    writes = d.writes;
    full = d.full;
    handed = λ h.
        let g = d.handed h in
        record {
          i = g.i;
          channel = g.channel;
          seen = g.seen;
          filled_up = g.filled_up;
          told = g.told;
        };
    held = d.held;
    ready = d.ready;
    rest = d.rest;
  }

  Outcome-world :
      (w : World U) (u b : ByteBuffer) (app : U) (o : Option ByteBuffer) (s : Step (World U))
      → arrived app ≡ arrived w.app
      → Outcome cb arrived (world cb arrived w b app o) u b s
      → Outcome cb arrived w u b s
  Outcome-world w u b app o (stop w') same d = from_world w u b app o [] w' same d
  Outcome-world w u b app o (again w') same (bytes, some_bytes, d) =
      (bytes, some_bytes, from_world w u b app o bytes w' same d)

  recv_payload_at :
      (w : World U) (i : ℕ) (w1 : World U)
      → 0 < w.chabu.recv_seq_remaining_payload
      → w.chabu.recv_seq_channel ≡ some i
      → recv_get_buffer cb w i ≡ ok (again w1)
      → recv_payload cb w ≡ recv_into_buffer cb w1 i
  unfolding recv_payload
  recv_payload_at w i w1 left ch e =
      simp (ne→== w.chabu.recv_seq_remaining_payload 0 (omega (arith, left)), ch, e, recv_payload)

  -- A pass over the payload of a SEQ packet ends without a fault and without an error report, where the
  -- registered functions do as documented and the buffer in use has room for no more than the payload
  -- that is left. The bytes that the network delivers are appended, in order, to the buffer in use or to
  -- one that the application hands out for the channel, which is cut to the payload that is left, and are
  -- counted. Where this buffer is full the application gets recvCompleted for the channel, in a state where
  -- the position of its own buffer is behind these bytes, and the buffer is not held any longer; elsewhere
  -- it is kept. Nothing but the count and the buffers changes. The loop stops where nothing came in and
  -- goes on elsewhere. Where no payload is left nothing is done.
  pub recv_payload-Outcome :
      IsSource cb arrived
      → (w : World U) (i : ℕ) → w.chabu.recv_seq_channel ≡ some i
      → Filling w.chabu.recv_seq_buffer_user w.chabu.recv_seq_buffer
          w.chabu.recv_seq_remaining_payload
      → (w.chabu.recv_seq_remaining_payload ≡ 0 → recv_payload cb w ≡ ok (again w))
        × (0 < w.chabu.recv_seq_remaining_payload
            → (u : ByteBuffer) × (b : ByteBuffer) × Target cb arrived w u b
              × Returns (Outcome cb arrived w u b) (recv_payload cb w))
  unfolding recv_payload
  recv_payload-Outcome k w i ch r = (
    λ none_left. simp (eq→== _ 0 none_left, recv_payload),
    λ left.
        let (u, b, app, target, usable, same, e) =
          recv_get_buffer_lem cb arrived k w i w.chabu.recv_seq_buffer_user ch refl left r in
        let w1 = world cb arrived w b app (some u) in
        let (s, e', out) =
          recv_into_buffer_lem k w1 i u (cb.network_recv_buffer b app).0
            (cb.network_recv_buffer b app).1 ch refl usable refl (k.fills b app usable.valid) in
        (
          u,
          b,
          target,
          (s, recv_payload_at w i w1 left ch e ∙ e', Outcome-world w u b app (some u) s same out),
        ),
  )
