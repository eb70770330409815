-- ===== src/Handshake/Reads.antt =====
-- The loop of `handleReads` of c/org.chabu/src/Chabu.c and the order of the handshake.
use chabu.Prelude.{
  ℕ, zero, suc, ◌+◌, ◌-◌, ◌%◌, Bool, true, some, ltb, ◌==◌, not, ◌&&◌, if◌then◌else◌,
}
use chabu.Prelude.Int.{pos, pos_part, ◌-ℤ◌, ltb_ℤ}
use chabu.Run.{Run, ok, fault, ◌>>=◌, OnOk, bind-OnOk, then-OnOk, if-OnOk, option-OnOk, int-OnOk}
use chabu.Buffer.{ByteBuffer, to_int, get_int_at_be, has_remaining, remaining, flip}
use chabu.Errors.{recv_user_buffer_zero_length}
use chabu.State.{XmitState, PacketType, packet_type_code, recv_completed}
use chabu.World.{World, Callbacks}
use chabu.Recv.Packet.{Step, again, stop, recv_packet}
use chabu.Recv.Payload.{
  is_zero, cut, filled, recv_get_buffer, recv_into_buffer, recv_payload, recv_padding,
  recv_seq_payload,
}
use chabu.Recv.Loop.{
  is_seq_payload, recv_own, with_rb, recv_head, recv_rest, recv_one, read_pass, handle_reads,
}
use chabu.Handshake.Read.{AtEnd, H, Then, report_error-H, recv_packet-H}
use chabu.Handshake.{Keeps-Holds, IsMindful, if_holds}

module _ {U : Type 0} (cb : Callbacks U) (m : IsMindful cb) (P : XmitState → Bool → Type 0)
    (learn : (s : XmitState) (b : Bool) → P s b → P s true) where
  abbrev Hw : World U → Type 0
  Hw = H cb m P learn

  abbrev Th : Run (Step (World U)) → Type 0
  Th = Then cb m P learn

  -- The rest of a pass is left out where the loop stops.
  steps_on :
      (r : Run (Step (World U))) (k : World U → Run (Step (World U)))
      → Th r
      → ((w : World U) → Hw w → Th (k w))
      → Th (r >>= λ s. elim s [ stop w ↦ ok (stop w) | again w ↦ k w ])
  steps_on (fault e) k h g = tt
  steps_on (ok (stop w)) k h g = h
  steps_on (ok (again w)) k h g = g w h

  recv_get_buffer-H : (w : World U) (i : ℕ) → Hw w → Th (recv_get_buffer cb w i)
  unfolding recv_get_buffer
  recv_get_buffer-H w i h =
      let Q = AtEnd Hw in
      let payload = w.chabu.recv_seq_remaining_payload in
      let r = cb.channel_get_recv_buffer (w.chabu.channels i).channel_id payload w.app in
      option-OnOk Q w.chabu.recv_seq_buffer_user _ _
        (option-OnOk Q r.0 _ _ tt λ b.
          let w' : World U = record {
            chabu = record (w.chabu) { recv_seq_buffer_user = some b };
            app = r.1;
          } in
          if-OnOk Q (not (has_remaining b)) _ _
            (report_error-H cb m P learn recv_user_buffer_zero_length w' h)
            (if-OnOk Q (not (has_remaining (cut b payload))) _ _ tt h))
        (λ b. h)

  recv_into_buffer-H : (w : World U) (i : ℕ) → Hw w → Th (recv_into_buffer cb w i)
  unfolding recv_into_buffer
  recv_into_buffer-H w i h =
      let Q = AtEnd Hw in
      let b = w.chabu.recv_seq_buffer in
      let r = cb.network_recv_buffer b w.app in
      let finished : (n : ℕ)
          → Hw (
              cb.channel_event_notification (w.chabu.channels i).channel_id recv_completed (record {
                chabu = record (w.chabu) {
                  recv_seq_buffer = r.0;
                  recv_seq_remaining_payload = n;
                  recv_seq_buffer_user = filled w.chabu.recv_seq_buffer_user r.0;
                };
                app = r.1;
              })) =
        λ n.
          Keeps-Holds P _ _ (m.on_channel_event (w.chabu.channels i).channel_id recv_completed _)
            h in
      int-OnOk Q (remaining b -ℤ remaining r.0) _ _
        (λ n e.
          if_holds Q (is_zero (remaining r.0)) _ _
            (finished (w.chabu.recv_seq_remaining_payload + suc n)) h)
        (λ n e. if-OnOk Q (n == 0) _ _ h (
          if-OnOk Q (ltb w.chabu.recv_seq_remaining_payload n) _ _ tt (
            if_holds Q (is_zero (remaining r.0)) _ _
              (finished (w.chabu.recv_seq_remaining_payload - n)) h)))

  recv_payload-H : (w : World U) → Hw w → Th (recv_payload cb w)
  unfolding recv_payload
  recv_payload-H w h = if-OnOk (AtEnd Hw) (w.chabu.recv_seq_remaining_payload == 0) _ _ h (
      option-OnOk (AtEnd Hw) w.chabu.recv_seq_channel _ _ tt λ i.
        steps_on (recv_get_buffer cb w i) (λ w. recv_into_buffer cb w i) (recv_get_buffer-H w i h)
          (λ w h. recv_into_buffer-H w i h))

  recv_padding-H : (w : World U) → Hw w → AtEnd Hw (recv_padding cb w)
  unfolding recv_padding
  recv_padding-H w h =
      let c = w.chabu in
      let left = c.recv_seq_remaining_padding in
      let rb : ByteBuffer = record (c.recv_buffer) { position = 0; limit = pos_part left } in
      let r = cb.network_recv_buffer rb w.app in
      let w' : World U = record {
        chabu = record c {
          recv_buffer = r.0;
          recv_seq_remaining_padding = left -ℤ pos r.0.position;
        };
        app = r.1;
      } in
      if_holds (AtEnd Hw) (c.recv_seq_remaining_payload == 0 && ltb_ℤ (pos 0) left) _ _
        (if_holds (AtEnd Hw) (r.0.position == 0) (stop w') (again w') h h) h

  recv_seq_payload-H : (w : World U) → Hw w → Th (recv_seq_payload cb w)
  unfolding recv_seq_payload
  recv_seq_payload-H w h = steps_on (recv_payload cb w) _ (recv_payload-H w h) λ w1 h1.
      steps_on (ok (recv_padding cb w1)) _ (recv_padding-H w1 h1) λ w2 h2.
        if-OnOk (AtEnd Hw)
          (w2.chabu.recv_seq_remaining_payload == 0 && is_zero w2.chabu.recv_seq_remaining_padding)
          _ _ h2 h2

  recv_head-H : (w : World U) → Hw w → Hw (recv_head cb w)
  unfolding recv_head recv_own
  recv_head-H w h = if_holds Hw (ltb w.chabu.recv_buffer.position 8) _ w h h

  recv_rest-H :
      (type packet_length : ℕ) (w : World U) → Hw w → Hw (recv_rest cb type packet_length w)
  unfolding recv_rest recv_own
  recv_rest-H type packet_length w h =
      let rb = w.chabu.recv_buffer in
      let limit =
        if type == packet_type_code PacketType.seq then 20 else pos_part (to_int packet_length) in
      let w' : World U =
        if rb.position == 8 then with_rb cb w (record rb { limit = limit }) else w in
      let h' : Hw w' =
        if_holds Hw (rb.position == 8) (with_rb cb w (record rb { limit = limit })) w h h in
      if_holds Hw (has_remaining w'.chabu.recv_buffer) (recv_own cb w') w' h' h'

  recv_one-H : (w : World U) → Hw w → Th (recv_one cb w)
  unfolding recv_one
  recv_one-H w h =
      let Q = AtEnd Hw in
      let w1 = recv_head cb w in
      let h1 = recv_head-H w h in
      if-OnOk Q (ltb w1.chabu.recv_buffer.position 8) _ _ h1 (
        then-OnOk Q (get_int_at_be w1.chabu.recv_buffer 0) _ λ packet_length.
          then-OnOk Q (get_int_at_be w1.chabu.recv_buffer 4) _ λ packet_id.
            let w2 = recv_rest cb (packet_id % 256) packet_length w1 in
            let h2 = recv_rest-H (packet_id % 256) packet_length w1 h1 in
            let w3 = with_rb cb w2 (record (flip w2.chabu.recv_buffer) { position = 8 }) in
            if-OnOk Q (has_remaining w2.chabu.recv_buffer) _ _ h2 (
              steps_on (recv_packet cb (packet_id % 256) w3) _
                (recv_packet-H cb m P learn (packet_id % 256) w3 h2) (λ w h. h)))

  pub read_pass-H : (w : World U) → Hw w → Th (read_pass cb w)
  unfolding read_pass
  read_pass-H w h =
      steps_on (if is_seq_payload w.chabu.recv_state then ok (again w) else recv_one cb w) _
        (if-OnOk (AtEnd Hw) (is_seq_payload w.chabu.recv_state) (ok (again w)) (recv_one cb w) h
          (recv_one-H w h))
        (λ w1 h1.
          if-OnOk (AtEnd Hw) (is_seq_payload w1.chabu.recv_state) _ _ (recv_seq_payload-H w1 h1) h1)

  pub handle_reads-H : (rounds : ℕ) (w : World U) → Hw w → OnOk Hw (handle_reads cb rounds w)
  unfolding handle_reads
  handle_reads-H zero w h = tt
  handle_reads-H (suc rounds) w h =
      bind-OnOk (AtEnd Hw) Hw (read_pass cb w) _ (read_pass-H w h) (λ s.
        elim s
          as (λ s.
            AtEnd Hw s → OnOk Hw (elim s [ stop w ↦ ok w | again w ↦ handle_reads cb rounds w ])) [
              | stop w1 ↦ λ g. g
              | again w1 ↦ handle_reads-H rounds w1
            ])
