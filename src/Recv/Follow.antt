-- ===== src/Recv/Follow.antt =====
-- What a packet leaves as it is in `handleReads`, once its bytes are in (c/org.chabu/src/Chabu.c):
-- no bytes come in, and the padding that is still to come is not negative.
use chabu.Prelude.{ℕ, ◌-◌, ◌≤◌, refl, ◌∙◌, arith, ◌==◌, not, if◌then◌else◌}
use chabu.Prelude.Int.{pos_part}
use chabu.Run.{Run, ok, ◌>>=◌, OnOk, bind-OnOk, then-OnOk, if-OnOk, option-OnOk, int-OnOk}
use chabu.Buffer.{ByteBuffer, align_up4, to_int, get_int_be, get_string, xfer_with_max}
use chabu.State.{
  Chabu, PacketType, packet_type_code, application_name_size_max, network_register_write_request,
  remote_ping, ping_completed,
}
use chabu.World.{World, Callbacks, with_chabu, put_channel}
use chabu.Buffer.Read.{unread}
use chabu.Priority.{
  seq_data, set_request_data, set_request_of, set_request, priority_at, ids_of, rounds_of,
  entries_of, list_of, store,
}
use chabu.Recv.Packet.{
  Step, again, stop, with_recv, ready, channel_number, take_arm, recv_setup, recv_arm, recv_ping,
  recv_pong, take_seq, recv_seq, recv_packet,
}
use chabu.Recv.Stream.{HasPadding, Heeds, IsStream}

-- `P` holds where the pass goes on.
abbrev pub Going : {A : Type 0} → (A → Type 0) → Step A → Type 0
Going P (again w) = P w
Going P (stop w) = Unit {0}

-- A request for a turn changes channels and lists only.
set_request-padding : (c : Chabu) (i : ℕ) → HasPadding c → OnOk HasPadding (set_request_data c i)
unfolding set_request_data set_request_of store
set_request-padding c i h = then-OnOk HasPadding (priority_at c (c.channels i).priority) _ (λ level.
    then-OnOk HasPadding
      (set_request (ids_of c) (rounds_of c) (entries_of seq_data c) i
        (list_of seq_data (c.priorities level)))
      _ (λ x. h))

module _ {U : Type 0} (cb : Callbacks U) (pending : U → ℕ) where
  -- No bytes were brought in, and the padding is not negative.
  pub record Follows (w w' : World U) : Type 0 where
    pub no_more : pending w'.app ≤ pending w.app
    pub padding : HasPadding w'.chabu

  Heeds-Follows :
      (w w1 w2 : World U)
      → pending w1.app ≤ pending w.app
      → HasPadding w1.chabu
      → Heeds cb pending w1 w2
      → Follows w w2
  Heeds-Follows w w1 w2 h (p, e) d = record {
    no_more = omega (arith, h, d.no_more);
    padding = (p, d.padding ∙ e);
  }

  stays : (w : World U) (c : Chabu) → HasPadding c → Follows w (with_chabu w c)
  stays w c h = record { no_more = omega arith; padding = h }

  recv_setup-Follows :
      (w : World U)
      → HasPadding w.chabu
      → OnOk (Going (Follows w)) (recv_setup w.chabu >>= λ c. ok (again (with_chabu w c)))
  unfolding recv_setup
  recv_setup-Follows w h =
      bind-OnOk HasPadding (Going (Follows w)) (recv_setup w.chabu) _
        (then-OnOk HasPadding (get_string w.chabu.recv_buffer 10) _ λ a.
          then-OnOk HasPadding (get_int_be a.1) _ λ b. then-OnOk HasPadding (get_int_be b.1) _ λ c.
            then-OnOk HasPadding (get_int_be c.1) _
              λ d. then-OnOk HasPadding (get_string d.1 application_name_size_max) _ λ e. h)
        (λ c g. stays w c g)

  -- Where `r` goes on, no bytes were brought in, and the padding is not negative.
  abbrev pub Follow : World U → Run (Step (World U)) → Type 0
  Follow w = OnOk (Going (Follows w))

  take_arm-Follows :
      IsStream cb pending
      → (w0 w : World U) (i arm : ℕ) → pending w.app ≤ pending w0.app
      → HasPadding w.chabu
      → Follow w0 (take_arm cb w i arm)
  unfolding take_arm
  take_arm-Follows k w0 w i arm le h =
      let P = Going (Follows w0) in
      let ch = w.chabu.channels i in
      let w' : World U = put_channel w i (record ch { xmit_arm = arm }) in
      let asked : Run (Step (World U)) = set_request_data w'.chabu i >>= λ c.
      ok (again (cb.event_notification network_register_write_request (with_chabu w' c))) in
      let same : Follows w0 w = record { no_more = le; padding = h } in
      let put : Follows w0 w' = record { no_more = le; padding = h } in
      if-OnOk P (ch.xmit_arm == arm) (ok (again w))
        (if ch.xmit_limit == ch.xmit_seq then ok (again w') else asked) same
        (if-OnOk P (ch.xmit_limit == ch.xmit_seq) (ok (again w')) asked put (
          bind-OnOk HasPadding P (set_request_data w'.chabu i) _ (set_request-padding w'.chabu i h)
            (λ c g.
              Heeds-Follows w0 (with_chabu w' c) _ le g
                (k.notes network_register_write_request (with_chabu w' c)))))

  recv_arm-Follows :
      IsStream cb pending → (w : World U) → HasPadding w.chabu → Follow w (recv_arm cb w)
  unfolding recv_arm
  recv_arm-Follows k w h = then-OnOk (Going (Follows w)) (get_int_be w.chabu.recv_buffer) _ λ a.
      then-OnOk (Going (Follows w)) (get_int_be a.1) _ λ b.
        let w' = with_chabu w (with_recv (ready w.chabu) b.1) in
        option-OnOk (Going (Follows w)) (channel_number w.chabu a.0) _ _ tt
          λ i. take_arm-Follows k w w' i b.0 (omega arith) h

  recv_ping-Follows :
      IsStream cb pending → (w : World U) → HasPadding w.chabu → Follow w (recv_ping cb w)
  unfolding recv_ping
  recv_ping-Follows k w h = then-OnOk (Going (Follows w)) (get_int_be w.chabu.recv_buffer) _ λ a.
      let n = pos_part (to_int a.0) in
      let seen : ByteBuffer = record {
        position = 0;
        limit = n;
        capacity = n;
        memory = unread a.1;
      } in
      let c : Chabu = record (with_recv w.chabu a.1) { recv_ping_ping_data = seen } in
      let d =
        Heeds-Follows w (with_chabu w c) _ (omega arith) h (k.notes remote_ping (with_chabu w c)) in
      record { no_more = d.no_more; padding = d.padding }

  recv_pong-Follows :
      IsStream cb pending → (w : World U) → HasPadding w.chabu → Follow w (recv_pong cb w)
  unfolding recv_pong
  recv_pong-Follows k w h = then-OnOk (Going (Follows w)) (get_int_be w.chabu.recv_buffer) _ λ a.
      bind-OnOk HasPadding (Going (Follows w)) _ _
        (option-OnOk HasPadding w.chabu.xmit_ping_pong_data _ _ h
          λ d. then-OnOk HasPadding (xfer_with_max a.1 d (to_int a.0)) _ λ x. h)
        (λ c g.
          let d =
            Heeds-Follows w (with_chabu w c) _ (omega arith) g
              (k.notes ping_completed (with_chabu w c)) in
          record { no_more = d.no_more; padding = d.padding })

  take_seq-Follows :
      (w0 w : World U) (i seq size : ℕ)
      → pending w.app ≤ pending w0.app
      → Follow w0 (take_seq cb w i seq size)
  unfolding take_seq
  take_seq-Follows w0 w i seq size le =
      if-OnOk (Going (Follows w0)) (not (seq == (w.chabu.channels i).recv_seq)) _ _ tt (
        int-OnOk (Going (Follows w0)) (to_int size) _ _ (λ n e. tt)
          (λ n e. record { no_more = le; padding = (align_up4 n - n, refl) }))

  recv_seq-Follows : (w : World U) → Follow w (recv_seq cb w)
  unfolding recv_seq
  recv_seq-Follows w = then-OnOk (Going (Follows w)) (get_int_be w.chabu.recv_buffer) _ λ a.
      then-OnOk (Going (Follows w)) (get_int_be a.1) _ λ b.
        then-OnOk (Going (Follows w)) (get_int_be b.1) _ λ c.
          option-OnOk (Going (Follows w)) (channel_number w.chabu a.0) _ _ tt
            λ i. take_seq-Follows w (with_chabu w (with_recv w.chabu c.1)) i b.0 c.0 (omega arith)

  -- No packet brings bytes in, and none leaves a negative padding.
  pub recv_packet-Follows :
      IsStream cb pending
      → (type : ℕ) (w : World U) → HasPadding w.chabu
      → Follow w (recv_packet cb type w)
  unfolding recv_packet
  recv_packet-Follows k type w h =
      let P = Going (Follows w) in
      if-OnOk P (type == packet_type_code PacketType.setup) _ _ (recv_setup-Follows w h) (
        if-OnOk P (type == packet_type_code PacketType.accept)
          (ok (again (with_chabu w (ready w.chabu)))) _ (stays w (ready w.chabu) h)
          (if-OnOk P (type == packet_type_code PacketType.arm) _ _ (recv_arm-Follows k w h) (
            if-OnOk P (type == packet_type_code PacketType.ping) _ _ (recv_ping-Follows k w h) (
              if-OnOk P (type == packet_type_code PacketType.pong) _ _ (recv_pong-Follows k w h) (
                if-OnOk P (type == packet_type_code PacketType.seq) _ _ (recv_seq-Follows w) tt)))))
