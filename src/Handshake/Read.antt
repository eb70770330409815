-- ===== src/Handshake/Read.antt =====
-- `handleReads` of c/org.chabu/src/Chabu.c and the order of the handshake: it may take the SETUP packet
-- in, and leaves the state of the transmit half as it is.
use chabu.Prelude.{ℕ, Bool, true, ◌==◌, not, if◌then◌else◌}
use chabu.Prelude.Int.{pos_part}
use chabu.Run.{Run, ok, ◌>>=◌, OnOk, bind-OnOk, then-OnOk, if-OnOk, option-OnOk, int-OnOk}
use chabu.Buffer.{ByteBuffer, to_int, get_int_be, get_string, xfer_with_max}
use chabu.Buffer.Read.{unread}
use chabu.Errors.{ErrorCode, protocol_channel_not_existing, protocol_seq_value, protocol_pck_type}
use chabu.State.{
  Chabu, XmitState, PacketType, packet_type_code, application_name_size_max,
  network_register_write_request, remote_ping, ping_completed,
}
use chabu.World.{World, Callbacks, with_chabu, put_channel, report_error, is_ok}
use chabu.Priority.{seq_data, set_request_data}
use chabu.Recv.Packet.{
  Step, again, stop, with_recv, ready, channel_number, take_arm, recv_setup, recv_arm, recv_ping,
  recv_pong, take_seq, recv_seq, recv_packet,
}
use chabu.Handshake.{Holds, Keeps-Holds, IsMindful, set_request_of-Holds, if_holds}

-- `P` holds of the connection, whether the loop goes on or not.
abbrev pub AtEnd : {A : Type 0} → (A → Type 0) → Step A → Type 0
AtEnd P (again w) = P w
AtEnd P (stop w) = P w

module _ {U : Type 0} (cb : Callbacks U) (m : IsMindful cb) (P : XmitState → Bool → Type 0)
    (learn : (s : XmitState) (b : Bool) → P s b → P s true) where
  abbrev pub H : World U → Type 0
  H w = Holds P w.chabu

  -- `P` holds behind a part of a pass.
  abbrev pub Then : Run (Step (World U)) → Type 0
  Then = OnOk (AtEnd H)

  pub report_error-H : (e : ErrorCode) (w : World U) → H w → H (report_error cb e w)
  unfolding report_error
  report_error-H e w h =
      let w' : World U = record w { chabu = record (w.chabu) { last_error = e } } in
      if_holds H (is_ok w.chabu.last_error) (cb.error_function e w') w
        (Keeps-Holds P w' (cb.error_function e w') (m.on_error e w') h) h

  recv_setup-H :
      (w : World U) → H w → Then (recv_setup w.chabu >>= λ c. ok (again (with_chabu w c)))
  unfolding recv_setup
  recv_setup-H w h =
      bind-OnOk (Holds P) (AtEnd H) (recv_setup w.chabu) _
        (then-OnOk (Holds P) (get_string w.chabu.recv_buffer 10) _ λ a.
          then-OnOk (Holds P) (get_int_be a.1) _ λ b. then-OnOk (Holds P) (get_int_be b.1) _ λ c.
            then-OnOk (Holds P) (get_int_be c.1) _ λ d.
              then-OnOk (Holds P) (get_string d.1 application_name_size_max) _ λ e. learn _ _ h)
        (λ c g. g)

  take_arm-H : (w : World U) (i arm : ℕ) → H w → Then (take_arm cb w i arm)
  unfolding take_arm set_request_data
  take_arm-H w i arm h =
      let ch = w.chabu.channels i in
      let w' : World U = put_channel w i (record ch { xmit_arm = arm }) in
      let asked : Run (Step (World U)) = set_request_data w'.chabu i >>= λ c.
      ok (again (cb.event_notification network_register_write_request (with_chabu w' c))) in
      if-OnOk (AtEnd H) (ch.xmit_arm == arm) (ok (again w))
        (if ch.xmit_limit == ch.xmit_seq then ok (again w') else asked) h
        (if-OnOk (AtEnd H) (ch.xmit_limit == ch.xmit_seq) (ok (again w')) asked h (
          bind-OnOk (Holds P) (AtEnd H) (set_request_data w'.chabu i) _
            (set_request_of-Holds P seq_data w'.chabu i h)
            (λ c g.
              Keeps-Holds P (with_chabu w' c) _ (m.on_event network_register_write_request _) g)))

  recv_arm-H : (w : World U) → H w → Then (recv_arm cb w)
  unfolding recv_arm
  recv_arm-H w h = then-OnOk (AtEnd H) (get_int_be w.chabu.recv_buffer) _ λ a.
      then-OnOk (AtEnd H) (get_int_be a.1) _ λ b.
        let w' = with_chabu w (with_recv (ready w.chabu) b.1) in
        option-OnOk (AtEnd H) (channel_number w.chabu a.0) _ _
          (report_error-H protocol_channel_not_existing w' h) λ i. take_arm-H w' i b.0 h

  recv_ping-H : (w : World U) → H w → Then (recv_ping cb w)
  unfolding recv_ping
  recv_ping-H w h = then-OnOk (AtEnd H) (get_int_be w.chabu.recv_buffer) _ λ a.
      let n = pos_part (to_int a.0) in
      let seen : ByteBuffer = record {
        position = 0;
        limit = n;
        capacity = n;
        memory = unread a.1;
      } in
      let c : Chabu = record (with_recv w.chabu a.1) { recv_ping_ping_data = seen } in
      Keeps-Holds P (with_chabu w c) _ (m.on_event remote_ping _) h

  recv_pong-H : (w : World U) → H w → Then (recv_pong cb w)
  unfolding recv_pong
  recv_pong-H w h = then-OnOk (AtEnd H) (get_int_be w.chabu.recv_buffer) _ λ a.
      bind-OnOk (Holds P) (AtEnd H) _ _
        (option-OnOk (Holds P) w.chabu.xmit_ping_pong_data _ _ h
          λ d. then-OnOk (Holds P) (xfer_with_max a.1 d (to_int a.0)) _ λ x. h)
        (λ c g. Keeps-Holds P (with_chabu w c) _ (m.on_event ping_completed _) g)

  take_seq-H : (w : World U) (i seq size : ℕ) → H w → Then (take_seq cb w i seq size)
  unfolding take_seq
  take_seq-H w i seq size h =
      if-OnOk (AtEnd H) (not (seq == (w.chabu.channels i).recv_seq)) _ _
        (report_error-H protocol_seq_value w h)
        (int-OnOk (AtEnd H) (to_int size) _ _ (λ n e. tt) (λ n e. h))

  recv_seq-H : (w : World U) → H w → Then (recv_seq cb w)
  unfolding recv_seq
  recv_seq-H w h = then-OnOk (AtEnd H) (get_int_be w.chabu.recv_buffer) _ λ a.
      then-OnOk (AtEnd H) (get_int_be a.1) _ λ b. then-OnOk (AtEnd H) (get_int_be b.1) _ λ c.
        let w' = with_chabu w (with_recv w.chabu c.1) in
        option-OnOk (AtEnd H) (channel_number w.chabu a.0) _ _
          (report_error-H protocol_channel_not_existing w' h) λ i. take_seq-H w' i b.0 c.0 h

  pub recv_packet-H : (type : ℕ) (w : World U) → H w → Then (recv_packet cb type w)
  unfolding recv_packet
  recv_packet-H type w h =
      if-OnOk (AtEnd H) (type == packet_type_code PacketType.setup) _ _ (recv_setup-H w h) (
        if-OnOk (AtEnd H) (type == packet_type_code PacketType.accept)
          (ok (again (with_chabu w (ready w.chabu)))) _ h
          (if-OnOk (AtEnd H) (type == packet_type_code PacketType.arm) _ _ (recv_arm-H w h) (
            if-OnOk (AtEnd H) (type == packet_type_code PacketType.ping) _ _ (recv_ping-H w h) (
              if-OnOk (AtEnd H) (type == packet_type_code PacketType.pong) _ _ (recv_pong-H w h) (
                if-OnOk (AtEnd H) (type == packet_type_code PacketType.seq) _ _ (recv_seq-H w h)
                  (report_error-H protocol_pck_type w h))))))
