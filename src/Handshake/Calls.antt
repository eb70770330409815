-- ===== src/Handshake/Calls.antt =====
-- The calls of the application (c/org.chabu/src/ChabuChannel.c, Chabu.c) and the order of the handshake.
use chabu.Prelude.{Bool, true, ℕ, ◌+◌, ◌%◌, ◌^◌, ◌≡◌, true, Option, none, some, ltb, ◌==◌}
use chabu.Prelude.Int.{ℤ, pos, negsuc}
use chabu.Run.{ok, OnOk, OnOk_at, bind-OnOk, if-OnOk}
use chabu.Buffer.{ByteBuffer}
use chabu.Errors.{parameter, ping_in_progress}
use chabu.State.{Chabu, Channel, XmitState, network_register_write_request, set_channel}
use chabu.World.{World, Callbacks, with_chabu, put_channel, report_error}
use chabu.Priority.{ctrl, seq_data, set_request_data, set_request_ctrl, set_request_ctrl_arm}
use chabu.Xmit.Pending.{start_ping, set_pong_data}
use chabu.Recv.Loop.{handle_network}
use chabu.Channel.{
  get_checked_channel_id, of_int64, request_data_if_armed, set_xmit_limit, set_xmit_limit_of,
  add_xmit_limit, add_xmit_limit_of, set_recv_limit, set_recv_limit_of, add_recv_limit,
  add_recv_limit_of,
}
use chabu.Handshake.{Holds, Keeps-Holds, IsMindful, if_holds, set_request_of-Holds}
use chabu.Handshake.Read.{report_error-H}

-- What the application calls after `Chabu_Init`, in any order.
pub data Calls {U : Type 0} (cb : Callbacks U) (w0 : World U) : World U → Type 0 where
  begin : Calls cb w0 w0
  network :
      {w w' : World U} (rounds : ℕ)
      → Calls cb w0 w
      → handle_network cb rounds w ≡ ok w'
      → Calls cb w0 w'
  xmit_limit_set :
      {w w' : World U} (i limit : ℤ)
      → Calls cb w0 w
      → set_xmit_limit cb w i limit ≡ ok w'
      → Calls cb w0 w'
  xmit_limit_added :
      {w w' : World U} (i added : ℤ)
      → Calls cb w0 w
      → add_xmit_limit cb w i added ≡ ok w'
      → Calls cb w0 w'
  recv_limit_set :
      {w w' : World U} (i limit : ℤ)
      → Calls cb w0 w
      → set_recv_limit cb w i limit ≡ ok w'
      → Calls cb w0 w'
  recv_limit_added :
      {w w' : World U} (i added : ℤ)
      → Calls cb w0 w
      → add_recv_limit cb w i added ≡ ok w'
      → Calls cb w0 w'
  ping_started :
      {w : World U} (ping pong : Option ByteBuffer)
      → Calls cb w0 w
      → Calls cb w0 (start_ping cb w ping pong)
  pong_set : {w : World U} (b : ByteBuffer) → Calls cb w0 w → Calls cb w0 (set_pong_data cb w b)

module _ {U : Type 0} (cb : Callbacks U) (m : IsMindful cb) (P : XmitState → Bool → Type 0)
    (learn : (s : XmitState) (b : Bool) → P s b → P s true) where
  abbrev Hw : World U → Type 0
  Hw w = Holds P w.chabu

  report-H : (w : World U) → Hw w → Hw (report_error cb parameter w)
  report-H = report_error-H cb m P learn parameter

  checked-H : (w : World U) (i : ℤ) → Hw w → Hw (get_checked_channel_id cb w i).1
  unfolding get_checked_channel_id
  checked-H w (negsuc n) h = report-H w h
  checked-H w (pos n) h =
      if_holds (λ (o, w). Hw w) (ltb n w.chabu.channel_count) (some n, w)
        (none, report_error cb parameter w) h (report-H w h)

  request_data_if_armed-H : (w : World U) (i : ℕ) → Hw w → OnOk Hw (request_data_if_armed cb w i)
  unfolding request_data_if_armed set_request_data
  request_data_if_armed-H w i h =
      if-OnOk Hw ((w.chabu.channels i).xmit_arm == (w.chabu.channels i).xmit_seq) _ _ h (
        bind-OnOk (Holds P) Hw (set_request_data w.chabu i) _
          (set_request_of-Holds P seq_data w.chabu i h)
          (λ c g. Keeps-Holds P (with_chabu w c) _ (m.on_event network_register_write_request _) g))

  set_xmit_limit-H :
      (r : Option ℕ × World U) (limit : ℤ) → Hw r.1 → OnOk Hw (set_xmit_limit_of cb r limit)
  unfolding set_xmit_limit_of
  set_xmit_limit-H (none, w) limit h = h
  set_xmit_limit-H (some i, w) limit h =
      if-OnOk Hw (ltb (of_int64 limit) (w.chabu.channels i).xmit_limit) _ _ (report-H w h) (
        request_data_if_armed-H
          (put_channel w i (record (w.chabu.channels i) { xmit_limit = of_int64 limit })) i h)

  add_xmit_limit-H :
      (r : Option ℕ × World U) (added : ℤ) → Hw r.1 → OnOk Hw (add_xmit_limit_of cb r added)
  unfolding add_xmit_limit_of
  add_xmit_limit-H (none, w) added h = h
  add_xmit_limit-H (some i, w) (negsuc n) h = report-H w h
  add_xmit_limit-H (some i, w) (pos n) h =
      let limit = ((w.chabu.channels i).xmit_limit + n) % 2 ^ 64 in
      if-OnOk Hw (n == 0) _ _ h (
        request_data_if_armed-H
          (put_channel w i (record (w.chabu.channels i) { xmit_limit = limit })) i h)

  set_recv_limit-H :
      (r : Option ℕ × World U) (limit : ℤ) → Hw r.1 → OnOk Hw (set_recv_limit_of cb r limit)
  unfolding set_recv_limit_of
  set_recv_limit-H (none, w) limit h = h
  set_recv_limit-H (some i, w) limit h = h

  add_recv_limit-H :
      (r : Option ℕ × World U) (added : ℤ) → Hw r.1 → OnOk Hw (add_recv_limit_of cb r added)
  unfolding add_recv_limit_of set_request_ctrl_arm set_request_ctrl set_channel
  add_recv_limit-H (none, w) added h = h
  add_recv_limit-H (some i, w) (negsuc n) h = report-H w h
  add_recv_limit-H (some i, w) (pos n) h =
      let ch = w.chabu.channels i in
      let ch' : Channel = record ch {
        recv_arm = (ch.recv_arm + n) % 2 ^ 32;
        recv_limit = (ch.recv_limit + n) % 2 ^ 64;
      } in
      let w' : World U = put_channel w i ch' in
      let asking : Chabu =
        set_channel w'.chabu i (record (w'.chabu.channels i) { xmit_request_ctrl_arm = true }) in
      if-OnOk Hw (n == 0) _ _ h (
        bind-OnOk (Holds P) Hw (set_request_ctrl_arm w'.chabu i) _
          (set_request_of-Holds P ctrl asking i h)
          (λ c g.
            Keeps-Holds P (with_chabu w' c) _ (m.on_event network_register_write_request _) g))

  start_ping-H :
      (w : World U) (ping pong : Option ByteBuffer) → Hw w → Hw (start_ping cb w ping pong)
  unfolding start_ping
  start_ping-H w ping pong h =
      let w' : World U = with_chabu w (record (w.chabu) {
        xmit_ping_ping_data = ping;
        xmit_ping_pong_data = pong;
        xmit_ping_request = true;
        xmit_ping_in_progress = true;
      }) in
      if_holds Hw w.chabu.xmit_ping_in_progress (report_error cb ping_in_progress w)
        (cb.event_notification network_register_write_request w')
        (report_error-H cb m P learn ping_in_progress w h)
        (Keeps-Holds P w' _ (m.on_event network_register_write_request w') h)

  -- What `Chabu_HandleNetwork` keeps, the other calls keep as well.
  pub Calls-Holds :
      ((rounds : ℕ) (w : World U) → Hw w → OnOk Hw (handle_network cb rounds w))
      → {w0 w : World U} → Hw w0
      → Calls cb w0 w
      → Hw w
  unfolding set_xmit_limit add_xmit_limit set_recv_limit add_recv_limit set_pong_data
  Calls-Holds net h begin = h
  Calls-Holds net {w = w} h (network {w = w1} rounds r e) =
      OnOk_at Hw (handle_network cb rounds w1) w (net rounds w1 (Calls-Holds net h r)) e
  Calls-Holds net {w = w} h (xmit_limit_set {w = w1} i limit r e) =
      OnOk_at Hw (set_xmit_limit cb w1 i limit) w
        (set_xmit_limit-H _ limit (checked-H w1 i (Calls-Holds net h r))) e
  Calls-Holds net {w = w} h (xmit_limit_added {w = w1} i added r e) =
      OnOk_at Hw (add_xmit_limit cb w1 i added) w
        (add_xmit_limit-H _ added (checked-H w1 i (Calls-Holds net h r))) e
  Calls-Holds net {w = w} h (recv_limit_set {w = w1} i limit r e) =
      OnOk_at Hw (set_recv_limit cb w1 i limit) w
        (set_recv_limit-H _ limit (checked-H w1 i (Calls-Holds net h r))) e
  Calls-Holds net {w = w} h (recv_limit_added {w = w1} i added r e) =
      OnOk_at Hw (add_recv_limit cb w1 i added) w
        (add_recv_limit-H _ added (checked-H w1 i (Calls-Holds net h r))) e
  Calls-Holds net h (ping_started {w} ping pong r) = start_ping-H w ping pong (Calls-Holds net h r)
  Calls-Holds net h (pong_set {w} b r) = Calls-Holds net h r
