-- ===== src/Tests/Link.antt =====
-- A run of both ends during a payload: c/org.chabu/src/Chabu.c. The near end sends seven bytes, the
-- far end gets two of them in its first pass and two in its second.
use chabu.Prelude.{
  ℕ, ◌-◌, ◌≤◌, ◌≡◌, refl, Bool, false, some, none, List, [], ◌∷◌, ◌++◌, arith, length, min, take,
  drop, length-take,
}
use chabu.Prelude.Int.{pos, ◌-ℤ◌}
use chabu.Run.{Run, ok, fault}
use chabu.Recv.Packet.{Step, stop}
use chabu.Recv.Whole.{state_of}
use chabu.Buffer.{ByteBuffer, has_remaining}
use chabu.Errors.{ok_noerror}
use chabu.State.{RecvState}
use chabu.World.{World, Callbacks}
use chabu.Xmit.Pending.{write_pending_xmit_data}
use chabu.Recv.Loop.{read_pass}
use chabu.Recv.Source.{IsSource}
use chabu.Link.{send, receive, Reach, start, later}
use chabu.Link.Delivery.{Begun, Delivered, Reach-Delivered}
use chabu.Tests.Sample.{sample_chabu, holding}
use chabu.Tests.Delivery.{Log, sent, given, slow, slow-IsCarrier, seven_left}
use chabu.Tests.Arrival.{with_bytes, with_bytes-Writes}

-- What is still on its way, and what has arrived.
abbrev Pipe : Type 0
Pipe = List ℕ × List ℕ

abbrev arrived : Pipe → List ℕ
arrived u = u.1

abbrev some_of : ByteBuffer → Pipe → List ℕ
some_of b u = take (min 2 (b.limit - b.position)) u.0

abbrev trickling : Callbacks Pipe
trickling = record {
  error_function = λ e w. w;
  accept_connection = λ own other msg u. (ok_noerror, msg, u);
  event_notification = λ e w. w;
  network_recv_buffer =
      λ b u. (with_bytes b (some_of b u), (drop (length (some_of b u)) u.0, u.1 ++ some_of b u));
  network_xmit_buffer = λ b u. (b, u);
  channel_event_notification = λ i e w. w;
  channel_get_xmit_buffer = λ i n u. (none, u);
  channel_get_recv_buffer = λ i n u. (some (holding (1 ∷ 2 ∷ 3 ∷ 4 ∷ [])), u);
}

some_fit : (b : ByteBuffer) (u : Pipe) → length (some_of b u) ≤ b.limit - b.position
some_fit b u = omega (arith, length-take (min 2 (b.limit - b.position)) u.0)

trickling-IsSource : IsSource trickling arrived
trickling-IsSource = record {
  fills = λ b u v. record {
    bytes = some_of b u;
    bound = some_fit b u;
    writes = with_bytes-Writes b (some_of b u) v (some_fit b u);
    came = refl;
  };
  offers = λ i wanted u h. record {
    buffer = holding (1 ∷ 2 ∷ 3 ∷ 4 ∷ []);
    offered = refl;
    valid = record { ordered = omega arith; inside = omega arith };
    room = omega arith;
    same = refl;
  };
  notes = λ i e w. (refl, refl);
}

-- The header is out.
abbrev near : World Log
near = record {
  chabu = record (seven_left.chabu) {
    xmit_buffer = record (seven_left.chabu.xmit_buffer) { position = 20; limit = 20 };
  };
  app = ([], []);
}

abbrev far : World Pipe
far = record {
  chabu = record (sample_chabu (9 ∷ 9 ∷ [])) {
    recv_seq_channel = some 1;
    recv_seq_remaining_payload = 7;
    recv_seq_remaining_padding = pos 1;
    recv_seq_buffer_user = none;
    recv_state = RecvState.seq_payload;
  };
  app = (11 ∷ 22 ∷ 33 ∷ 11 ∷ 22 ∷ 33 ∷ 11 ∷ 0 ∷ [], []);
}

begun : Begun slow trickling sent given arrived 7 near far
begun = record {
  to_send = refl;
  to_come = refl;
  same = refl;
  can_send = record {
    i = 1;
    q = 1;
    channel = refl;
    padding = refl;
    room = omega arith;
    ready = tt;
  };
  can_receive = record {
    i = 1;
    q = 1;
    channel = refl;
    padding = refl;
    room = omega arith;
    filling = tt;
  };
}

-- The state behind a run, where it ends well.
abbrev sent_by : Run (Bool × World Log) → World Log
sent_by (ok r) = r.1
sent_by (fault e) = near

abbrev said_by : Run (Bool × World Log) → Bool
said_by (ok r) = r.0
said_by (fault e) = false

abbrev read_by : Run (Step (World Pipe)) → Step (World Pipe)
read_by (ok s) = s
read_by (fault e) = stop far

abbrev near_then : World Log
near_then = sent_by (write_pending_xmit_data slow near)

sends :
    write_pending_xmit_data slow near ≡ ok (said_by (write_pending_xmit_data slow near), near_then)
unfolding write_pending_xmit_data ◌-ℤ◌
sends = refl

abbrev far_then : Step (World Pipe)
far_then = read_by (read_pass trickling far)

reads : read_pass trickling far ≡ ok far_then
unfolding read_pass ◌-ℤ◌
reads = refl

late :
    arrived (state_of trickling arrived far_then).app ++ (33 ∷ 11 ∷ 22 ∷ 33 ∷ 11 ∷ 0 ∷ [])
    ≡ sent near_then.app
unfolding write_pending_xmit_data read_pass ◌-ℤ◌
late = refl

both : Reach slow trickling sent arrived near far near_then (state_of trickling arrived far_then)
unfolding has_remaining
both =
    later (later start (send refl refl sends))
      (receive (33 ∷ 11 ∷ 22 ∷ 33 ∷ 11 ∷ 0 ∷ []) refl reads late)

Reach-Delivered_example :
    Delivered slow trickling sent given arrived 7 near near_then far
      (state_of trickling arrived far_then)
Reach-Delivered_example =
    Reach-Delivered slow trickling sent given arrived slow-IsCarrier trickling-IsSource 7 near far
      begun both
