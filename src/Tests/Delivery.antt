-- ===== src/Tests/Delivery.antt =====
-- Runs of a payload on its way out: c/org.chabu/src/Chabu.c. The network takes two bytes of a buffer
-- at a time, the application hands out three at a time.
use chabu.Prelude.{ℕ, ◌+◌, ◌-◌, refl, none, some, List, [], ◌∷◌, ◌++◌, arith, min, take}
use chabu.Prelude.Int.{pos}
use chabu.Run.{Returns}
use chabu.Buffer.{ByteBuffer}
use chabu.Errors.{ok_noerror}
use chabu.State.{XmitState}
use chabu.World.{World, Callbacks}
use chabu.Xmit.Carrier.{unread, IsCarrier}
use chabu.Xmit.Rounds.{Ended, xmit_payload-Ended}
use chabu.Xmit.Written.{Written, write_seq_payload-Written}
use chabu.Xmit.Pending.{xmit_payload, write_seq_payload}
use chabu.Tests.Sample.{sample_chabu}

-- What was sent, and what was handed out.
abbrev pub Log : Type 0
Log = List ℕ × List ℕ

abbrev pub sent : Log → List ℕ
sent u = u.0

abbrev pub given : Log → List ℕ
given u = u.1

abbrev two_of : ByteBuffer → ℕ
two_of b = min 2 (b.limit - b.position)

abbrev three_bytes : ℕ → ByteBuffer
three_bytes most = record {
  position = 0;
  limit = min 3 most;
  capacity = 3;
  memory = 11 ∷ 22 ∷ 33 ∷ [];
}

abbrev pub slow : Callbacks Log
slow = record {
  error_function = λ e w. w;
  accept_connection = λ own other msg u. (ok_noerror, msg, u);
  event_notification = λ e w. w;
  network_recv_buffer = λ b u. (b, u);
  network_xmit_buffer = λ b u.
      (record b { position = b.position + two_of b }, (u.0 ++ take (two_of b) (unread b), u.1));
  channel_event_notification = λ i e w. w;
  channel_get_xmit_buffer = λ i n u. (some (three_bytes n), (u.0, u.1 ++ unread (three_bytes n)));
  channel_get_recv_buffer = λ i n u. (none, u);
}

pub slow-IsCarrier : IsCarrier slow sent given
slow-IsCarrier = record {
  takes = λ b u v. record {
    amount = two_of b;
    bound = omega arith;
    buffer = refl;
    out = refl;
    same = refl;
  };
  hands = λ i most u h. record {
    buffer = three_bytes most;
    handed = refl;
    usable = record {
      valid = record { ordered = omega arith; inside = omega arith };
      some_bytes = omega arith;
      short = omega arith;
    };
    out = refl;
    same = refl;
  };
  notes = λ i e w. (refl, refl, refl);
}

-- Seven bytes of a payload are to go, and one of padding.
abbrev pub seven_left : World Log
seven_left = record {
  chabu = record (sample_chabu []) {
    xmit_seq_channel = some 1;
    xmit_seq_remaining_payload = 7;
    xmit_seq_remaining_padding = pos 1;
    xmit_seq_buffer_user = none;
    xmit_state = XmitState.seq_payload;
  };
  app = ([], []);
}

xmit_payload-Ended_example :
    Returns (Ended slow sent given seven_left) (xmit_payload slow 8 1 seven_left)
xmit_payload-Ended_example =
    xmit_payload-Ended slow sent given slow-IsCarrier 8 1 seven_left refl (omega arith) tt

write_seq_payload-Written_example :
    Returns
      (λ (done, w'). Written slow sent given seven_left 1 done w')
      (write_seq_payload slow seven_left)
write_seq_payload-Written_example =
    write_seq_payload-Written slow sent given slow-IsCarrier seven_left 1 1 refl refl (omega arith)
      tt
