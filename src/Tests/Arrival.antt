-- ===== src/Tests/Arrival.antt =====
-- Runs of a payload on its way in: c/org.chabu/src/Chabu.c. The network delivers two bytes at a time,
-- the application hands out a buffer of four.
use chabu.Prelude.{
  ℕ, ◌+◌, ◌-◌, ◌<◌, ◌≤◌, ◌≡◌, refl, none, some, List, [], ◌∷◌, ◌++◌, arith, min, take, drop, length,
  length-take,
}
use chabu.Run.{ok, Returns}
use chabu.Buffer.{ByteBuffer}
use chabu.Buffer.Bytes.{take-splice, length-splice}
use chabu.Buffer.Xfer.{IsValid}
use chabu.Buffer.Write.{Writes}
use chabu.Errors.{ok_noerror}
use chabu.State.{RecvState}
use chabu.World.{World, Callbacks}
use chabu.Recv.Packet.{again}
use chabu.Recv.Payload.{recv_payload, recv_seq_payload}
use chabu.Prelude.Int.{pos}
use chabu.Recv.Whole.{Whole, state_of, recv_seq_payload-Whole}
use chabu.Recv.Source.{Filled, IsSource}
use chabu.Recv.Fill.{Target}
use chabu.Recv.Received.{Outcome}
use chabu.Recv.Arrive.{recv_payload-Outcome}
use chabu.Tests.Sample.{sample_chabu, holding}

abbrev drip : List ℕ
drip = 77 ∷ 88 ∷ []

abbrev two_bytes : ByteBuffer → List ℕ
two_bytes b = take (min 2 (b.limit - b.position)) drip

abbrev pub with_bytes : ByteBuffer → List ℕ → ByteBuffer
with_bytes b bytes = record b {
  memory = take b.position b.memory ++ (bytes ++ drop (b.position + length bytes) b.memory);
  position = b.position + length bytes;
}

abbrev dripping : Callbacks (List ℕ)
dripping = record {
  error_function = λ e w. w;
  accept_connection = λ own other msg u. (ok_noerror, msg, u);
  event_notification = λ e w. w;
  network_recv_buffer = λ b u. (with_bytes b (two_bytes b), u ++ two_bytes b);
  network_xmit_buffer = λ b u. (b, u);
  channel_event_notification = λ i e w. w;
  channel_get_xmit_buffer = λ i n u. (none, u);
  channel_get_recv_buffer = λ i n u. (some (holding (1 ∷ 2 ∷ 3 ∷ 4 ∷ [])), u);
}

two_bytes_fit : (b : ByteBuffer) → length (two_bytes b) ≤ b.limit - b.position
two_bytes_fit b = omega (arith, length-take (min 2 (b.limit - b.position)) drip)

pub with_bytes-Writes :
    (b : ByteBuffer) (bytes : List ℕ)
    → IsValid b
    → length bytes ≤ b.limit - b.position
    → Writes b bytes (with_bytes b bytes)
with_bytes-Writes b bytes v fits = record {
  place = refl;
  content =
      take-splice b.position (length bytes) bytes b.memory refl
        (omega (arith, fits, v.ordered, v.inside));
  room =
      length-splice b.position (length bytes) bytes b.memory refl
        (omega (arith, fits, v.ordered, v.inside));
  same_limit = refl;
  same_capacity = refl;
}

dripping-Filled :
    (b : ByteBuffer) (u : List ℕ)
    → IsValid b
    → Filled dripping (λ u. u) b u (with_bytes b (two_bytes b)) (u ++ two_bytes b)
dripping-Filled b u v = record {
  bytes = two_bytes b;
  bound = two_bytes_fit b;
  writes = with_bytes-Writes b (two_bytes b) v (two_bytes_fit b);
  came = refl;
}

dripping-IsSource : IsSource dripping (λ u. u)
dripping-IsSource = record {
  fills = dripping-Filled;
  offers = λ i wanted u h. record {
    buffer = holding (1 ∷ 2 ∷ 3 ∷ 4 ∷ []);
    offered = refl;
    valid = record { ordered = omega arith; inside = omega arith };
    room = omega arith;
    same = refl;
  };
  notes = λ i e w. (refl, refl);
}

-- Three bytes of a payload are still to come.
abbrev three_to_come : World (List ℕ)
three_to_come = record {
  chabu = record (sample_chabu (9 ∷ 9 ∷ [])) {
    recv_seq_channel = some 1;
    recv_seq_remaining_payload = 3;
    recv_seq_remaining_padding = pos 1;
    recv_seq_buffer_user = none;
    recv_state = RecvState.seq_payload;
  };
  app = [];
}

abbrev to_come : ℕ
to_come = 3

recv_payload-Outcome_example :
    (to_come ≡ 0 → recv_payload dripping three_to_come ≡ ok (again three_to_come))
    × (0 < to_come
        → (u : ByteBuffer) × (b : ByteBuffer) × Target dripping (λ u. u) three_to_come u b
          × Returns
              (Outcome dripping (λ u. u) three_to_come u b)
              (recv_payload dripping three_to_come))
recv_payload-Outcome_example =
    recv_payload-Outcome dripping (λ u. u) dripping-IsSource three_to_come 1 refl tt

recv_seq_payload-Whole_example :
    Returns
      (λ s. Whole dripping (λ u. u) three_to_come 1 (state_of dripping (λ u. u) s))
      (recv_seq_payload dripping three_to_come)
recv_seq_payload-Whole_example =
    recv_seq_payload-Whole dripping (λ u. u) dripping-IsSource three_to_come 1 1 refl tt refl
      (omega arith)
