-- ===== src/Tests/Feed.antt =====
-- Runs of `handleReads` (c/org.chabu/src/Chabu.c) on a network that delivers a given list of bytes, as
-- many at a time as there is room for, and then nothing.
use chabu.Prelude.{ℕ, ◌-◌, ◌≡◌, refl, some, List, [], ◌∷◌, take, drop}
use chabu.Prelude.Int.{pos, ◌-ℤ◌}
use chabu.Run.{Run, ok, fault, out_of_bounds}
use chabu.Errors.{ok_noerror}
use chabu.State.{RecvState}
use chabu.World.{World, Callbacks}
use chabu.Recv.Loop.{handle_reads}
use chabu.Recv.Passes.{Passes}
use chabu.Tests.Sample.{sample_chabu, holding}
use chabu.Tests.Arrival.{with_bytes}

abbrev feeding : Callbacks (List ℕ)
feeding = record {
  error_function = λ e w. w;
  accept_connection = λ own other msg u. (ok_noerror, msg, u);
  event_notification = λ e w. w;
  network_recv_buffer =
      λ b u. (with_bytes b (take (b.limit - b.position) u), drop (b.limit - b.position) u);
  network_xmit_buffer = λ b u. (b, u);
  channel_event_notification = λ i e w. w;
  channel_get_xmit_buffer = λ i n u. (some (holding []), u);
  channel_get_recv_buffer = λ i n u. (some (holding (1 ∷ 2 ∷ 3 ∷ 4 ∷ [])), u);
}

-- The header of a SEQ packet of two bytes for channel 1, its payload and padding, and half of an ACCEPT.
abbrev to_read : List ℕ
to_read =
    0 ∷ 0 ∷ 0 ∷ 24 ∷ 0x77 ∷ 0x77 ∷ 0 ∷ 0xb4 ∷ 0 ∷ 0 ∷ 0 ∷ 1 ∷ 0 ∷ 0 ∷ 0 ∷ 100 ∷ 0 ∷ 0 ∷ 0 ∷ 2 ∷ 11
    ∷ 22 ∷ 0 ∷ 0 ∷ 0 ∷ 0 ∷ 0 ∷ 8 ∷ []

abbrev before : World (List ℕ)
before = record {
  chabu =
      record (sample_chabu
        (9 ∷ 9 ∷ 9 ∷ 9 ∷ 9 ∷ 9 ∷ 9 ∷ 9 ∷ 9 ∷ 9 ∷ 9 ∷ 9 ∷ 9 ∷ 9 ∷ 9 ∷ 9 ∷ 9 ∷ 9 ∷ 9 ∷ 9 ∷ [])) {
          recv_state = RecvState.ready;
          recv_seq_remaining_padding = pos 0;
        };
  app = to_read;
}

abbrev ends_at : Run (World (List ℕ)) → ℕ
ends_at (ok w) = w.chabu.recv_buffer.position
ends_at (fault out_of_bounds) = 100
ends_at (fault e) = 101

abbrev four : ℕ
four = 4

-- The half packet stays in the receive buffer.
half_packet : ends_at (handle_reads feeding 30 before) ≡ four
unfolding handle_reads ◌-ℤ◌
half_packet = refl
