-- ===== src/Tests/Sample.antt =====
-- The sample states that the runs in the tests start from: two channels on one priority level, and
-- an application that only takes note of what happens.
use chabu.Prelude.{
  arith, ℕ, ◌==◌, if◌then◌else◌, refl, true, false, none, some, List, [], length, replicate,
}
use chabu.Prelude.Int.{pos}
use chabu.Buffer.{ByteBuffer}
use chabu.Errors.{ok_noerror}
use chabu.State.{Chabu, Channel, Priority, PriorityList}
use chabu.Priority.{Kind, ctrl, seq_data, Entries}
use chabu.Priority.Level.{HasRequests}
use chabu.Priority.Stale.{fresh_list}
use chabu.World.{World, Callbacks, IsPassive}
use chabu.Init.{zeroed}

abbrev pub quiet : Callbacks (Unit {0})
quiet = record {
  error_function = λ e w. w;
  accept_connection = λ own other msg u. (ok_noerror, msg, u);
  event_notification = λ e w. w;
  network_recv_buffer = λ b u. (b, u);
  network_xmit_buffer = λ b u. (b, u);
  channel_event_notification = λ i e w. w;
  channel_get_xmit_buffer = λ i n u. (none, u);
  channel_get_recv_buffer = λ i n u. (none, u);
}

pub quiet-IsPassive : IsPassive quiet
quiet-IsPassive = record { on_error = λ e w. refl; on_event = λ e w. refl }

-- A buffer that holds exactly these bytes, all of them unread.
abbrev pub holding : List ℕ → ByteBuffer
holding bytes = record {
  position = 0;
  limit = length bytes;
  capacity = length bytes;
  memory = bytes;
}

-- 100 bytes were sent; the application has released 500 and the peer has armed 300. 40 were received.
abbrev pub sample_channel : ℕ → Channel
sample_channel i = record {
  channel_id = i;
  priority = pos 0;
  user = true;
  xmit_seq = 100;
  xmit_arm = 300;
  xmit_limit = 500;
  xmit_request_ctrl_arm = false;
  xmit_request_ctrl_reset = false;
  xmit_request_ctrl_davail = false;
  xmit_request_ctrl = record { next = none; ch = i };
  xmit_request_data = record { next = none; ch = i };
  recv_seq = 100;
  recv_arm = 200;
  recv_limit = 200;
  recv_request = false;
}

abbrev pub sample_priority : ℕ → Priority
sample_priority i = record { ctrl = fresh_list; seq_data = fresh_list }

-- A connection whose receive buffer holds `bytes`.
abbrev pub sample_chabu : List ℕ → Chabu
sample_chabu bytes = record (zeroed sample_channel sample_priority) {
  info = true;
  channel_count = 2;
  priority_count = 1;
  receive_packet_size = 0x100;
  xmit_buffer = holding (replicate 64 0);
  recv_buffer = holding bytes;
}

abbrev pub sample_world : List ℕ → World (Unit {0})
sample_world bytes = record { chabu = sample_chabu bytes; app = tt }

-- Nothing asks for its turn yet.
pub sample-HasRequests : (k : Kind) (bytes : List ℕ) → HasRequests k (sample_chabu bytes) 0 []
sample-HasRequests ctrl bytes = record {
  exists = omega arith;
  requests = record {
    linked = record { own = λ i. refl; numbered = λ i. refl };
    queue = tt;
    chain = refl;
  };
}
sample-HasRequests seq_data bytes = record {
  exists = omega arith;
  requests = record {
    linked = record { own = λ i. refl; numbered = λ i. refl };
    queue = tt;
    chain = refl;
  };
}

-- A list in which the channels 5, 2 and 7 ask for their turn, 5 was served last.
abbrev pub queued_entries : Entries
queued_entries i =
    if i == 5
    then record { next = some 2; ch = i }
    else (if i == 2 then record { next = some 7; ch = i } else record { next = none; ch = i })

abbrev pub queued_list : PriorityList
queued_list = record { request = some 5; last_selected_channel_id = pos 5 }

-- A connection whose level 1 has these data requests.
abbrev pub queued_chabu : Chabu
queued_chabu =
    record (zeroed (λ i. record (sample_channel i) { xmit_request_data = queued_entries i })
      (λ p. record (sample_priority p) { seq_data = if p == 1 then queued_list else fresh_list })) {
        channel_count = 8;
        priority_count = 2;
      }
