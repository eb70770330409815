-- ===== src/Tests/Handshake.antt =====
-- A run of calls before the SETUP packet of the peer is in: c/org.chabu/src/Chabu.c. The application
-- raises a limit, starts a ping and has the network handled, on which nothing has come.
use chabu.Prelude.{◌≡◌, refl, false, none, []}
use chabu.Prelude.Int.{pos, ◌-ℤ◌}
use chabu.Run.{Run, ok, fault}
use chabu.State.{XmitState}
use chabu.World.{World}
use chabu.Xmit.Prepare.{prepare_next_xmit_state}
use chabu.Xmit.Pending.{start_ping}
use chabu.Channel.{add_xmit_limit}
use chabu.Recv.Loop.{handle_network}
use chabu.Handshake.{Keeps, IsMindful}
use chabu.Handshake.Calls.{Calls, begin, network, xmit_limit_added, ping_started}
use chabu.Handshake.Silence.{Calls-setup, Calls-abort}
use chabu.Tests.Sample.{quiet, sample_world}

keeps : (w : World (Unit {0})) → Keeps w w
keeps w = record { state = refl; remote = refl }

quiet-IsMindful : IsMindful quiet
quiet-IsMindful = record {
  on_error = λ e w. keeps w;
  on_event = λ e w. keeps w;
  on_channel_event = λ i e w. keeps w;
}

-- The state behind a run, where it ends well.
abbrev state_by : Run (World (Unit {0})) → World (Unit {0})
state_by (ok w) = w
state_by (fault e) = sample_world []

abbrev raised : World (Unit {0})
raised = state_by (add_xmit_limit quiet (sample_world []) (pos 1) (pos 50))

raised_ok : add_xmit_limit quiet (sample_world []) (pos 1) (pos 50) ≡ ok raised
unfolding add_xmit_limit
raised_ok = refl

abbrev pinged : World (Unit {0})
pinged = start_ping quiet raised none none

abbrev handled : World (Unit {0})
handled = state_by (handle_network quiet 3 pinged)

handled_ok : handle_network quiet 3 pinged ≡ ok handled
unfolding handle_network start_ping add_xmit_limit ◌-ℤ◌
handled_ok = refl

run : Calls quiet (sample_world []) handled
run =
    network 3 (ping_started none none (xmit_limit_added (pos 1) (pos 50) begin raised_ok))
      handled_ok

silent : handled.chabu.connection_info_remote.has_content ≡ false
unfolding handle_network start_ping add_xmit_limit ◌-ℤ◌
silent = refl

Calls-setup_example :
    (handled.chabu.xmit_state ≡ XmitState.setup)
    × (prepare_next_xmit_state quiet handled ≡ ok (false, handled))
Calls-setup_example = Calls-setup quiet quiet-IsMindful refl run silent

-- The transmit half has aborted.
abbrev aborted : World (Unit {0})
aborted = record (sample_world []) {
  chabu = record ((sample_world []).chabu) { xmit_state = XmitState.abort };
}

abbrev handled_late : World (Unit {0})
handled_late = state_by (handle_network quiet 3 aborted)

late_ok : handle_network quiet 3 aborted ≡ ok handled_late
unfolding handle_network
late_ok = refl

Calls-abort_example :
    (handled_late.chabu.xmit_state ≡ XmitState.abort)
    × (prepare_next_xmit_state quiet handled_late ≡ ok (false, handled_late))
Calls-abort_example = Calls-abort quiet quiet-IsMindful refl (network 3 begin late_ok)
