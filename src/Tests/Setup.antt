-- ===== src/Tests/Setup.antt =====
-- Runs of ChabuInit.c, and of the SETUP packet from one end to the other.
use chabu.Prelude.{
  ℕ, ◌≡◌, refl, sym, true, false, some, List, [], ◌∷◌, ◌++◌, arith, drop, replicate, append-nil,
}
use chabu.Prelude.Int.{pos}
use chabu.Run.{ok, Returns}
use chabu.Buffer.{ByteBuffer, align_up4, put_byte}
use chabu.Buffer.Write.{written}
use chabu.Init.{activate, Arguments, put_setup, check_arguments}
use chabu.Init.Fresh.{Activated, activate-Activated}
use chabu.World.{Callbacks, with_chabu}
use chabu.Init.Check.{faults, FirstFault, check_arguments-FirstFault}
use chabu.Init.Setup.{setup_bytes}
use chabu.Recv.Packet.{recv_setup}
use chabu.Recv.Setup.{Announced, recv_setup-put_setup}
use chabu.Tests.Sample.{
  quiet, quiet-IsPassive, sample_world, holding, sample_channel, sample_chabu, sample_priority,
}

abbrev name : List ℕ
name = b'A' ∷ b'B' ∷ []

abbrev sample_arguments : Arguments
sample_arguments = record {
  application_version = 3;
  application_name = some (name ++ (0 ∷ []));
  receive_packet_size = pos 0x100;
  has_channels = true;
  channels = sample_channel;
  channel_count = pos 2;
  has_priorities = true;
  priorities = sample_priority;
  priority_count = pos 1;
  has_error_function = true;
  has_accept_connection = true;
  has_event_notification = true;
  has_network_recv_buffer = true;
  has_network_xmit_buffer = true;
}

-- The transmit buffer with the SETUP packet.
abbrev laid : ByteBuffer
laid = record (holding (replicate 64 0)) {
  position = 40;
  memory = setup_bytes 0x28 sample_arguments name ++ replicate 24 0;
}

laid_out : put_setup (holding (replicate 64 0)) 0x28 sample_arguments (name ++ (0 ∷ [])) ≡ ok laid
unfolding put_setup align_up4 put_byte
laid_out = refl

recv_setup-put_setup_example :
    Returns (Announced sample_arguments name) (recv_setup (sample_chabu (drop 8 (written laid))))
unfolding align_up4
recv_setup-put_setup_example =
    recv_setup-put_setup (holding (replicate 64 0)) laid 0x28 sample_arguments name [] []
      (sample_chabu (drop 8 (written laid))) ((λ e. ground arith), ((λ e. ground arith), tt))
      (omega arith) (omega arith) (omega arith) refl (omega arith) laid_out (sym (append-nil _))

-- A packet size that is too small, and no function to write to the network.
abbrev bad_arguments : Arguments
bad_arguments = record sample_arguments {
  receive_packet_size = pos 0x10;
  has_network_xmit_buffer = false;
}

check_arguments-FirstFault_example :
    FirstFault
      (faults bad_arguments 2)
      (check_arguments quiet bad_arguments 2 (sample_world [])).chabu.last_error
check_arguments-FirstFault_example =
    check_arguments-FirstFault quiet quiet-IsPassive bad_arguments 2 (sample_world []) refl

-- An application that puts every channel on the first level.
abbrev configuring : Callbacks (Unit {0})
configuring = record quiet {
  event_notification = λ e w. with_chabu w (record (w.chabu) {
    channels = λ i. record (w.chabu.channels i) { priority = pos 0; user = true };
  });
}

activate-Activated_example :
    Returns
      (Activated 2 1 (setup_bytes 0x28 sample_arguments name))
      (activate configuring sample_arguments (name ++ (0 ∷ [])) (sample_world []))
unfolding align_up4
activate-Activated_example =
    activate-Activated configuring sample_arguments name [] (sample_world [])
      ((λ e. ground arith), ((λ e. ground arith), tt)) (omega arith)
      (record { rest = refl; channel = λ i. refl; priority = λ i h. (0, refl, omega arith) })
