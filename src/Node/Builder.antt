-- ===== src/Node/Builder.antt =====
-- c/org.chabu.node/src/org/chabu: ChabuBuilder.cpp and the constructor of Chabu.cpp, which hands the
-- settings of a builder to `Chabu_Init` of the library. The members that refer to listeners are not
-- carried; no code reads them.
use chabu.Prelude.{
  ℕ, ◌+◌, ◌≡◌, refl, ◌∙◌, ap, true, false, none, some, List, [], ◌∷◌, ◌++◌, ◌≤◌, arith, length, ltb,
  not_lt→ltb, if◌then◌else◌,
}
use chabu.Prelude.Int.{ℤ, pos, ltb_ℤ}
use chabu.Run.{Run, fault, thrown, overflow_error, Returns}
use chabu.Buffer.Text.{NoZero, strnlen_lem}
use chabu.Errors.{ok_noerror, init_param_channels_range}
use chabu.State.{Channel, Priority, apn_max_length}
use chabu.World.{World, Callbacks, IsPassive, is_ok}
use chabu.Init.{Arguments, check_arguments, chabu_init, zeroed}
use chabu.Init.Check.{check_arguments-tests, first_fault, tests, chabu_init-check_arguments}

-- `struct ChabuChannelSetup`
pub record ChabuChannelSetup : Type 0 where
  pub priority : ℤ

-- `class ChabuBuilder`; a string is the list of its characters.
pub record ChabuBuilder : Type 0 where
  pub application_version : ℕ
  pub application_protocol_name : List ℕ
  pub recv_packet_size : ℤ
  pub priority_count : ℤ
  pub channels : List ChabuChannelSetup

-- The constructor.
unfoldable pub new_builder : ℕ → List ℕ → ChabuBuilder
new_builder version name = record {
  application_version = version;
  application_protocol_name = name;
  recv_packet_size = pos 0x100;
  priority_count = pos 0;
  channels = [];
}

-- `setRecvPacketSize` and `addChannel`, which leave the builder as it is.
unfoldable pub set_recv_packet_size : ChabuBuilder → ℤ → ChabuBuilder
set_recv_packet_size b size = b

unfoldable pub add_channel : ChabuBuilder → (channel_id priority : ℤ) → ChabuBuilder
add_channel b channel_id priority = b

-- The callbacks that the constructor of `Chabu` registers. The first errors reach them before the library
-- knows the object that they belong to; they have no body that uses it. The library calls the functions of a channel
-- only where the channel was configured, which no code of the node does.
abbrev pub node_callbacks : Callbacks (Unit {0})
node_callbacks = record {
  error_function = λ e w. w;
  accept_connection = λ own other msg u. (ok_noerror, msg, u);
  event_notification = λ e w. w;
  network_recv_buffer = λ b u. (b, u);
  network_xmit_buffer = λ b u. (b, u);
  channel_event_notification = λ i e w. w;
  channel_get_xmit_buffer = λ i n u. (none, u);
  channel_get_recv_buffer = λ i n u. (none, u);
}

-- What `Chabu_Init` is given. The two arrays come from `new`, with any content.
abbrev pub arguments : ChabuBuilder → (ℕ → Channel) → (ℕ → Priority) → Arguments
arguments b channels priorities = record {
  application_version = b.application_version;
  application_name = some (b.application_protocol_name ++ (0 ∷ []));
  receive_packet_size = b.recv_packet_size;
  has_channels = true;
  channels = channels;
  channel_count = pos (length b.channels);
  has_priorities = true;
  priorities = priorities;
  priority_count = b.priority_count;
  has_error_function = true;
  has_accept_connection = true;
  has_event_notification = true;
  has_network_recv_buffer = true;
  has_network_xmit_buffer = true;
}

-- `build`, with the constructor of `Chabu`.
unfoldable pub build : ChabuBuilder → (ℕ → Channel) → (ℕ → Priority) → Run (World (Unit {0}))
unfolding chabu_init
build b channels priorities =
    if ltb 1000 (length b.channels)
    then fault (thrown overflow_error)
    else if ltb_ℤ (pos 1000) b.priority_count
    then fault (thrown overflow_error)
    else chabu_init node_callbacks (arguments b channels priorities) tt

-- `builderStart` of network/SessionCtrl.cpp, which does not look at the number of priorities, and
-- `builderAddChannel` for one channel after the other.
unfoldable pub builder_start :
    (version : ℕ) (name : List ℕ) (recv_packet_size priority_count : ℤ) → ChabuBuilder
unfolding new_builder set_recv_packet_size
builder_start version name recv_packet_size priority_count =
    set_recv_packet_size (new_builder version name) recv_packet_size

unfoldable pub builder_add_channels : ChabuBuilder → List (ℤ × ℤ) → ChabuBuilder
unfolding add_channel
builder_add_channels b [] = b
builder_add_channels b ((i, p) ∷ rest) = builder_add_channels (add_channel b i p) rest

node-IsPassive : IsPassive node_callbacks
node-IsPassive = record { on_error = λ e w. refl; on_event = λ e w. refl }

builder_add_channels_lem : (b : ChabuBuilder) (s : List (ℤ × ℤ)) → builder_add_channels b s ≡ b
unfolding builder_add_channels add_channel
builder_add_channels_lem b [] = refl
builder_add_channels_lem b ((i, p) ∷ rest) = builder_add_channels_lem b rest

-- Whatever packet size and number of priorities the test director asks for and whatever channels it
-- adds, a node that is built with a name of at most `apn_max_length` characters, none of them a zero,
-- ends with the error INIT_PARAM_CHANNELS_RANGE: the builder keeps none of the channels, and the
-- library refuses to start without one.
pub build-builder_add_channels :
    (version : ℕ) (name : List ℕ) (recv_packet_size priority_count : ℤ) (s : List (ℤ × ℤ))
    (channels : ℕ → Channel) (priorities : ℕ → Priority)
    → NoZero name
    → length name ≤ apn_max_length
    → Returns
        (λ w. w.chabu.last_error ≡ init_param_channels_range)
        (build
          (builder_add_channels (builder_start version name recv_packet_size priority_count) s)
          channels
          priorities)
unfolding build builder_start new_builder set_recv_packet_size chabu_init
build-builder_add_channels version name recv_packet_size priority_count s channels priorities nz
      short =
    let b = new_builder version name in
    let a = arguments b channels priorities in
    let n = length name in
    let w : World (Unit {0}) = record {
      chabu = record (zeroed channels priorities) { info = true };
      app = tt;
    } in
    let w' = check_arguments node_callbacks a n w in
    let fits : ltb apn_max_length n ≡ false = not_lt→ltb apn_max_length n (omega (arith, short)) in
    let first : w'.chabu.last_error ≡ first_fault (tests a n) =
      check_arguments-tests node_callbacks node-IsPassive a n w refl in
    let error : w'.chabu.last_error ≡ init_param_channels_range = first ∙ rw fits in
    (
      w',
      ap (λ x. build x channels priorities) (builder_add_channels_lem b s)
          ∙ chabu_init-check_arguments node_callbacks node-IsPassive a n tt refl
              (strnlen_lem name [] (apn_max_length + 1) nz (omega (arith, short))) (ap is_ok error),
      error,
    )
