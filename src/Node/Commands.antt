-- ===== src/Node/Commands.antt =====
-- c/org.chabu.node/src/network/SessionCtrl.cpp: `process` and the commands of the test director. Most of
-- them are empty in the source. The arguments of a command are taken from left to right.
use Prim.Native.Char.{code}
use Prim.Native.String.{String}
use chabu.Prelude.{ℕ, suc, Bool, Option, none, some, List, [], ◌∷◌, if◌then◌else◌}
use chabu.Prelude.Int.{ℤ, pos}
use chabu.Run.{Run, ok, fault, null_pointer, ◌>>=◌}
use chabu.Buffer.{of_int}
use chabu.State.{Channel, Priority, protocol_version_value}
use chabu.World.{World}
use chabu.Node.Builder.{ChabuBuilder, builder_start, add_channel, build}
use chabu.Node.Item.{
  Boost, Parameter, parameter_value, parameter_with_childs, no_more, with_next, res, XferItem,
  new_item, same, add_parameter, get_value_string, get_value_int,
}

-- The members of SessionCtrl that the commands change; of the listeners their number.
pub record NodeState : Type 0 where
  pub is_host_a : Bool
  pub chabu_builder : Option ChabuBuilder
  pub chabu : Option (World (Unit {0}))
  pub channel_listeners : ℕ

-- The characters of a string.
abbrev pub characters : String → List ℕ
characters String.[] = []
characters (String.◌∷◌ c s) = code c ∷ characters s

abbrev pub with_parameter : XferItem → Parameter → XferItem
with_parameter item p = record item { parameters = add_parameter item.parameters p }

-- The answer of `process` to a command that it does not know.
abbrev pub unknown_command : XferItem
unknown_command = record new_item {
  parameters =
      with_next (parameter_value "IsError" "1")
        (with_next (parameter_value "Message" "Unknown Command") no_more);
}

module _ (boost : Boost) (channels : ℕ → Channel) (priorities : ℕ → Priority) where
  unfoldable pub setup : NodeState → (directory_version host_label : String) → NodeState × XferItem
  setup n directory_version host_label = (
    record n { is_host_a = same "A" host_label },
    record new_item {
      parameters = with_next (parameter_value "Implementation" "C") (
          with_next
            (parameter_value "ChabuProtocolVersion" (boost.of_int (pos protocol_version_value)))
            no_more);
    },
  )

  unfoldable pub builder_add_channel :
      NodeState → (channel_id priority : ℤ) → Run (NodeState × XferItem)
  unfolding add_channel
  builder_add_channel n channel_id priority = elim n.chabu_builder [
    | none ↦ fault null_pointer
    | some b ↦ ok (
      record n {
        chabu_builder = some (add_channel b channel_id priority);
        channel_listeners = suc n.channel_listeners;
      },
      new_item,
    )
  ]

  unfoldable pub builder_build : NodeState → Run (NodeState × XferItem)
  unfolding build
  builder_build n = elim n.chabu_builder [
    | none ↦ fault null_pointer
    | some b ↦ build b channels priorities >>= λ w.
        ok (record n { chabu = some w; chabu_builder = none }, new_item)
  ]

  -- No channel is ever put into `channels` of `Chabu`, so there are 0 of them.
  unfoldable pub chabu_get_state : NodeState → Run (NodeState × XferItem)
  chabu_get_state n = elim n.chabu [
    | none ↦ fault null_pointer
    | some w ↦ ok (
      n,
      record new_item {
        parameters = with_next (parameter_value "channelCount" (boost.of_int (pos 0))) (
            with_next (parameter_with_childs "channel" no_more)
              (with_next (parameter_value "toString" "Chabu::toString") no_more));
      },
    )
  ]

  -- The answer to a request, before it is completed.
  unfoldable pub dispatch : NodeState → XferItem → Run (NodeState × XferItem)
  unfolding setup builder_add_channel builder_build chabu_get_state get_value_string get_value_int
      builder_start
  dispatch n item =
      let text = get_value_string boost item in
      let int = get_value_int boost item in
      if same item.name "Setup"
      then (do
        version ← text "ChabuTestDirectorVersion"
        label ← text "NodeLabel"
        ok (setup n version label))
      else if same item.name "ChabuBuilder.start"
      then (do
        version ← int "ApplicationVersion"
        name ← text "ApplicationProtocolName"
        size ← int "RecvPacketSize"
        count ← int "PriorityCount"
        ok (
          record n {
            chabu_builder = some (builder_start (of_int version) (characters name) size count);
          },
          new_item,
        ))
      else if same item.name "ChabuBuilder.addChannel"
      then (do
        channel_id ← int "Channel"
        priority ← int "Priority"
        builder_add_channel n channel_id priority)
      else if same item.name "ChabuBuilder.build"
      then builder_build n
      else if same item.name "Chabu.close"
      then ok (n, new_item)
      else if same item.name "GetState"
      then chabu_get_state n
      else if same item.name "Channel.recv"
      then (do channel_id ← int "Channel"; amount ← int "Amount"; ok (n, new_item))
      else if same item.name "Channel.xmit"
      then (do channel_id ← int "Channel"; amount ← int "Amount"; ok (n, new_item))
      else if same item.name "Channel.ensureCompleted"
      then (do channel_id ← int "Channel"; ok (n, new_item))
      else if same item.name "Channel.state"
      then (do channel_id ← int "Channel"; ok (n, new_item))
      else if same item.name "Connect"
      then ok (n, new_item)
      else if same item.name "Close"
      then ok (n, new_item)
      else if same item.name "ExpectClose"
      then ok (n, new_item)
      else if same item.name "EnsureClosed"
      then ok (n, new_item)
      else ok (n, unknown_command)

  -- `process`
  unfoldable pub process : NodeState → XferItem → Run (NodeState × XferItem)
  unfolding dispatch add_parameter
  process n item = do
    (n, resp) ← dispatch n item
    ok (
      n,
      with_parameter
          (record resp { category = res; call_index = item.call_index; name = item.name })
          (parameter_value "NanoTime" (boost.of_int (pos 0))),
    )
