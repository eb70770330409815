-- ===== src/Tests/Node.antt =====
-- Runs of the test node: c/org.chabu.node/src.
use chabu.Prelude.{List, [], ◌∷◌, ◌≡◌, ℕ, refl, none, some, true, arith}
use chabu.Prelude.Int.{ℤ, pos}
use chabu.Run.{ok, Returns}
use chabu.Errors.{init_param_channels_range}
use chabu.Node.Builder.{builder_start, builder_add_channels, build, build-builder_add_channels}
use chabu.Nio.{ByteBuffer, mark_discarded, flip}
use chabu.Nio.Number.{get_u_int_at}
use chabu.Node.Item.{new_item}
use chabu.Node.Commands.{NodeState}
use chabu.Node.Session.{SessionCtrl, Libraries, respond}
use chabu.Node.Frame.{Announces}
use chabu.Tests.Sample.{sample_channel, sample_priority}

abbrev node_name : List ℕ
node_name = 65 ∷ 66 ∷ []

abbrev two_channels : List (ℤ × ℤ)
two_channels = (pos 0, pos 1) ∷ (pos 1, pos 0) ∷ []

build-builder_add_channels_example :
    Returns
      (λ w. w.chabu.last_error ≡ init_param_channels_range)
      (build
        (builder_add_channels (builder_start 7 node_name (pos 1024) (pos 2)) two_channels)
        sample_channel
        sample_priority)
build-builder_add_channels_example =
    build-builder_add_channels 7 node_name (pos 1024) (pos 2) two_channels sample_channel
      sample_priority (omega arith, (omega arith, tt)) (omega arith)

-- The text of two bytes has come in, and one byte behind it.
abbrev request : ByteBuffer
request = record {
  memory = 0 ∷ 0 ∷ 0 ∷ 2 ∷ 65 ∷ 66 ∷ 0 ∷ 0 ∷ 0 ∷ 0 ∷ [];
  position = 7;
  limit = 10;
  capacity = 10;
  mark = mark_discarded;
  order_be = true;
}

-- Every text is an unknown command, and every answer the text of two bytes. No path is split.
abbrev echoing : Libraries
echoing = record {
  boost = record { split = λ s. s ∷ []; to_int = λ s. some (pos 1); of_int = λ n. "0" };
  load = λ xml. ok (some new_item);
  encode = λ item. ok (65 ∷ 66 ∷ []);
  channels = sample_channel;
  priorities = sample_priority;
}

abbrev idle_node : NodeState
idle_node = record { is_host_a = true; chabu_builder = none; chabu = none; channel_listeners = 0 }

abbrev session : SessionCtrl
session = record {
  rx = request;
  tx = record request { position = 0; limit = 0 };
  state = idle_node;
}

-- The answer to it can be laid out.
announced : Announces session 2
unfolding flip get_u_int_at
announced = refl

abbrev six : ℕ
six = 6

answered :
    Returns
      (λ x. (x.0.limit ≡ six) × (x.1 ≡ idle_node))
      (respond echoing session.tx idle_node (65 ∷ 66 ∷ []))
unfolding respond
answered = (_, refl, (refl, refl))
