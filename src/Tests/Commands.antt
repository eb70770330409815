-- ===== src/Tests/Commands.antt =====
-- Runs of the commands of the test director: c/org.chabu.node/src/network and testprot.
use Prim.Native.String.{String}
use chabu.Prelude.{◌≡◌, refl, true, none, some, [], ◌∷◌}
use chabu.Prelude.Int.{pos}
use chabu.Run.{ok, fault, out_of_bounds}
use chabu.Node.Item.{
  Boost, Parameter, parameter_value, parameter_with_childs, Parameters, no_more, with_next, req,
  res, XferItem, find_parameter_value, add_parameter,
}
use chabu.Node.Commands.{NodeState, process}
use chabu.Node.Lookup.{Absent, find_parameter_value-add_parameter}
use chabu.Tests.Sample.{sample_channel, sample_priority}

-- No path is split, and every text is the number 1.
abbrev plain : Boost
plain = record { split = λ s. s ∷ []; to_int = λ s. some (pos 1); of_int = λ n. "0" }

abbrev amounts : Parameters
amounts = with_next (parameter_value "Amount" "10") no_more

find_parameter_value-add_parameter_example :
    ((p q : Parameter)
      → find_parameter_value amounts ("Channel" ∷ []) ≡ ok (some q)
      → find_parameter_value (add_parameter amounts p) ("Channel" ∷ []) ≡ ok (some q))
    × ((value : String)
        → Absent amounts "Channel"
        → find_parameter_value
            (add_parameter amounts (parameter_value "Channel" value))
            ("Channel" ∷ [])
          ≡ ok (some (parameter_value "Channel" value)))
    × ((childs : Parameters)
        → Absent amounts "Channel"
        → (find_parameter_value
              (add_parameter amounts (parameter_with_childs "Channel" childs))
              ("Channel" ∷ [])
            ≡ find_parameter_value childs [])
          × (find_parameter_value
                (add_parameter amounts (parameter_with_childs "Channel" childs))
                ("Channel" ∷ [])
              ≡ fault out_of_bounds))
find_parameter_value-add_parameter_example = find_parameter_value-add_parameter amounts "Channel" []

amounts-Absent : Absent amounts "Channel"
amounts-Absent = (refl, tt)

abbrev fresh_node : NodeState
fresh_node = record { is_host_a = true; chabu_builder = none; chabu = none; channel_listeners = 0 }

abbrev xmit_request : XferItem
xmit_request = record {
  category = req;
  name = "Channel.xmit";
  call_index = pos 5;
  parameters = with_next (parameter_value "Channel" "1") amounts;
}

xmit_answered :
    process plain sample_channel sample_priority fresh_node xmit_request
    ≡ ok (
      fresh_node,
      record {
        category = res;
        name = "Channel.xmit";
        call_index = pos 5;
        parameters = with_next (parameter_value "NanoTime" "0") no_more;
      },
    )
unfolding process
xmit_answered = refl
