-- ===== src/Node/Item.antt =====
-- c/org.chabu.node/src/testprot: the requests and answers of the test protocol as trees of parameters,
-- and how a parameter is found by its path. Texts are strings that the code only compares; splitting a
-- path and the casts between texts and numbers are functions of boost (`Boost`).
use Prim.Native.String.{String}
use text.Mathlib.Text
use chabu.Prelude.{Bool, Option, none, some, List, [], ◌∷◌, if◌then◌else◌}
use chabu.Prelude.Int.{ℤ, pos}
use chabu.Run.{Run, ok, fault, out_of_bounds, thrown, runtime_error, bad_lexical_cast, ◌>>=◌}

-- `boost::split` at '/', and `boost::lexical_cast`, which throws where a text is not a number.
pub record Boost : Type 0 where
  pub split : String → List String
  pub to_int : String → Option ℤ
  pub of_int : ℤ → String

-- `ParameterValue` and `ParameterWithChilds`, with the vector of the childs.
mutual
  pub data Parameter : Type 0 where
    parameter_value : (name value : String) → Parameter
    parameter_with_childs : (name : String) → Parameters → Parameter

  pub data Parameters : Type 0 where
    no_more : Parameters
    with_next : Parameter → Parameters → Parameters

pub data Category : Type 0 where
  req res evt : Category

-- `class XferItem`
pub record XferItem : Type 0 where
  pub category : Category
  pub name : String
  pub call_index : ℤ
  pub parameters : Parameters

-- `std::make_shared<XferItem>()`
abbrev pub new_item : XferItem
new_item = record { category = evt; name = ""; call_index = pos 0; parameters = no_more }

abbrev pub same : String → String → Bool
same s t = Text.◌==◌ s t

-- The loop of `findParameterValue` over the childs: only the first parameter of the name is looked at.
-- `parts[ i ]` is read before the loop.
unfoldable pub find_parameter_value : Parameters → List String → Run (Option Parameter)
find_parameter_value ps [] = fault out_of_bounds
find_parameter_value no_more (part ∷ parts) = ok none
find_parameter_value (with_next (parameter_value name value) ps) (part ∷ parts) =
    if same part name
    then ok (some (parameter_value name value))
    else find_parameter_value ps (part ∷ parts)
find_parameter_value (with_next (parameter_with_childs name childs) ps) (part ∷ parts) =
    if same part name
    then find_parameter_value childs parts
    else find_parameter_value ps (part ∷ parts)

-- `parameters.push_back( … )`
unfoldable pub add_parameter : Parameters → Parameter → Parameters
add_parameter no_more p = with_next p no_more
add_parameter (with_next q ps) p = with_next q (add_parameter ps p)

module _ (boost : Boost) where
  -- `getValueString` and `getValueInt`
  unfoldable pub get_value_string : XferItem → String → Run String
  unfolding find_parameter_value
  get_value_string item path = find_parameter_value item.parameters (boost.split path) >>= λ p.
      elim p [
        | some (parameter_value name value) ↦ ok value
        | some (parameter_with_childs name childs) ↦ fault (thrown runtime_error)
        | none ↦ fault (thrown runtime_error)
      ]

  unfoldable pub get_value_int : XferItem → String → Run ℤ
  unfolding get_value_string
  get_value_int item path = get_value_string item path >>= λ value. elim (boost.to_int value) [
    | some n ↦ ok n
    | none ↦ fault (thrown bad_lexical_cast)
  ]
