-- ===== src/Node/Lookup.antt =====
-- Parameters that are put into a request or an answer are found there by their paths.
use Prim.Native.String.{String}
use mathlib.Core.Path.{subst⁻¹}
use text.Mathlib.TextPositions.{eq_refl}
use chabu.Prelude.{
  ◌≡◌, refl, Bool, true, false, Option, none, some, List, [], ◌∷◌, if◌then◌else◌, ◌∙◌,
}
use chabu.Run.{Run, ok, fault, out_of_bounds}
use chabu.Node.Item.{
  Parameter, parameter_value, parameter_with_childs, Parameters, no_more, with_next, same,
  find_parameter_value, add_parameter,
}

-- No parameter of the list has the name.
abbrev pub Absent : Parameters → String → Type 0
Absent no_more name = Unit {0}
Absent (with_next (parameter_value n v) ps) name = (same name n ≡ false) × Absent ps name
Absent (with_next (parameter_with_childs n cs) ps) name = (same name n ≡ false) × Absent ps name

abbrev IsFound : Run (Option Parameter) → Type 0
IsFound (ok (some q)) = Unit {0}
IsFound _ = ⊥

none-IsFound : (q : Parameter) → ¬ (ok none ≡ ok (some q))
none-IsFound q h = subst⁻¹ IsFound h tt

-- A result of a search that goes on is kept when the rest of the search is.
keeps {ℓ} :
    {A : Type ℓ} (b : Bool) (x y y' r : A)
    → (if b then x else y) ≡ r
    → (y ≡ r → y' ≡ r)
    → (if b then x else y') ≡ r
keeps true x y y' r h f = h
keeps false x y y' r h f = f h

found_before :
    (ps : Parameters) (p : Parameter) (part : String) (parts : List String) (q : Parameter)
    → find_parameter_value ps (part ∷ parts) ≡ ok (some q)
    → find_parameter_value (add_parameter ps p) (part ∷ parts) ≡ ok (some q)
unfolding find_parameter_value add_parameter
found_before no_more p part parts q h = absurd (none-IsFound q h)
found_before (with_next (parameter_value name value) ps) p part parts q h =
    keeps (same part name) _ (find_parameter_value ps (part ∷ parts)) _ (ok (some q)) h
      (found_before ps p part parts q)
found_before (with_next (parameter_with_childs name childs) ps) p part parts q h =
    keeps (same part name) _ (find_parameter_value ps (part ∷ parts)) _ (ok (some q)) h
      (found_before ps p part parts q)

-- Behind parameters of other names the new one is reached.
reached :
    (ps : Parameters) (p : Parameter) (part : String) (parts : List String)
    → Absent ps part
    → find_parameter_value (add_parameter ps p) (part ∷ parts)
      ≡ find_parameter_value (with_next p no_more) (part ∷ parts)
unfolding find_parameter_value add_parameter
reached no_more p part parts h = refl
reached (with_next (parameter_value name value) ps) p part parts (differs, h) =
    rw (differs, find_parameter_value) (reached ps p part parts h)
reached (with_next (parameter_with_childs name childs) ps) p part parts (differs, h) =
    rw (differs, find_parameter_value) (reached ps p part parts h)

-- A search that finds a parameter finds the same one after a further parameter was added behind.
-- A value that is added behind parameters of other names is found by its name, and below childs that
-- are added so the search goes on with the rest of the path. Where the path ends with the name of childs
-- the code reads behind the end of the path.
pub find_parameter_value-add_parameter :
    (ps : Parameters) (part : String) (parts : List String)
    → ((p q : Parameter)
        → find_parameter_value ps (part ∷ parts) ≡ ok (some q)
        → find_parameter_value (add_parameter ps p) (part ∷ parts) ≡ ok (some q))
      × ((value : String)
          → Absent ps part
          → find_parameter_value (add_parameter ps (parameter_value part value)) (part ∷ parts)
            ≡ ok (some (parameter_value part value)))
      × ((childs : Parameters)
          → Absent ps part
          → (find_parameter_value
                (add_parameter ps (parameter_with_childs part childs))
                (part ∷ parts)
              ≡ find_parameter_value childs parts)
            × (find_parameter_value
                  (add_parameter ps (parameter_with_childs part childs))
                  (part ∷ [])
                ≡ fault out_of_bounds))
unfolding find_parameter_value
find_parameter_value-add_parameter ps part parts = (
  λ p q h. found_before ps p part parts q h,
  λ value h.
      reached ps (parameter_value part value) part parts h
      ∙ rw (eq_refl part, find_parameter_value),
  λ childs h. (
    reached ps (parameter_with_childs part childs) part parts h
        ∙ rw (eq_refl part, find_parameter_value),
    reached ps (parameter_with_childs part childs) part [] h
        ∙ rw (eq_refl part, find_parameter_value),
  ),
)
