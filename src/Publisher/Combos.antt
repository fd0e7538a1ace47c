-- ===== src/Publisher/Combos.antt =====
-- `_resolve_combo_ids`: combo names of the policy become the ids that OmniRoute lists.
pub mod Resolution
use free_model_orchestrator.Base.{
  suc, String, Bool, true, false, Option, none, some, List, [], ◌∷◌, ◌==◌, contains, string_eq,
  if◌then◌else◌, ◌<>◌,
}
use free_model_orchestrator.Base.Dict.{Dict, lookup, insert}
use free_model_orchestrator.Base.Float.{Float}
use free_model_orchestrator.Effects.{Outcome, return, raise_value_error, ◌>>=?◌}
use free_model_orchestrator.Json.{
  pos, negsuc, Json, Items, nil, cons, Fields, bool, int, obj, arr, str, get,
}
use free_model_orchestrator.Text.{show_nat}
use free_model_orchestrator.Publisher.{Pool, Generation}

-- `str(combo.get(key) or "")`. A fraction, a list and a dict, which no combo has here, read as "".
abbrev pub text_field : String → Fields → String
text_field key fields = elim (get key fields) [ none ↦ "" | some value ↦ text_of value ]
  where
    text_of : Json → String
    text_of (str s) = s
    text_of (bool true) = "True"
    text_of (int (pos (suc n))) = show_nat (suc n)
    text_of (int (negsuc n)) = "-" <> show_nat (suc n)
    text_of _ = ""

-- `payload.get("combos", []) if isinstance(payload, dict) else []`
unfoldable pub combos_of : Json → Items
combos_of (obj fields) = elim (get "combos" fields) [ none ↦ nil | some value ↦ items_of value ]
  where
    items_of : Json → Items
    items_of (arr items) = items
    items_of _ = nil
combos_of _ = nil

-- The two tables of the first loop.
pub record ComboIndex : Type 0 where
  pub combo_ids : List String
  pub combo_id_by_name : Dict String String

abbrev pub empty_index : ComboIndex
empty_index = record { combo_ids = []; combo_id_by_name = [] }

abbrev pub add_combo : Fields → ComboIndex → ComboIndex
add_combo fields index =
    let id = text_field "id" fields in
    let name = text_field "name" fields in
    if id == "" then index else record {
      combo_ids = id ∷ index.combo_ids;
      combo_id_by_name =
          if name == "" then index.combo_id_by_name else insert name id index.combo_id_by_name;
    }

-- A combo that is no dict is passed over.
unfoldable pub index_combos : ComboIndex → Items → ComboIndex
unfolding get insert
index_combos index nil = index
index_combos index (cons (obj fields) combos) = index_combos (add_combo fields index) combos
index_combos index (cons _ combos) = index_combos index combos

abbrev pub or_empty : Option String → String
or_empty none = ""
or_empty (some s) = s

-- The id for a reference, "" if there is none.
unfoldable pub resolve_ref : ComboIndex → String → String
resolve_ref index combo_ref =
    if contains index.combo_ids combo_ref
    then combo_ref
    else or_empty (lookup combo_ref index.combo_id_by_name)

module _ {F : Float} where
  unfoldable pub resolve_pools : ComboIndex → List (Pool F) → Outcome (List (Pool F))
  unfolding resolve_ref
  resolve_pools index [] = return []
  resolve_pools index (pool ∷ pools) =
      let rest = resolve_pools index pools in
      let id = resolve_ref index pool.combo_id in
      if id == ""
      then raise_value_error ("referenced combo not found: " <> pool.combo_id)
      else (rest >>=? λ resolved. return (record pool { combo_id = id } ∷ resolved))

  unfoldable pub resolve_generation : Json → Generation F → Outcome (Generation F)
  unfolding resolve_pools index_combos combos_of
  resolve_generation payload generation =
      resolve_pools (index_combos empty_index (combos_of payload)) generation.pools >>=? λ pools.
      return (record generation { pools = pools })
