-- ===== src/Hermes/Grid.antt =====
-- hermes_inventory.py: combos for the demand that the inventory shows, and what changed between two
-- inventories. A set is a list; where the code sorts it, the list has no doubles.
pub mod Selected
use free_model_orchestrator.Base.{
  ℕ, ◌≡◌, refl, String, Bool, true, false, not, Option, none, some, List, [], ◌∷◌, ◌++◌, ◌&&◌, ◌||◌,
  ◌==◌, ◌<>◌, contains, leb, string_eq, nat_eq, if◌then◌else◌, filter_by, map,
}
use free_model_orchestrator.Base.Dict.{Dict, lookup, insert}
use free_model_orchestrator.Base.Float.{Float, lt, eq}
use free_model_orchestrator.Effects.{Outcome}
use free_model_orchestrator.Text.{str_le, sorted_set, insert_sorted}
use free_model_orchestrator.Forecast.{Candidate, QualityBand, quality_band_for_demand}
use free_model_orchestrator.Hermes.{Consumer, Inventory}
use free_model_orchestrator.Hermes.Anchors.{
  RoleQualityAnchor, tier_to_anchor, describing_unit_key, describing_unit_hash,
}

-- `a.issubset(b)`
unfoldable pub is_subset : List String → List String → Bool
is_subset [] b = true
is_subset (x ∷ xs) b = contains b x && is_subset xs b

-- What `demand_driven_combo_profiles` asks for.
pub record ComboProfile : Type 0 where
  pub capability_axis : String
  pub tier : String
  pub required_capabilities : List String
  pub minimum_context_window : ℕ
  pub auxiliary : Bool

abbrev same_bool : Bool → Bool → Bool
same_bool true b = b
same_bool false b = not b

unfoldable pub same_texts : List String → List String → Bool
same_texts [] [] = true
same_texts (s ∷ ss) (t ∷ ts) = s == t && same_texts ss ts
same_texts _ _ = false

abbrev pub same_profile : ComboProfile → ComboProfile → Bool
unfolding same_texts
same_profile a b =
    a.capability_axis == b.capability_axis
    && a.tier == b.tier
    && same_texts a.required_capabilities b.required_capabilities
    && a.minimum_context_window == b.minimum_context_window
    && same_bool a.auxiliary b.auxiliary

unfoldable pub has_profile : ComboProfile → List ComboProfile → Bool
unfolding same_profile
has_profile p [] = false
has_profile p (q ∷ qs) = same_profile p q || has_profile p qs

-- What `bootstrap_combo_payload` returns, with its one model.
pub record BootstrapCombo : Type 0 where
  pub name : String
  pub kind : String
  pub model : String
  pub provider_id : String
  pub weight : ℕ
  pub strategy : String

module _ (F : Float) where
  open F use {Number, of_nat}

  pub record ComboGridCell : Type 0 where
    pub combo_id : String
    pub capability_axis : String
    pub tier : String
    pub anchor : Number
    pub required_capabilities : List String
    pub minimum_context_window : ℕ
    pub auxiliary : Bool
    pub reusable : Bool

  -- The arguments of `select_combo_grid_cell` but for the grid.
  pub record CellRequest : Type 0 where
    pub role_id : String
    pub capability_axis : String
    pub tier : String
    pub required_capabilities : List String
    pub minimum_context_window : ℕ
    pub auxiliary : Bool

  unfoldable pub fits : CellRequest → ComboGridCell → Bool
  unfolding is_subset
  fits request cell =
      same_bool cell.auxiliary request.auxiliary
      && cell.capability_axis == request.capability_axis
      && cell.tier == request.tier
      && is_subset request.required_capabilities cell.required_capabilities
      && leb request.minimum_context_window cell.minimum_context_window
      && cell.reusable

  -- `(a.anchor, a.combo_id) < (b.anchor, b.combo_id)`
  unfoldable pub cell_lt : ComboGridCell → ComboGridCell → Bool
  cell_lt a b =
      if eq F a.anchor b.anchor then not (str_le b.combo_id a.combo_id) else lt F a.anchor b.anchor

  unfoldable pub insert_cell : ComboGridCell → List ComboGridCell → List ComboGridCell
  insert_cell cell [] = cell ∷ []
  insert_cell cell (other ∷ cells) =
      let rest = insert_cell cell cells in
      if cell_lt other cell then other ∷ rest else cell ∷ other ∷ cells

  -- `sorted(cells, key=...)`, which is stable
  unfoldable pub sorted_cells : List ComboGridCell → List ComboGridCell
  unfolding insert_cell
  sorted_cells [] = []
  sorted_cells (cell ∷ cells) = insert_cell cell (sorted_cells cells)

  unfoldable pub unique_cell : CellRequest → ComboGridCell
  unfolding tier_to_anchor sorted_set
  unique_cell request = record {
    combo_id =
        "fmo-unique-" <> (if request.auxiliary then "aux" else "role") <> "-" <> request.role_id;
    capability_axis = request.capability_axis;
    tier = request.tier;
    anchor = tier_to_anchor F request.tier;
    required_capabilities = sorted_set request.required_capabilities;
    minimum_context_window = request.minimum_context_window;
    auxiliary = request.auxiliary;
    reusable = false;
  }

  abbrev pub first_or_unique : CellRequest → List ComboGridCell → ComboGridCell
  unfolding unique_cell
  first_or_unique request [] = unique_cell request
  first_or_unique request (cell ∷ cells) = cell

  -- `select_combo_grid_cell`
  unfoldable pub select_combo_grid_cell : CellRequest → List ComboGridCell → ComboGridCell
  unfolding fits sorted_cells first_or_unique
  select_combo_grid_cell request grid =
      first_or_unique request (sorted_cells (filter_by (fits request) grid))

  abbrev axis_of : Option (RoleQualityAnchor F) → String
  axis_of none = "intelligence_index"
  axis_of (some anchor) = anchor.capability_axis

  abbrev tier_of : Option (RoleQualityAnchor F) → String
  tier_of none = "low"
  tier_of (some anchor) = anchor.tier

  abbrev profile_of : Dict String (RoleQualityAnchor F) → Consumer F → ComboProfile
  unfolding lookup sorted_set
  profile_of anchors c = record {
    capability_axis = axis_of (lookup c.role_id anchors);
    tier = tier_of (lookup c.role_id anchors);
    required_capabilities = sorted_set c.required_capabilities;
    minimum_context_window = c.minimum_context_window;
    auxiliary = c.consumer_type == "auxiliary";
  }

  -- `profiles.add(...)` for each consumer
  unfoldable pub add_profiles :
      Dict String (RoleQualityAnchor F) → List ComboProfile → List (Consumer F) → List ComboProfile
  unfolding profile_of has_profile
  add_profiles anchors profiles [] = profiles
  add_profiles anchors profiles (c ∷ cs) =
      let p = profile_of anchors c in
      add_profiles anchors (if has_profile p profiles then profiles else profiles ++ p ∷ []) cs

  -- `demand_driven_combo_profiles`
  unfoldable pub demand_driven_combo_profiles :
      Inventory F → Dict String (RoleQualityAnchor F) → List ComboProfile
  unfolding add_profiles
  demand_driven_combo_profiles inventory anchors = add_profiles anchors [] inventory.consumers

  unfoldable pub bootstrap_combo_payload :
      ComboGridCell → (seed_model provider_id : String) → BootstrapCombo
  bootstrap_combo_payload cell seed_model provider_id = record {
    name = cell.combo_id;
    kind = "model";
    model = seed_model;
    provider_id = provider_id;
    weight = 0;
    strategy = "priority";
  }

  unfoldable pub anchor_after_rebalance_event :
      RoleQualityAnchor F → (persona_hash_changed : Bool) → Option (RoleQualityAnchor F)
  anchor_after_rebalance_event anchor persona_hash_changed =
      if persona_hash_changed then none else some anchor

  unfoldable pub quality_band_for_anchor :
      RoleQualityAnchor F
      → List (Candidate F)
      → (protected_requests adequacy_floor : Number) → Outcome (QualityBand F)
  unfolding quality_band_for_demand
  quality_band_for_anchor anchor = quality_band_for_demand F anchor.anchor

  -- The tuples of a consumer that `inventory_diff` compares
  abbrev same_demand : Consumer F → Consumer F → Bool
  same_demand a b =
      a.role_id == b.role_id
      && a.consumer_type == b.consumer_type
      && a.consumer == b.consumer
      && a.cadence == b.cadence
      && eq F a.calls_per_run b.calls_per_run

  unfoldable pub has_demand : List (Consumer F) → Consumer F → Bool
  has_demand [] a = false
  has_demand (b ∷ bs) a = same_demand a b || has_demand bs a

  unfoldable pub all_demanded : List (Consumer F) → List (Consumer F) → Bool
  unfolding has_demand
  all_demanded [] bs = true
  all_demanded (a ∷ as') bs = has_demand bs a && all_demanded as' bs

  module _ (sha256 : String → String) where
    -- The hash of each unit by its key; of two units with one key the last one counts.
    unfoldable pub intelligence_of : Dict String String → List (Consumer F) → Dict String String
    unfolding insert describing_unit_key describing_unit_hash
    intelligence_of hashes [] = hashes
    intelligence_of hashes (c ∷ cs) =
        intelligence_of (insert (describing_unit_key F c) (describing_unit_hash F sha256 c) hashes)
          cs

    abbrev differs : Option String → String → Bool
    differs none hash = true
    differs (some old) hash = not (old == hash)

    unfoldable pub changed_keys : Dict String String → Dict String String → List String
    unfolding lookup insert_sorted
    changed_keys old [] = []
    changed_keys old ((key, hash) ∷ new) =
        let rest = changed_keys old new in
        if differs (lookup key old) hash then insert_sorted key rest else rest

    pub record InventoryDiff : Type 0 where
      pub forecast_stale : Bool
      pub run_inspector : Bool
      pub intelligence_stale_units : List String

    -- `inventory_diff`
    unfoldable pub inventory_diff : Inventory F → Inventory F → InventoryDiff
    unfolding all_demanded changed_keys intelligence_of
    inventory_diff old new =
        let changed =
          not (
            all_demanded old.consumers new.consumers && all_demanded new.consumers old.consumers) in
        record {
          forecast_stale = changed;
          run_inspector = changed;
          intelligence_stale_units =
              changed_keys (intelligence_of [] old.consumers) (intelligence_of [] new.consumers);
        }
