-- ===== src/Hermes/Samples.antt =====
-- Anchors, a cell of the grid and a gateway on small inputs.
use free_model_orchestrator.Base.{
  ℕ, ◌+◌, ◌≡◌, refl, String, true, false, none, some, [], ◌∷◌, string_eq, nat_eq, All,
}
use free_model_orchestrator.Base.Dict.{Dict}
use free_model_orchestrator.Base.Float.Whole.{whole, whole-IsOrdered}
use free_model_orchestrator.Effects.{return, Action}
use free_model_orchestrator.Json.{Json, null, bool, obj, str, Fields, end, field, truth, get}
use free_model_orchestrator.Text.Replace.{replace}
use free_model_orchestrator.Text.{lower}
use free_model_orchestrator.Hermes.{Consumer, Inventory}
use free_model_orchestrator.Hermes.Auxiliary.{
  sorted_items, auxiliary_capabilities, get_or_null, py_str,
}
use free_model_orchestrator.Hermes.Sources.{HermesFiles, main_combo_from_config}
use free_model_orchestrator.Hermes.Gateway.{parse_gateway_services, service_consumer}
use free_model_orchestrator.Hermes.Gateway.Mapping.{
  HasOwnModel, parse_gateway_services-mapping_model,
}
use free_model_orchestrator.Hermes.Anchors.{
  IntelligenceForecastResponse, RoleQualityAnchor, role_quality_anchors, describing_units,
}
use free_model_orchestrator.Hermes.Anchors.Covered.{Has, role_quality_anchors-covers}
use free_model_orchestrator.Hermes.Anchors.Repeated.{role_quality_anchors_again}
use free_model_orchestrator.Hermes.Grid.{
  ComboGridCell, CellRequest, select_combo_grid_cell, cell_lt,
}
use free_model_orchestrator.Hermes.Grid.Selected.{
  Serves, IsSelected, select_combo_grid_cell-IsSelected,
}

replaced : replace "key" "[X]" "a key, keykey" ≡ "a [X], [X][X]"
unfolding replace string_eq
replaced = refl

abbrev slot_config : Json
slot_config = obj (field "model" (str "fmo-eyes") (field "capability" (str "OCR") end))

vision_capabilities :
    auxiliary_capabilities (λ _. "") "vision-mcp" slot_config
    ≡ "ocr" ∷ "tool_calling" ∷ "vision" ∷ []
unfolding auxiliary_capabilities string_eq lower
vision_capabilities = refl

abbrev chat : Consumer whole
chat = record {
  role_id = "chat";
  consumer_type = "cron_job";
  consumer = "daily";
  cadence = "0 8 * * *";
  calls_per_run = 3;
  describing_text = " Write the news. ";
  required_capabilities = [];
  minimum_context_window = 0;
}

abbrev silent : Consumer whole
silent = record chat { role_id = "webhooks"; consumer = "push"; describing_text = "" }

abbrev inventory : Inventory whole
inventory = record { consumers = chat ∷ silent ∷ [] }

-- A judge that counts the texts that it is asked about.
abbrev judge : String → Action ℕ IntelligenceForecastResponse
judge _ asked = (
  return (record { capability_axis = "coding_index"; tier = "High"; confidence = "high" }),
  asked + 1,
)

abbrev judged_chat : RoleQualityAnchor whole
judged_chat = record {
  role_id = "chat";
  capability_axis = "coding_index";
  tier = "high";
  anchor = 80;
  confidence = "high";
  source = "intelligence_inspector";
  content_hashes = "cron_job:daily: Write the news. " ∷ [];
}

abbrev floor_webhooks : RoleQualityAnchor whole
floor_webhooks = record {
  role_id = "webhooks";
  capability_axis = "intelligence_index";
  tier = "low";
  anchor = 20;
  confidence = "floor";
  source = "adequacy_floor";
  content_hashes = [];
}

first_refresh :
    (role_quality_anchors whole judge [] [] (λ s. s) inventory 20 ([], 0)).0
    ≡ return (("chat", judged_chat) ∷ ("webhooks", floor_webhooks) ∷ [])
unfolding role_quality_anchors string_eq
first_refresh = refl

role_quality_anchors-covers_example :
    (anchors : Dict String (RoleQualityAnchor whole)) × ((role_quality_anchors whole judge [] []
        (λ s. s)
        inventory
        20
        ([], 0)).0
      ≡ return anchors)
    × All (λ c. Has anchors c.role_id) inventory.consumers
role_quality_anchors-covers_example =
    role_quality_anchors-covers whole judge [] [] (λ s. s) inventory 20 ([], 0)

role_quality_anchors_again_example :
    let refresh = role_quality_anchors whole judge [] [] (λ s. s) inventory 20 in
    refresh (refresh ([], 0)).1 ≡ refresh ([], 0)
unfolding describing_units string_eq
role_quality_anchors_again_example =
    role_quality_anchors_again whole judge [] (λ _ w. (_, refl)) [] (λ s. s) inventory 20 ([], 0)
      ((λ _. refl, tt), tt)

abbrev cell : (combo_id : String) → (anchor : ℕ) → ComboGridCell whole
cell combo_id anchor = record {
  combo_id = combo_id;
  capability_axis = "coding_index";
  tier = "high";
  anchor = anchor;
  required_capabilities = "tools" ∷ "vision" ∷ [];
  minimum_context_window = 32000;
  auxiliary = false;
  reusable = true;
}

abbrev wanted : CellRequest whole
wanted = record {
  role_id = "chat";
  capability_axis = "coding_index";
  tier = "high";
  required_capabilities = "vision" ∷ [];
  minimum_context_window = 16000;
  auxiliary = false;
}

least_cell : select_combo_grid_cell whole wanted (cell "b" 85 ∷ cell "a" 80 ∷ []) ≡ cell "a" 80
unfolding select_combo_grid_cell string_eq cell_lt
least_cell = refl

select_combo_grid_cell-IsSelected_example :
    Serves whole wanted (select_combo_grid_cell whole wanted (cell "b" 85 ∷ cell "a" 80 ∷ []))
    × IsSelected whole whole-IsOrdered wanted
        (cell "b" 85 ∷ cell "a" 80 ∷ [])
        (select_combo_grid_cell whole wanted (cell "b" 85 ∷ cell "a" 80 ∷ []))
select_combo_grid_cell-IsSelected_example =
    select_combo_grid_cell-IsSelected whole whole-IsOrdered wanted (cell "b" 85 ∷ cell "a" 80 ∷ [])

abbrev no_files : HermesFiles whole
no_files = record {
  text_at = λ _. none;
  directories = λ _. none;
  safe_load = λ _. return null;
  dumps = λ _. "";
  load_jobs = λ _. return [];
  load_routes = λ _. return [];
  session_demand = λ _. none;
  repr = λ _. "";
}

abbrev telegram : Fields
telegram = field "enabled" (bool true) (field "model" (str "chat-combo") end)

abbrev platforms : Fields
platforms = field "telegram" (obj telegram) (field "slack" (obj end) end)

abbrev gateway : Fields
gateway = field "platforms" (obj platforms) end

abbrev model : Fields
model = field "provider" (str "omniroute") (field "default" (str "chat-combo") end)

abbrev config : Fields
config = field "model" (obj model) (field "gateway" (obj gateway) end)

abbrev telegram_service : Consumer whole
telegram_service = service_consumer no_files.repr whole [] "chat-combo" "telegram" telegram

reads_gateway :
    parse_gateway_services no_files.repr whole [] config ≡ return (telegram_service ∷ [])
unfolding truth get sorted_items string_eq parse_gateway_services
reads_gateway = refl

parse_gateway_services-mapping_model_example :
    (main_combo_from_config whole no_files (get_or_null "model" config)
      ≡ some (py_str no_files.repr (get_or_null "default" model)))
    × All HasOwnModel (sorted_items platforms)
unfolding truth get string_eq
parse_gateway_services-mapping_model_example =
    parse_gateway_services-mapping_model whole no_files [] model config gateway platforms
      (telegram_service ∷ []) refl refl refl refl reads_gateway
