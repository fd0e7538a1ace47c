-- ===== src/Profiles/Samples.antt =====
-- A home with two profiles, of which one names a raw model.
use free_model_orchestrator.Base.{
  ◌≡◌, refl, String, true, false, none, some, Option, List, [], ◌∷◌, string_eq, option_eq, All,
}
use free_model_orchestrator.Base.Dict.{Dict}
use free_model_orchestrator.Effects.{return}
use free_model_orchestrator.Json.{Json, str, obj, Fields, end, field}
use free_model_orchestrator.Profiles.{slot_values}
use free_model_orchestrator.Profiles.Slots.{Disk, NormalizationResult, normalize_profiles, set_slot}
use free_model_orchestrator.Profiles.Combos.{IsFounded, normalize_profiles-IsFounded}
use free_model_orchestrator.Profiles.Normalized.{IsSafe, normalize_profiles-IsSafe}

abbrev repr : Json → String
repr _ = ""

abbrev combos : Dict String (List Json)
combos = ("fmo-eyes", str "google/Gemini-2.5-flash" ∷ []) ∷ ("fmo-chat", []) ∷ []

abbrev main_config : Fields
main_config = field "model" (obj (field "default" (str "fmo-chat") end)) end

abbrev research_config : (vision : Json) → Fields
research_config vision =
    field "model" (str "gone") (field "auxiliary" (obj (field "vision" vision end)) end)

abbrev vision_before : Json
vision_before = obj (field "model" (str "vertex/gemini-2.5-flash") end)

abbrev disk : Disk
disk = record {
  configs = (none, main_config) ∷ (some "research", research_config vision_before) ∷ [];
  backups = [];
}

abbrev result : NormalizationResult
result = record {
  rewrites =
      record { profile = some "research"; slot = "model"; old = "gone"; new = "fmo-chat" }
      ∷ record {
        profile = some "research";
        slot = "auxiliary.vision";
        old = "vertex/gemini-2.5-flash";
        new = "fmo-eyes";
      }
      ∷ [];
  changed = true;
  backups = some "research" ∷ [];
}

normalized : (normalize_profiles repr combos false disk).0 ≡ return result
unfolding normalize_profiles string_eq option_eq
normalized = refl

normalize_profiles-IsFounded_example : All (IsFounded repr combos disk) result.rewrites
normalize_profiles-IsFounded_example =
    normalize_profiles-IsFounded repr combos disk false result normalized

normalize_profiles-IsSafe_example :
    ((p : Option String) → IsSafe disk (normalize_profiles repr combos false disk).1 p)
    × (false ≡ true → (normalize_profiles repr combos false disk).1 ≡ disk)
normalize_profiles-IsSafe_example = normalize_profiles-IsSafe repr combos false disk

nested :
    set_slot "gateway.platforms.slack.auxiliary.vision" "fmo-eyes" end
    ≡ return (
        field "gateway"
          (obj (
            field "platforms"
              (obj (
                field "slack"
                  (obj (
                    field "auxiliary"
                      (obj (
                        field "vision"
                          (obj (
                            field "model"
                              (str "fmo-eyes")
                              (field "provider" (str "omniroute") end)))
                          end))
                      end))
                  end))
              end))
          end)
unfolding set_slot string_eq
nested = refl

-- A platform's name with a point: the value goes to a slot of another platform.
abbrev dotted_config : Fields
dotted_config =
    field "gateway"
      (obj
        (field "platforms" (obj (field "my.bot" (obj (field "model" (str "gone") end)) end)) end))
      end

dotted_slot :
    slot_values repr dotted_config ≡ return (("gateway.platforms.my.bot.model", "gone") ∷ [])
unfolding slot_values string_eq
dotted_slot = refl

dotted_written :
    set_slot "gateway.platforms.my.bot.model" "fmo-chat" dotted_config
    ≡ return (
        field "gateway"
          (obj (
            field "platforms"
              (obj (
                field "my.bot" (obj (field "model" (str "gone") end)) (
                  field "my"
                    (obj (
                      field "auxiliary"
                        (obj (
                          field "model"
                            (obj (
                              field "model"
                                (str "fmo-chat")
                                (field "provider" (str "omniroute") end)))
                            end))
                        end))
                    end)))
              end))
          end)
unfolding set_slot string_eq
dotted_written = refl

-- A default profile on a raw model: the other slots fall back to the raw model, which is no combo.
abbrev raw_default : Disk
raw_default = record {
  configs =
      (none, field "model" (str "google/gemini-2.5-flash") end)
      ∷ (some "research", field "model" (str "gone") end)
      ∷ [];
  backups = [];
}

falls_back_to_raw :
    (normalize_profiles repr combos true raw_default).0
    ≡ return (record {
      rewrites =
          record {
            profile = none;
            slot = "model";
            old = "google/gemini-2.5-flash";
            new = "fmo-eyes";
          }
          ∷ record {
            profile = some "research";
            slot = "model";
            old = "gone";
            new = "google/gemini-2.5-flash";
          }
          ∷ [];
      changed = false;
      backups = [];
    })
unfolding normalize_profiles string_eq option_eq
falls_back_to_raw = refl
