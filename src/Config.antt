-- ===== src/Config.antt =====
-- config.py: the checks on the startup configuration, and the table of routers. URLs have no
-- brackets, so that `urlparse` does not raise.
pub mod Checks
mod Samples
use free_model_orchestrator.Base.{
  ℕ, String, Bool, true, false, not, Option, none, some, List, [], ◌∷◌, ◌&&◌, ◌||◌, ◌==◌, ◌<>◌,
  contains, string_eq, if◌then◌else◌, leb, nat_beq,
}
use free_model_orchestrator.Effects.{Outcome, return, raise_value_error, ◌>>=?◌}
use free_model_orchestrator.Text.{split, after_first, codes, lower}
use Prim.Native.Char.{code}
use text.Mathlib.Text.{starts_with}

pub record AutoRouterEntry : Type 0 where
  pub id : String
  pub input : List String

abbrev pub default_auto_router_tail : List AutoRouterEntry
default_auto_router_tail =
    record { id = "mimocode/mimo-auto"; input = "text" ∷ [] }
    ∷ record { id = "kilo-auto/free"; input = "text" ∷ [] }
    ∷ record { id = "openrouter/free"; input = "text" ∷ "image" ∷ [] }
    ∷ []

pub record StartupConfig : Type 0 where
  pub omniroute_url : String
  pub database_url : Option String
  pub hermes_inventory_mode : String
  pub omniroute_api_key : Option String
  pub auto_router_tail : List AutoRouterEntry
  pub hermes_home : Option String
  pub hermes_agents_path : Option String
  pub hermes_routines_path : Option String
  pub hermes_inventory_command : Option String
  pub hermes_inventory_url : Option String
  pub hermes_inventory_cron : String

-- `bool(text)` for a text that may be None
abbrev pub given : Option String → Bool
given none = false
given (some s) = not (s == "")

-- What `urlsplit` drops: control characters and spaces in front, tabs and line ends anywhere.
unfoldable pub strip_controls : String → String
strip_controls String.[] = ""
strip_controls (String.◌∷◌ c s) = if leb (code c) 32 then strip_controls s else String.◌∷◌ c s

unfoldable pub drop_line_ends : String → String
drop_line_ends String.[] = ""
drop_line_ends (String.◌∷◌ c s) =
    let rest = drop_line_ends s in
    if nat_beq (code c) 9 || nat_beq (code c) 10 || nat_beq (code c) 13
    then rest
    else String.◌∷◌ c rest

abbrev is_letter : ℕ → Bool
is_letter c = (leb 65 c && leb c 90) || (leb 97 c && leb c 122)

unfoldable pub are_scheme_chars : List ℕ → Bool
are_scheme_chars [] = true
are_scheme_chars (c ∷ cs) =
    (is_letter c || (leb 48 c && leb c 57) || nat_beq c 43 || nat_beq c 45 || nat_beq c 46)
    && are_scheme_chars cs

abbrev is_scheme : List ℕ → Bool
is_scheme [] = false
is_scheme (c ∷ cs) = is_letter c && are_scheme_chars (c ∷ cs)

abbrev first_part : List String → String
first_part [] = ""
first_part (part ∷ parts) = part

-- The part before the first of "/", "?" and "#".
unfoldable pub until_path : String → String
until_path String.[] = ""
until_path (String.◌∷◌ c s) =
    let rest = until_path s in
    if nat_beq (code c) 47 || nat_beq (code c) 63 || nat_beq (code c) 35
    then ""
    else String.◌∷◌ c rest

abbrev drop_slashes : String → String
drop_slashes (String.◌∷◌ _ (String.◌∷◌ _ s)) = s
drop_slashes s = s

abbrev netloc_of : String → String
netloc_of rest = if starts_with rest "//" then until_path (drop_slashes rest) else ""

pub record Url : Type 0 where
  pub scheme : String
  pub netloc : String

abbrev split_url : String → Url
split_url url = elim (after_first 58 url) [
  | none ↦ record { scheme = ""; netloc = netloc_of url }
  | some rest ↦
      let before = first_part (split 58 url) in
      if is_scheme (codes before)
      then record { scheme = lower before; netloc = netloc_of rest }
      else record { scheme = ""; netloc = netloc_of url }
]

-- `urlparse`
unfoldable pub urlparse : String → Url
unfolding strip_controls drop_line_ends are_scheme_chars until_path split after_first lower
urlparse url = split_url (drop_line_ends (strip_controls url))

abbrev pub http_schemes : List String
http_schemes = "http" ∷ "https" ∷ []

abbrev all_given : List String → Bool
all_given [] = true
all_given (part ∷ parts) = not (part == "") && all_given parts

abbrev are_five : List String → Bool
are_five (a ∷ b ∷ c ∷ d ∷ e ∷ []) = all_given (a ∷ b ∷ c ∷ d ∷ e ∷ [])
are_five _ = false

-- `_valid_cron`
unfoldable pub valid_cron : String → Bool
unfolding split
valid_cron value = are_five (split 32 value)

-- `if not test: raise ValueError(message)`
unfoldable pub require : Bool → String → Outcome (Unit {0})
require test message = if test then return tt else raise_value_error message

abbrev has_entry : AutoRouterEntry → Bool
has_entry entry = not (entry.id == "") && (elim entry.input [ [] ↦ false | _ ∷ _ ↦ true ])

unfoldable pub all_entries : List AutoRouterEntry → Bool
all_entries [] = true
all_entries (entry ∷ entries) = has_entry entry && all_entries entries

abbrev pub not_empty : List AutoRouterEntry → Bool
not_empty [] = false
not_empty (_ ∷ _) = true

abbrev pub inventory_modes : List String
inventory_modes = "filesystem" ∷ "command" ∷ "http" ∷ []

abbrev pub name_if_missing : String → Option String → String → String
name_if_missing name value rest =
    if given value then rest else if rest == "" then name else name <> ", " <> rest

-- The names that `missing` lists, joined by ", ".
abbrev pub missing_names : StartupConfig → String
missing_names c = name_if_missing "HERMES_HOME" c.hermes_home (
    name_if_missing "HERMES_AGENTS_PATH" c.hermes_agents_path
      (name_if_missing "HERMES_ROUTINES_PATH" c.hermes_routines_path ""))

abbrev pub url_or_empty : Option String → String
url_or_empty none = ""
url_or_empty (some url) = url

abbrev pub is_http_url : Url → Bool
is_http_url parsed = contains http_schemes parsed.scheme && not (parsed.netloc == "")

-- The checks on the mode's own settings.
unfoldable pub validate_mode : StartupConfig → Outcome (Unit {0})
unfolding urlparse
validate_mode c =
    require (not (c.hermes_inventory_mode == "filesystem") || missing_names c == "")
      ("missing filesystem inventory config: " <> missing_names c)
    >>=? λ _.
        require (not (c.hermes_inventory_mode == "command") || given c.hermes_inventory_command)
          "HERMES_INVENTORY_COMMAND is required"
        >>=? λ _.
            require
              (not (c.hermes_inventory_mode == "http")
                || is_http_url (urlparse (url_or_empty c.hermes_inventory_url)))
              "HERMES_INVENTORY_URL must be http or https"

unfoldable pub validate_static_config : StartupConfig → Outcome (Unit {0})
unfolding urlparse all_entries valid_cron validate_mode
validate_static_config c =
    require (contains http_schemes (urlparse c.omniroute_url).scheme)
      "OMNIROUTE_URL must be http or https"
    >>=? λ _. require (given c.omniroute_api_key) "OMNIROUTE_API_KEY is required" >>=? λ _.
        require (not_empty c.auto_router_tail) "AUTO_ROUTER_TAIL must not be empty" >>=? λ _.
        require (all_entries c.auto_router_tail) "AUTO_ROUTER_TAIL entries require id and input"
        >>=? λ _. require (given c.database_url) "DATABASE_URL is required" >>=? λ _.
            require (contains inventory_modes c.hermes_inventory_mode)
              "HERMES_INVENTORY_MODE is invalid"
            >>=? λ _.
                require (valid_cron c.hermes_inventory_cron) "HERMES_INVENTORY_CRON is invalid"
                >>=? λ _. validate_mode c

abbrev or_self : String → Option String → String
or_self s none = s
or_self s (some rest) = rest

-- `_router_match_id`
unfoldable pub router_match_id : String → String
unfolding after_first lower
router_match_id model_id = lower (or_self model_id (after_first 58 model_id))

unfoldable pub configured_router_entry : String → List AutoRouterEntry → Option AutoRouterEntry
unfolding router_match_id
configured_router_entry model_id [] = none
configured_router_entry model_id (entry ∷ entries) =
    if router_match_id model_id == router_match_id entry.id
    then some entry
    else configured_router_entry model_id entries

unfoldable pub is_configured_router : String → List AutoRouterEntry → Bool
unfolding router_match_id
is_configured_router model_id [] = false
is_configured_router model_id (entry ∷ entries) =
    router_match_id model_id == router_match_id entry.id || is_configured_router model_id entries
