-- ===== src/Config/Checks.antt =====
-- What the checks on the configuration let through.
use free_model_orchestrator.Base.{
  ◌≡◌, refl, ◌≢◌, inl, inr, String, Bool, true, false, not, Option, List, [], ◌∷◌, ◌||◌, ◌==◌,
  contains, ◌<>◌, string_eq, arith, All, Bool-cases,
}
use free_model_orchestrator.Effects.{Outcome, return, raise_value_error, ◌>>=?◌}
use Prim.Native.Char.{Char}
use text.Mathlib.TextLemmas.{append-eq-nil_iff}
use free_model_orchestrator.Config.{
  AutoRouterEntry, StartupConfig, given, urlparse, http_schemes, valid_cron, require, all_entries,
  not_empty, name_if_missing, inventory_modes, missing_names, is_http_url, url_or_empty,
  validate_mode, validate_static_config,
}

-- Returned and the conditions hold, or ValueError.
pub data Checked (P : Type 0) : Outcome (Unit {0}) → Type 0 where
  passed : P → Checked P (return tt)
  failed : (message : String) → Checked P (raise_value_error message)

require-Checked :
    (P : Type 0) (b : Bool) (message : String) (rest : Outcome (Unit {0}))
    → (b ≡ true → Checked P rest)
    → Checked P (require b message >>=? λ _. rest)
unfolding require
require-Checked P true message rest h = h refl
require-Checked P false message rest h = failed message

Checked-map : {P Q : Type 0} {o : Outcome (Unit {0})} → (P → Q) → Checked P o → Checked Q o
Checked-map f (passed p) = passed (f p)
Checked-map f (failed message) = failed message

cons_nonempty : (c : Char) (s : String) → String.◌∷◌ c s ≢ ""
cons_nonempty c s h = cc

joined_nonempty : (name rest : String) → name ≢ "" → name <> ", " <> rest ≢ ""
joined_nonempty name rest ne e = ne ((append-eq-nil_iff.0 e).0)

name_if_missing-given :
    (name : String) (value : Option String) (rest : String)
    → name ≢ ""
    → name_if_missing name value rest ≡ ""
    → (given value ≡ true) × (rest ≡ "")
name_if_missing-given name value rest ne h = elim (Bool-cases (given value)) [
  | inl g ↦ (g, rw g at h)
  | inr g ↦ elim (Bool-cases (rest == "")) [
    | inl e ↦ absurd (ne (rw (g, e) at h))
    | inr e ↦ absurd (joined_nonempty name rest ne (rw (g, e) at h))
  ]
]

require-passed :
    (P : Type 0) (b : Bool) (message : String) → (b ≡ true → P) → Checked P (require b message)
unfolding require
require-passed P true message h = passed (h refl)
require-passed P false message h = failed message

-- `not (mode == name) or test`
when_mode :
    (mode name : String) (test : Bool)
    → (not (mode == name) || test) ≡ true
    → mode ≡ name
    → test ≡ true
when_mode mode name test h e = ground (arith, h, e)

same_text : (s t : String) → (s == t) ≡ true → s ≡ t
same_text s t h = ground (arith, h)

module _ (c : StartupConfig) where
  -- The settings that the inventory's mode needs.
  pub record HasMode : Type 0 where
    pub filesystem :
        c.hermes_inventory_mode ≡ "filesystem"
        → (given c.hermes_home ≡ true)
          × (given c.hermes_agents_path ≡ true)
          × (given c.hermes_routines_path ≡ true)
    pub command : c.hermes_inventory_mode ≡ "command" → given c.hermes_inventory_command ≡ true
    pub http :
        c.hermes_inventory_mode ≡ "http"
        → is_http_url (urlparse (url_or_empty c.hermes_inventory_url)) ≡ true

  pub record IsValid : Type 0 where
    pub omniroute : contains http_schemes (urlparse c.omniroute_url).scheme ≡ true
    pub api_key : given c.omniroute_api_key ≡ true
    pub tail : c.auto_router_tail ≢ []
    pub entries : All (λ entry. (entry.id ≢ "") × (entry.input ≢ [])) c.auto_router_tail
    pub database : given c.database_url ≡ true
    pub mode : contains inventory_modes c.hermes_inventory_mode ≡ true
    pub cron : valid_cron c.hermes_inventory_cron ≡ true
    pub settings : HasMode

  missing_names-given :
      missing_names c ≡ ""
      → (given c.hermes_home ≡ true)
        × (given c.hermes_agents_path ≡ true)
        × (given c.hermes_routines_path ≡ true)
  missing_names-given h =
      let (home, more) = name_if_missing-given _ c.hermes_home _ (cons_nonempty _ _) h in
      let (agents, last) =
        name_if_missing-given _ c.hermes_agents_path _ (cons_nonempty _ _) more in
      let (routines, _) =
        name_if_missing-given _ c.hermes_routines_path _ (cons_nonempty _ _) last in
      (home, agents, routines)

  all_entries-All :
      (entries : List AutoRouterEntry)
      → all_entries entries ≡ true
      → All (λ entry. (entry.id ≢ "") × (entry.input ≢ [])) entries
  unfolding all_entries
  all_entries-All [] h = tt
  all_entries-All (entry ∷ entries) h = ground (arith, all_entries-All entries)

  validate_mode-Checked : Checked HasMode (validate_mode c)
  unfolding validate_mode
  validate_mode-Checked = require-Checked HasMode _ _ _ (λ f. require-Checked HasMode _ _ _ (λ m.
      require-passed HasMode _ _ (λ h. record {
        filesystem = λ e. missing_names-given (same_text _ _ (when_mode _ _ _ f e));
        command = when_mode _ _ _ m;
        http = when_mode _ _ _ h;
      })))

  not_empty-≢ : not_empty c.auto_router_tail ≡ true → c.auto_router_tail ≢ []
  not_empty-≢ h = go c.auto_router_tail h
    where
      go : (entries : List AutoRouterEntry) → not_empty entries ≡ true → entries ≢ []
      go [] h = absurd (ground (arith, h))
      go (entry ∷ entries) h = λ e. cc

  -- A configuration passes only if it has a URL of scheme http or https, an API key, routers with
  -- id and input, a database, a known inventory mode with the settings that the mode needs, and a
  -- cron of five fields; any other one is answered by ValueError.
  pub validate_static_config-Checked : Checked IsValid (validate_static_config c)
  unfolding validate_static_config
  validate_static_config-Checked = require-Checked IsValid _ _ _ (λ url.
      require-Checked IsValid _ _ _ (λ key. require-Checked IsValid _ _ _ (λ tail.
        require-Checked IsValid _ _ _ (λ entries. require-Checked IsValid _ _ _ (λ database.
          require-Checked IsValid _ _ _ (λ mode. require-Checked IsValid _ _ _ (λ cron.
            Checked-map
              (λ settings. record {
                omniroute = url;
                api_key = key;
                tail = not_empty-≢ tail;
                entries = all_entries-All c.auto_router_tail entries;
                database = database;
                mode = mode;
                cron = cron;
                settings = settings;
              })
              validate_mode-Checked)))))))
