-- ===== src/Json.antt =====
-- JSON values as `json.loads` and `yaml.safe_load` return them, and Python's truth test on them.
-- A number with a point is its decimal digits: `decimal m k` is m / 10 ^ k.
use free_model_orchestrator.Base.{ℕ, String, Bool, true, false, Option, none, some}
use free_model_orchestrator.Base.{◌==◌, string_eq, if◌then◌else◌, nat_beq, not}

pub data ℤ : Type 0 where
  pos : ℕ → ℤ
  negsuc : ℕ → ℤ

mutual
  pub data Json : Type 0 where
    null : Json
    bool : Bool → Json
    int : ℤ → Json
    decimal : ℤ → ℕ → Json
    str : String → Json
    arr : Items → Json
    obj : Fields → Json

  pub data Items : Type 0 where
    nil : Items
    cons : Json → Items → Items

  pub data Fields : Type 0 where
    end : Fields
    field : String → Json → Fields → Fields

abbrev pub int_truth : ℤ → Bool
int_truth (pos n) = not (nat_beq n 0)
int_truth (negsuc _) = true

-- `bool(value)`
unfoldable pub truth : Json → Bool
truth null = false
truth (bool b) = b
truth (int n) = int_truth n
truth (decimal n _) = int_truth n
truth (str s) = not (s == "")
truth (arr nil) = false
truth (arr (cons _ _)) = true
truth (obj end) = false
truth (obj (field _ _ _)) = true

-- `d.get(key)` on the fields of an object; `none` where the key is absent. Keys are distinct.
unfoldable pub get : String → Fields → Option Json
get key end = none
get key (field k v fs) = if key == k then some v else get key fs
