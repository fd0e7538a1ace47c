-- ===== src/Omniroute/Version.antt =====
-- `OmniRouteVersionGate`, `_version_matches` and `_version_tuple`.
use free_model_orchestrator.Base.{
  ℕ, ◌≡◌, refl, String, Bool, true, false, ◌||◌, none, some, List, [], ◌∷◌, if◌then◌else◌, arith,
  ltb, nat_beq, ◌==◌, string_eq,
}
use text.Mathlib.Text.{starts_with}
use free_model_orchestrator.Text.{codes, strip_codes, is_digits, all_digits, read_digits}

pub record VersionDecision : Type 0 where
  pub version : String
  pub can_read : Bool
  pub can_apply : Bool

abbrev digits_value : List ℕ → ℕ
digits_value cs = elim (read_digits false 0 cs) [ some n ↦ n | none ↦ 0 ]

-- The loop over the parts: it breaks at the first one that is no number.
unfoldable pub read_parts : List (List ℕ) → List ℕ
unfolding all_digits
read_parts [] = []
read_parts (part ∷ parts) = if is_digits part then digits_value part ∷ read_parts parts else []

-- `while len(numbers) < 3: numbers.append(0)`
abbrev pub pad_to_three : List ℕ → List ℕ
pad_to_three [] = 0 ∷ 0 ∷ 0 ∷ []
pad_to_three (a ∷ []) = a ∷ 0 ∷ 0 ∷ []
pad_to_three (a ∷ b ∷ []) = a ∷ b ∷ 0 ∷ []
pad_to_three numbers = numbers

abbrev prepend_code : ℕ → List (List ℕ) → List (List ℕ)
prepend_code c [] = (c ∷ []) ∷ []
prepend_code c (part ∷ parts) = (c ∷ part) ∷ parts

-- The text cut at each dot, over its code points.
unfoldable pub split_codes : ℕ → List ℕ → List (List ℕ)
split_codes sep [] = [] ∷ []
split_codes sep (c ∷ cs) =
    let rest = split_codes sep cs in if nat_beq c sep then [] ∷ rest else prepend_code c rest

unfoldable pub version_tuple : String → List ℕ
unfolding read_parts split_codes strip_codes read_digits
version_tuple value = pad_to_three (read_parts (split_codes b'.' (strip_codes (codes value))))

-- Python's order on tuples.
unfoldable pub tuple_le : List ℕ → List ℕ → Bool
tuple_le [] ys = true
tuple_le (x ∷ xs) [] = false
tuple_le (x ∷ xs) (y ∷ ys) = if nat_beq x y then tuple_le xs ys else ltb x y

-- `rule[2:]` where the rule begins with ">="
abbrev drop_two : String → String
drop_two String.[] = ""
drop_two (String.◌∷◌ _ String.[]) = ""
drop_two (String.◌∷◌ _ (String.◌∷◌ _ s)) = s

unfoldable pub version_matches : (version rule : String) → Bool
unfolding tuple_le version_tuple
version_matches version rule =
    if starts_with rule ">="
    then tuple_le (version_tuple (drop_two rule)) (version_tuple version)
    else version == rule

unfoldable pub any_rule : String → List String → Bool
any_rule version [] = false
any_rule version (rule ∷ rules) = version_matches version rule || any_rule version rules

unfoldable pub evaluate : (known_apply_versions : List String) (version : String) → VersionDecision
unfolding any_rule version_matches
evaluate known_apply_versions version = record {
  version = version;
  can_read = true;
  can_apply = any_rule version known_apply_versions;
}

tuple_le_refl : (xs : List ℕ) → tuple_le xs xs ≡ true
unfolding tuple_le
tuple_le_refl [] = refl
tuple_le_refl (x ∷ xs) = ground (arith, tuple_le_refl xs)

pub tuple_le_trans :
    (xs ys zs : List ℕ) → tuple_le xs ys ≡ true → tuple_le ys zs ≡ true → tuple_le xs zs ≡ true
unfolding tuple_le
tuple_le_trans [] ys zs h k = refl
tuple_le_trans (x ∷ xs) [] zs h k = cc
tuple_le_trans (x ∷ xs) (y ∷ ys) [] h k = cc
tuple_le_trans (x ∷ xs) (y ∷ ys) (z ∷ zs) h k = ground (arith, tuple_le_trans xs ys zs)

-- All the rules are lower bounds.
abbrev pub AreBounds : List String → Type 0
AreBounds [] = Unit
AreBounds (rule ∷ rules) = (starts_with rule ">=" ≡ true) × AreBounds rules

-- Under rules that are all lower bounds, a version that may apply stays accepted after an upgrade.
pub evaluate_mono :
    (rules : List String) (old new : String)
    → AreBounds rules
    → tuple_le (version_tuple old) (version_tuple new) ≡ true
    → (evaluate rules old).can_apply ≡ true
    → (evaluate rules new).can_apply ≡ true
unfolding any_rule version_matches evaluate
evaluate_mono [] old new bounds le h = cc
evaluate_mono (rule ∷ rules) old new (bound, bounds) le h = ground (
  arith,
  bound,
  tuple_le_trans (version_tuple (drop_two rule)) (version_tuple old) (version_tuple new),
  evaluate_mono rules old new bounds le,
)
