-- ===== src/Text/Replace.antt =====
-- Slices and `str.replace`.
use text.Mathlib.Text.{starts_with}
use free_model_orchestrator.Base.{
  ℕ, suc, zero, ◌-◌, String, ◌==◌, ◌<>◌, string_eq, if◌then◌else◌, length,
}
use free_model_orchestrator.Text.{codes}

-- `text[:n]`
unfoldable pub first_chars : ℕ → String → String
first_chars _ String.[] = ""
first_chars zero (String.◌∷◌ c s) = ""
first_chars (suc n) (String.◌∷◌ c s) = String.◌∷◌ c (first_chars n s)

unfoldable pub interleave : String → String → String
interleave new String.[] = new
interleave new (String.◌∷◌ c s) = new <> String.◌∷◌ c (interleave new s)

-- The text from a position on, where `skip` characters belong to the last occurrence.
unfoldable pub replace_from : (old new : String) → ℕ → String → String
replace_from old new skip String.[] = ""
replace_from old new (suc skip) (String.◌∷◌ c s) = replace_from old new skip s
replace_from old new zero (String.◌∷◌ c s) =
    let found = replace_from old new (length (codes old) - 1) s in
    let rest = replace_from old new 0 s in
    if starts_with (String.◌∷◌ c s) old then new <> found else String.◌∷◌ c rest

-- `text.replace(old, new)`
unfoldable pub replace : (old new : String) → String → String
unfolding replace_from interleave
replace old new text = if old == "" then interleave new text else replace_from old new 0 text
