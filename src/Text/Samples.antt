-- ===== src/Text/Samples.antt =====
-- The string methods at small inputs.
use free_model_orchestrator.Base.{◌≡◌, refl, [], ◌∷◌, none, some}
use free_model_orchestrator.Json.{pos, negsuc}
use free_model_orchestrator.Text.{split, parse_int, after_first}

split_cron : split 32 "0 4 * * *" ≡ "0" ∷ "4" ∷ "*" ∷ "*" ∷ "*" ∷ []
unfolding split
split_cron = refl

split_twice : split 32 "0  4" ≡ "0" ∷ "" ∷ "4" ∷ []
unfolding split
split_twice = refl

parse_int_padded : parse_int " 07 " ≡ some (pos 7)
unfolding parse_int
parse_int_padded = refl

parse_int_sign : parse_int "-1_0" ≡ some (negsuc 9)
unfolding parse_int
parse_int_sign = refl

parse_int_star : parse_int "*/5" ≡ none
unfolding parse_int
parse_int_star = refl

parse_int_underscores : parse_int "1__0" ≡ none
unfolding parse_int
parse_int_underscores = refl

after_first_t : after_first 84 "2026-06-16T04:00:00Z" ≡ some "04:00:00Z"
unfolding after_first
after_first_t = refl
