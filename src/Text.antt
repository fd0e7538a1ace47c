-- ===== src/Text.antt =====
-- The string methods of Python that the program calls, on ASCII text.
pub mod Replace
mod Samples
use Prim.Native.Char.{Char, code}
use Prim.Native.String.{compare}
use text.Mathlib.Text.{is_le}
use free_model_orchestrator.Base.{
  ℕ, ◌+◌, ◌-◌, ◌*◌, ◌/◌, ◌%◌, ltb, ◌<>◌, String, Bool, true, false, ◌&&◌, ◌||◌, not, Option, none,
  some, List, [], ◌∷◌, ◌++◌, leb, nat_beq, if◌then◌else◌, contains, string_eq,
}
use free_model_orchestrator.Json.{ℤ, pos, negsuc}
use mathlib.Core.List.{reverse}

abbrev pub singleton : Char → String
singleton c = String.◌∷◌ c String.[]

abbrev prepend : Char → List String → List String
prepend c [] = singleton c ∷ []
prepend c (part ∷ parts) = String.◌∷◌ c part ∷ parts

-- `s.split(sep)` for a separator of one character: the part read so far goes before the rest.
unfoldable pub split : ℕ → String → List String
split sep String.[] = "" ∷ []
split sep (String.◌∷◌ c s) =
    let rest = split sep s in if nat_beq (code c) sep then "" ∷ rest else prepend c rest

-- What stands behind the first separator: `s.split(sep, 1)[1]`, `none` if there is none.
unfoldable pub after_first : ℕ → String → Option String
after_first sep String.[] = none
after_first sep (String.◌∷◌ c s) = if nat_beq (code c) sep then some s else after_first sep s

abbrev pub codes : String → List ℕ
codes String.[] = []
codes (String.◌∷◌ c s) = code c ∷ codes s

-- `str.isspace` on ASCII
abbrev pub is_space : ℕ → Bool
is_space c = nat_beq c 32 || (leb 9 c && leb c 13) || (leb 28 c && leb c 31)

unfoldable pub skip_spaces : List ℕ → List ℕ
skip_spaces [] = []
skip_spaces (c ∷ cs) = if is_space c then skip_spaces cs else c ∷ cs

-- `strip()`
unfoldable pub strip_codes : List ℕ → List ℕ
unfolding skip_spaces
strip_codes cs = reverse (skip_spaces (reverse (skip_spaces cs)))

-- The digits of a literal of `int`: one `_` may stand between two digits. The flag says that the
-- last character was a digit.
unfoldable pub read_digits : Bool → ℕ → List ℕ → Option ℕ
read_digits true n [] = some n
read_digits false n [] = none
read_digits after_digit n (c ∷ cs) =
    let more = read_digits true (n * 10 + (c - 48)) cs in
    let other = read_digits false n cs in
    if leb 48 c && leb c 57 then more else if nat_beq c 95 && after_digit then other else none

abbrev map_option : {A B : Type 0} → (A → B) → Option A → Option B
map_option f none = none
map_option f (some a) = some (f a)

abbrev negate : ℕ → ℤ
negate ℕ.zero = pos 0
negate (ℕ.suc n) = negsuc n

abbrev read_signed : List ℕ → Option ℤ
read_signed [] = none
read_signed (c ∷ cs) =
    if nat_beq c 45
    then map_option negate (read_digits false 0 cs)
    else if nat_beq c 43
    then map_option pos (read_digits false 0 cs)
    else map_option pos (read_digits false 0 (c ∷ cs))

-- `int(text)`: `none` where it raises ValueError.
unfoldable pub parse_int : String → Option ℤ
unfolding strip_codes read_digits
parse_int s = read_signed (strip_codes (codes s))

abbrev show_digit : ℕ → String
show_digit ℕ.zero = "0"
show_digit (ℕ.suc ℕ.zero) = "1"
show_digit (ℕ.suc (ℕ.suc ℕ.zero)) = "2"
show_digit (ℕ.suc (ℕ.suc (ℕ.suc ℕ.zero))) = "3"
show_digit (ℕ.suc (ℕ.suc (ℕ.suc (ℕ.suc ℕ.zero)))) = "4"
show_digit (ℕ.suc (ℕ.suc (ℕ.suc (ℕ.suc (ℕ.suc ℕ.zero))))) = "5"
show_digit (ℕ.suc (ℕ.suc (ℕ.suc (ℕ.suc (ℕ.suc (ℕ.suc ℕ.zero)))))) = "6"
show_digit (ℕ.suc (ℕ.suc (ℕ.suc (ℕ.suc (ℕ.suc (ℕ.suc (ℕ.suc ℕ.zero))))))) = "7"
show_digit (ℕ.suc (ℕ.suc (ℕ.suc (ℕ.suc (ℕ.suc (ℕ.suc (ℕ.suc (ℕ.suc ℕ.zero)))))))) = "8"
show_digit _ = "9"

show_fuel : ℕ → ℕ → String → String
show_fuel ℕ.zero n rest = rest
show_fuel (ℕ.suc fuel) n rest =
    let more = show_fuel fuel (n / 10) (show_digit (n % 10) <> rest) in
    if ltb n 10 then show_digit n <> rest else more

-- `str(n)`. A number has at most as many digits as its value, or one.
unfoldable pub show_nat : ℕ → String
unfolding show_fuel
show_nat n = show_fuel (n + 1) n ""

-- `str.isdigit` on ASCII
unfoldable pub all_digits : List ℕ → Bool
all_digits [] = true
all_digits (c ∷ cs) = leb 48 c && leb c 57 && all_digits cs

abbrev pub is_digits : List ℕ → Bool
is_digits [] = false
is_digits (c ∷ cs) = all_digits (c ∷ cs)

abbrev nth_char : ℕ → String → Char → Char
nth_char n String.[] default = default
nth_char ℕ.zero (String.◌∷◌ c s) default = c
nth_char (ℕ.suc n) (String.◌∷◌ c s) default = nth_char n s default

unfoldable pub lower_char : Char → Char
lower_char c =
    if leb 65 (code c) && leb (code c) 90
    then nth_char (code c - 65) "abcdefghijklmnopqrstuvwxyz" c
    else c

-- `s.lower()`
unfoldable pub lower : String → String
unfolding lower_char
lower String.[] = ""
lower (String.◌∷◌ c s) = String.◌∷◌ (lower_char c) (lower s)

unfoldable pub strip_left : String → String
strip_left String.[] = ""
strip_left (String.◌∷◌ c s) = if is_space (code c) then strip_left s else String.◌∷◌ c s

abbrev strip_last : Char → String → String
strip_last c String.[] = if is_space (code c) then "" else singleton c
strip_last c (String.◌∷◌ d rest) = String.◌∷◌ c (String.◌∷◌ d rest)

unfoldable pub strip_right : String → String
strip_right String.[] = ""
strip_right (String.◌∷◌ c s) = strip_last c (strip_right s)

-- `s.strip()`
unfoldable pub strip : String → String
unfolding strip_left strip_right
strip s = strip_right (strip_left s)

-- The order of Python on texts, by code points.
abbrev pub str_le : String → String → Bool
str_le s t = is_le (compare s t)

unfoldable pub insert_sorted : String → List String → List String
insert_sorted s [] = s ∷ []
insert_sorted s (t ∷ ts) = if str_le s t then s ∷ t ∷ ts else t ∷ insert_sorted s ts

-- `sorted(set(texts))`
unfoldable pub sorted_set : List String → List String
unfolding insert_sorted
sorted_set [] = []
sorted_set (s ∷ ss) =
    let rest = sorted_set ss in if contains rest s then rest else insert_sorted s rest
