-- ===== src/Prelude/Text.antt =====
-- Python's text operations that the program uses, on native texts.
use Prim.Native.Nat.{ℕ, zero, suc, ◌/◌, ◌%◌}
use Prim.Native.Char.{Char, code}
use Prim.Native.String.{String, ◌++◌}
use mathlib.Core.Bool.{Bool, true, false, ◌&&◌, ◌||◌}
use mathlib.Core.List.{List, [], ◌∷◌}
use draftly_agent_backend.Prelude.Tests.{◌==◌, string_eq, leb, nat_beq, if◌then◌else◌}

-- The characters for which `str.isspace` holds.
abbrev pub is_space : Char → Bool
is_space ch =
    let c = code ch in
    (leb 9 c && leb c 13)
    || (leb 28 c && leb c 32)
    || nat_beq c 0x85
    || nat_beq c 0xa0
    || nat_beq c 0x1680
    || (leb 0x2000 c && leb c 0x200a)
    || nat_beq c 0x2028
    || nat_beq c 0x2029
    || nat_beq c 0x202f
    || nat_beq c 0x205f
    || nat_beq c 0x3000

abbrev pub is_empty : String → Bool
is_empty String.[] = true
is_empty (String.◌∷◌ c s) = false

lstrip : String → String
lstrip String.[] = ""
lstrip (String.◌∷◌ c s) = let rest = lstrip s in if is_space c then rest else String.◌∷◌ c s

rstrip : String → String
rstrip String.[] = ""
rstrip (String.◌∷◌ c s) =
    let rest = rstrip s in if is_empty rest && is_space c then "" else String.◌∷◌ c rest

-- `text.strip()`
unfoldable pub strip : String → String
unfolding lstrip rstrip
strip s = rstrip (lstrip s)

-- `separator.join(items)`
unfoldable pub join_with : String → List String → String
join_with separator [] = ""
join_with separator (x ∷ []) = x
join_with separator (x ∷ y ∷ ys) = x ++ separator ++ join_with separator (y ∷ ys)

digit : ℕ → String
digit n =
    if nat_beq n 0
    then "0"
    else if nat_beq n 1
    then "1"
    else if nat_beq n 2
    then "2"
    else if nat_beq n 3
    then "3"
    else if nat_beq n 4
    then "4"
    else if nat_beq n 5
    then "5"
    else if nat_beq n 6
    then "6"
    else if nat_beq n 7
    then "7"
    else if nat_beq n 8
    then "8"
    else "9"

show_digits : ℕ → ℕ → String → String
unfolding digit
show_digits zero n acc = acc
show_digits (suc fuel) n acc =
    let longer = digit (n % 10) ++ acc in
    let rest = show_digits fuel (n / 10) longer in if nat_beq (n / 10) 0 then longer else rest

-- `str(n)`: a number has no more digits than one more than its value, which is the fuel.
unfoldable pub show_nat : ℕ → String
unfolding show_digits
show_nat n = show_digits (suc n) n ""

-- `text[:n]`
abbrev pub take_text : ℕ → String → String
take_text zero s = ""
take_text (suc n) String.[] = ""
take_text (suc n) (String.◌∷◌ c s) = String.◌∷◌ c (take_text n s)

abbrev pub same_char : Char → Char → Bool
same_char c d = nat_beq (code c) (code d)

-- `text.startswith(prefix)`
unfoldable pub starts_with : String → String → Bool
starts_with s String.[] = true
starts_with String.[] (String.◌∷◌ d p) = false
starts_with (String.◌∷◌ c s) (String.◌∷◌ d p) = same_char c d && starts_with s p

-- `text.endswith(suffix)`
unfoldable pub ends_with : String → String → Bool
ends_with String.[] suffix = is_empty suffix
ends_with (String.◌∷◌ c s) suffix = String.◌∷◌ c s == suffix || ends_with s suffix

-- `character in text`
unfoldable pub has_char : Char → String → Bool
has_char c String.[] = false
has_char c (String.◌∷◌ d s) = same_char c d || has_char c s

lstrip_char : Char → String → String
lstrip_char c String.[] = ""
lstrip_char c (String.◌∷◌ d s) =
    let rest = lstrip_char c s in if same_char c d then rest else String.◌∷◌ d s

-- `text.rstrip(character)`
unfoldable pub rstrip_char : Char → String → String
rstrip_char c String.[] = ""
rstrip_char c (String.◌∷◌ d s) =
    let rest = rstrip_char c s in if is_empty rest && same_char c d then "" else String.◌∷◌ d rest

-- `text.strip(character)`
unfoldable pub strip_char : Char → String → String
unfolding lstrip_char rstrip_char
strip_char c s = rstrip_char c (lstrip_char c s)
