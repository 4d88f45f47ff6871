-- ===== src/Flags/Values.antt =====
-- flagparse/flags.go: the values of the fields of a configuration, and how a default is read.
use file_upload.Prelude.{
  eqb, ℕ, ◌+◌, ◌-◌, ◌*◌, ◌^◌, Bool, true, false, ◌&&◌, ◌||◌, if◌then◌else◌, leb, ltb, Option, none,
  some, List, [], ◌∷◌, ◌++◌, ◌==◌, length,
}
use file_upload.Prelude.Text.{Text, bytes, text_beq, text_eq, has_prefix}
use file_upload.Prelude.Dict.{Dict}
use file_upload.Prelude.Int.{ℤ, pos, negsuc}

-- `V` is what the types with a method `Set` hold.
pub data Value (V : Type 0) : Type 0 where
  text : Text → Value V
  flag : Bool → Value V
  number : ℤ → Value V
  custom : V → Value V

-- The type of a field. `set` gives what `Set` leaves in a zero value, and whether it reports no
-- error.
pub data Kind (V : Type 0) : Type 0 where
  string_kind bool_kind int_kind other_kind : Kind V
  value_kind : (Text → V × Bool) → Kind V

one_of : Text → List Text → Bool
unfolding text_beq
one_of s [] = false
one_of s (t ∷ ts) = s == t || one_of s ts

-- strconv.ParseBool: false with an error for any other text.
unfoldable pub parse_bool : Text → Bool
unfolding one_of
parse_bool s =
    one_of s (bytes "1" ∷ bytes "t" ∷ bytes "T" ∷ bytes "TRUE" ∷ bytes "true" ∷ bytes "True" ∷ [])

-- The number that decimal digits stand for.
digits : ℕ → Text → Option ℕ
digits n [] = some n
digits n (c ∷ s) =
    let rest = digits (n * 10 + (c - 48)) s in if leb b'0' c && leb c b'9' then rest else none

some_digits : Text → Option ℕ
some_digits [] = none
some_digits (c ∷ s) = digits 0 (c ∷ s)

abbrev max_int : ℕ
max_int = 2 ^ 63 - 1

-- A number out of range gives the nearest one, and a text that is no number gives 0.
clamped : Bool → Option ℕ → ℤ
clamped minus none = pos 0
clamped false (some n) = pos (if leb n max_int then n else max_int)
clamped true (some n) = if eqb n 0 then pos 0 else negsuc (if leb n max_int then n - 1 else max_int)

-- strconv.Atoi, with its value where it gives an error.
unfoldable pub atoi : Text → ℤ
unfolding clamped some_digits digits
atoi [] = pos 0
atoi (c ∷ s) =
    if eqb c b'-'
    then clamped true (some_digits s)
    else if eqb c b'+'
    then clamped false (some_digits s)
    else clamped false (digits 0 (c ∷ s))

-- The pair that a replacer takes at the start of a text.
first_match : List (Text × Text) → Text → Option (Text × Text)
unfolding has_prefix
first_match [] s = none
first_match ((old, new) ∷ pairs) s =
    if has_prefix s old then some (old, new) else first_match pairs s

-- What the replacer writes for the rest of a text, of which it has already read `k` bytes.
replace_from : List (Text × Text) → ℕ → Text → Text
unfolding first_match
replace_from pairs k [] = []
replace_from pairs k (c ∷ s) =
    if ltb 0 k then replace_from pairs (k - 1) s else (elim (first_match pairs (c ∷ s)) [
      | none ↦ c ∷ replace_from pairs 0 s
      | some (old, new) ↦ new ++ replace_from pairs (length old - 1) s
    ])

braces : Dict Text → List (Text × Text)
braces [] = []
braces ((k, v) ∷ names) = (bytes "{" ++ (k ++ bytes "}"), v) ∷ braces names

-- `getReplacer`, and what it makes of a text; none for no names.
unfoldable pub replace_names : Option (Dict Text) → Text → Text
unfolding replace_from braces
replace_names none s = s
replace_names (some names) s = replace_from (braces names) 0 s
