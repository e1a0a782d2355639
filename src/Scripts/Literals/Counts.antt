-- ===== src/Scripts/Literals/Counts.antt =====
-- The counts of `string_literals`, against the tokens of all files.
use nadi.Common.{
  ℕ, ◌+◌, String, Bool, false, Option, none, some, List, [], ◌∷◌, ◌==◌, string_eq, if◌then◌else◌,
}
use nadi.Dict.{Dict}
use nadi.Scripts.Literals.{Token, counted}

abbrev pub is_value : String → Option String → Bool
is_value s none = false
is_value s (some value) = value == s

-- How many tokens of a file, and of all files, count for a text.
abbrev pub occurrences : String → List Token → ℕ
occurrences s [] = 0
occurrences s (tok ∷ toks) = (if is_value s (counted tok) then 1 else 0) + occurrences s toks

abbrev pub occurrences_in : String → List (List Token) → ℕ
occurrences_in s [] = 0
occurrences_in s (file ∷ files) = occurrences s file + occurrences_in s files
