-- ===== src/Scripts/Literals.antt =====
-- `string_literals` of scripts/dry_analysis.py, and the choice that `render_report` makes of them.
-- A file is the tokens that `tokenize` gives until it ends or raises a TokenError.
pub mod Counts
use nadi.Common.{
  ℕ, suc, String, Bool, true, false, not, ◌&&◌, Option, none, some, List, [], ◌∷◌, leb, string_eq,
  if◌then◌else◌,
}
use nadi.Strings.{text_length, occurs}
use nadi.Sql.{select, order_by}
use nadi.Dict.{Dict, lookup, put}

-- What `ast.literal_eval` gives for a token: a text, another value, or an exception.
pub data Literal : Type 0 where
  text : String → Literal
  other_value : Literal
  no_literal : Literal

pub record Token : Type 0 where
  pub is_string : Bool
  pub literal : Literal

abbrev pub is_counted : String → Bool
is_counted value = leb 8 (text_length value) && not (occurs "\n" value)

-- The value that a token adds one to
unfoldable pub counted : Token → Option String
counted tok =
    if tok.is_string
    then elim tok.literal [
      | text value ↦ if is_counted value then some value else none
      | other_value ↦ none
      | no_literal ↦ none
    ]
    else none

-- `counts[value]` of a `Counter`
abbrev pub times : Option ℕ → ℕ
times none = 0
times (some n) = n

abbrev pub add_one : Option String → Dict String ℕ → Dict String ℕ
add_one none counts = counts
add_one (some value) counts = put value (suc (times (lookup value counts))) counts

unfoldable pub count_tokens : List Token → Dict String ℕ → Dict String ℕ
count_tokens [] counts = counts
count_tokens (tok ∷ toks) counts = count_tokens toks (add_one (counted tok) counts)

unfoldable pub count_files : List (List Token) → Dict String ℕ → Dict String ℕ
count_files [] counts = counts
count_files (file ∷ files) counts = count_files files (count_tokens file counts)

unfoldable pub string_literals : List (List Token) → Dict String ℕ
unfolding count_files
string_literals files = count_files files []

-- `counts.most_common()`: a stable sort by the counts, the greatest first
abbrev pub at_least : String × ℕ → String × ℕ → Bool
at_least (s, m) (t, n) = leb n m

unfoldable pub most_common : Dict String ℕ → List (String × ℕ)
most_common counts = order_by at_least counts

abbrev pub is_repeated : String × ℕ → Bool
is_repeated (s, n) = leb 4 n

unfoldable pub repeated_literals : List (List Token) → List (String × ℕ)
unfolding string_literals most_common
repeated_literals files = select is_repeated (most_common (string_literals files))
