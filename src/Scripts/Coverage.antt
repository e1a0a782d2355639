-- ===== src/Scripts/Coverage.antt =====
-- `executable_lines` of scripts/coverage_check.py, over the lines of a file.
pub mod Bounds
pub mod Totals
use Prim.Native.Char.{code}
use nadi.Common.{
  ℕ, suc, String, Bool, true, false, ◌||◌, Option, none, some, List, [], ◌∷◌, ltb, if◌then◌else◌,
}
use nadi.Strings.{strip, is_space, is_empty, has_prefix, occurs, count_text}

-- A blank line or a comment
unfoldable pub is_passed_over : String → Bool
is_passed_over stripped = is_empty stripped || has_prefix "#" stripped

-- The quotes with which a docstring begins
unfoldable pub opening_quote : String → Option String
opening_quote stripped =
    if has_prefix "'''" stripped
    then some "'''"
    else if has_prefix "\"\"\"" stripped
    then some "\"\"\""
    else none

-- The body of the loop: the quotes of the docstring that is open after a line, and whether the line
-- counts.
unfoldable pub scan_line : Option String → String → Option String × Bool
unfolding is_passed_over opening_quote
scan_line in_docstring stripped =
    if is_passed_over stripped then (in_docstring, false) else elim in_docstring [
      | some quote ↦ (if occurs quote stripped then none else some quote, false)
      | none ↦ elim (opening_quote stripped) [
        | none ↦ (none, true)
        | some quote ↦ (if ltb (count_text quote stripped) 2 then some quote else none, false)
      ]
    ]

unfoldable pub scan_lines : Option String → ℕ → List String → List ℕ
scan_lines in_docstring lineno [] = []
scan_lines in_docstring lineno (raw ∷ rest) =
    let (next, counts) = scan_line in_docstring (strip is_space raw) in
    let more = scan_lines next (suc lineno) rest in if counts then lineno ∷ more else more

unfoldable pub executable_lines : List String → List ℕ
unfolding scan_lines
executable_lines file = scan_lines none 1 file
