-- ===== src/Scripts/Tests.antt =====
-- The scripts at concrete files.
use nadi.Common.{
  ℕ, ◌≡◌, ◌<>◌, refl, String, false, Option, none, some, map, List, [], ◌∷◌, ◌==◌, string_eq,
  if◌then◌else◌,
}
use nadi.Strings.{
  join_with, drop_chars, replace_first, strip, occurs, count_text, replace_first, lstrip, rstrip,
}
use nadi.Sql.{select}
use nadi.Dict.{lookup}
use nadi.Scripts.Coverage.{executable_lines, scan_lines, scan_line, is_passed_over, opening_quote}
use nadi.Scripts.Dry.{duplicate_blocks, in_two_places}
use nadi.Scripts.Dry.Blocks.{all_hits, duplicate_blocks_lem}
use nadi.Scripts.Mutation.{apply_mutant, run_gate, gate_mutants}
use nadi.Scripts.Mutation.Gate.{apply_mutant_ok, exits_0, all_of, is_killed, gate_code_lem}

abbrev file : List String
file = "'''A module." ∷ "'''" ∷ "" ∷ "x = 1  # one" ∷ "# done" ∷ "y = 2" ∷ []

file_lines : executable_lines file ≡ 4 ∷ 6 ∷ []
unfolding executable_lines scan_lines scan_line is_passed_over opening_quote strip lstrip rstrip
    occurs count_text
file_lines = refl

abbrev same_text : String → String
same_text t = t

abbrev files : List (String × List String)
files = ("a.py", "x  = 1" ∷ "y = 2" ∷ []) ∷ ("b.py", "x = 1" ∷ "" ∷ "y = 2" ∷ []) ∷ []

duplicate_blocks_example :
    let hits = select (λ h. h.text == "x = 1\ny = 2") (all_hits same_text 1 files) in
    lookup "x = 1\ny = 2" (duplicate_blocks same_text 1 files)
    ≡ (if in_two_places hits then some hits else none)
duplicate_blocks_example = duplicate_blocks_lem same_text 1 files "x = 1\ny = 2"

abbrev read : String → String
read path = "if a:"

apply_mutant_ok_example :
    (before : String) × (after : String) × ("if a:" ≡ before <> ("a" <> after))
    × ("if b:" ≡ before <> ("b" <> after))
unfolding apply_mutant occurs replace_first drop_chars
apply_mutant_ok_example =
    apply_mutant_ok read (record { name = "flip"; path = "a.py"; old = "a"; new = "b" }) "if b:"
      refl

-- Each of the gate's own mutants has its text to replace in one file; the tests fail on all but one of
-- the changed files.
abbrev all_olds : String
all_olds = join_with "; " (map (λ m. m.old) gate_mutants)

abbrev failing : String → String → Option ℕ
failing path text = if path == "nadi/runtime.py" then some 0 else some 1

gate_code_example :
    exits_0 (run_gate (λ path. all_olds) failing (λ n m. "") false gate_mutants).1
    ≡ all_of (is_killed (λ path. all_olds) failing) gate_mutants
gate_code_example = gate_code_lem (λ path. all_olds) failing (λ n m. "") gate_mutants
