-- ===== src/Scripts/Report/Tests.antt =====
-- The report and its analyses at concrete files.
use nadi.Common.{
  ◌≡◌, refl, String, ◌<>◌, true, false, none, List, [], ◌∷◌, ◌==◌, nat_eq, string_eq, if◌then◌else◌,
}
use nadi.Strings.{decimal, join_with, replace_all}
use nadi.Sql.{count_where, exists_where, select, order_by}
use nadi.Scripts.Dry.{
  duplicate_blocks, add_hits, chunks, normalized, normalize_line, add_hit, take, in_two_places,
}
use nadi.Scripts.Literals.{Token, text, no_literal, repeated_literals, count_tokens}
use nadi.Scripts.Shapes.{
  Node, name, arg, constant, function, other, nil, cons, plain, function_shapes,
}
use nadi.Scripts.Shapes.Renaming.{Renaming}
use nadi.Scripts.Report.{Tree, Source, python_files, render_report, run_report, parts_leb}
use nadi.Scripts.Report.Listing.{stands_for_it, python_files_lem}

abbrev quoted_text : Token
quoted_text = record { is_string = true; literal = text "a long text" }

abbrev token_files : List (List Token)
token_files =
    (quoted_text ∷ quoted_text ∷ record { is_string = true; literal = no_literal } ∷ [])
    ∷ (quoted_text ∷ record { is_string = false; literal = no_literal } ∷ quoted_text ∷ [])
    ∷ []

abbrev primed : Renaming
primed = record {
  variable = λ x. x <> "'";
  parameter = λ x. "p";
  annotation = λ a. nil;
  new_text = λ s. "";
  new_plain = λ s. "0";
}

abbrev small_function : Node
small_function =
    function "FunctionDef" "f" 1 (cons (arg "x" nil) nil)
      (cons (other "Return" (cons (name "x" "Load") nil)) (cons (constant (plain "7")) nil)) nil

-- A directory with one file, which is listed by its own path too.
abbrev small_tree : Tree
small_tree = record {
  suffix = λ p. ".py";
  is_file = λ p. p == "a.py";
  is_dir = λ p. p == "d";
  parts = λ p. p ∷ [];
  rglob_py = λ p. "b.py" ∷ "a.py" ∷ [];
}

python_files_example :
    count_where (λ q. "a.py" == q) (python_files small_tree ("d" ∷ "a.py" ∷ []))
    ≡ (if exists_where (stands_for_it small_tree "a.py") ("d" ∷ "a.py" ∷ []) then 1 else 0)
python_files_example = python_files_lem small_tree ("d" ∷ "a.py" ∷ []) "a.py"

listed_in_order : python_files small_tree ("d" ∷ "a.py" ∷ []) ≡ "a.py" ∷ "b.py" ∷ []
unfolding python_files order_by select exists_where parts_leb
listed_in_order = refl

abbrev source : String → Source
source path = record { path = path; lines = "x = 1" ∷ "y = 2" ∷ []; tokens = []; tree = none }

abbrev expected : String
expected = join_with "\n" (
    "Nadi DRY Analysis" ∷ "" ∷ "Generated by `python scripts/dry_analysis.py --format markdown`."
    ∷ "" ∷ "## Summary" ∷ "" ∷ "- Python files scanned: 2"
    ∷ "- Duplicate normalized 2-line blocks: 1" ∷ "- Repeated string literals appearing 4+ times: 0"
    ∷ "- Repeated function shapes: 0" ∷ "- Duplicate block budget: <= 0" ∷ ""
    ∷ "## Duplicate code blocks" ∷ "" ∷ "### Block 1 — 2 occurrences" ∷ "- `a.py:1`" ∷ "- `b.py:1`"
    ∷ "```text" ∷ "x = 1" ∷ "y = 2" ∷ "```" ∷ "" ∷ "## Repeated string literals" ∷ ""
    ∷ "No heavily repeated string literals found." ∷ "" ∷ "## Repeated function shapes" ∷ ""
    ∷ "No repeated function shapes found." ∷ "## Recommendation" ∷ ""
    ∷ "DRY budget fails. Extract helpers/fixtures for the duplicate blocks above before growing the suite further."
    ∷ "" ∷ [])

report_of_two :
    run_report (λ t. t) (λ n. "") false 1 0 (source "a.py" ∷ source "b.py" ∷ []) ≡ (expected, 2)
unfolding run_report join_with replace_all render_report decimal duplicate_blocks select add_hits
    chunks normalized normalize_line add_hit take in_two_places exists_where repeated_literals
    order_by count_tokens function_shapes
report_of_two = refl
