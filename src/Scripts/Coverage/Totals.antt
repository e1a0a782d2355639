-- ===== src/Scripts/Coverage/Totals.antt =====
-- `main` of scripts/coverage_check.py after the tests have run. What the tracer counted and how the tests
-- ended are arguments; the floating-point numbers are a type with the operations that `main` uses.
use nadi.Common.{
  ℕ, ◌+◌, String, Bool, true, ◌&&◌, Option, none, some, List, [], ◌∷◌, ltb, ◌==◌, nat_eq, string_eq,
  if◌then◌else◌,
}
use nadi.Common.Int.{ℤ, pos, negsuc}
use nadi.Sql.{exists_where, count_where}
use nadi.Scripts.Coverage.{executable_lines}

-- How the run of the tests ended: with a SystemExit of a code that is missing, an integer or another
-- object, or without one.
pub data Ending : Type 0 where
  returned no_code other_code : Ending
  int_code : ℤ → Ending

-- The code with which `main` then returns at once
abbrev pub test_failure : Ending → Option ℤ
test_failure returned = none
test_failure no_code = none
test_failure other_code = some (pos 1)
test_failure (int_code (pos n)) = if n == 0 then none else some (pos n)
test_failure (int_code (negsuc n)) = some (negsuc n)

-- A line of a file with the number of times that it ran.
pub record Count : Type 0 where
  pub filename : String
  pub lineno : ℕ
  pub count : ℕ

-- The row of a file in the table.
pub record Row (Float : Type 0) : Type 0 where
  pub rel : String
  pub file_covered : ℕ
  pub file_total : ℕ
  pub file_pct : Float

-- `resolve` is `Path.resolve`, `percent` is `a / b * 100.0`, and `below` is `<`.
module _ {Float : Type 0} (resolve : String → String) (percent : ℕ → ℕ → Float) (hundred : Float)
    (below : Float → Float → Bool) where
  abbrev pub is_hit : List Count → String → ℕ → Bool
  is_hit counts path lineno =
      exists_where
        (λ k. resolve k.filename == resolve path && (k.lineno == lineno && ltb 0 k.count)) counts

  abbrev pub percent_or_hundred : ℕ → ℕ → Float
  percent_or_hundred covered total = if total == 0 then hundred else percent covered total

  -- The loop over the files, each with its lines
  unfoldable pub file_rows : List Count → List (String × List String) → List (Row Float)
  file_rows counts [] = []
  file_rows counts ((path, lines) ∷ files) =
      let executable = executable_lines lines in
      let covered = count_where (is_hit counts path) executable in
      let total = count_where (λ n. true) executable in
      record {
        rel = path;
        file_covered = covered;
        file_total = total;
        file_pct = percent_or_hundred covered total;
      }
      ∷ file_rows counts files

  unfoldable pub total_of : (Row Float → ℕ) → List (Row Float) → ℕ
  total_of part [] = 0
  total_of part (row ∷ rows) = part row + total_of part rows

  -- The exit code of `main`, and the rows of the table that it prints.
  unfoldable pub coverage_gate :
      Ending → Float → List Count → List (String × List String) → ℤ × List (Row Float)
  unfolding file_rows total_of
  coverage_gate ending least counts files = elim (test_failure ending) [
    | some code ↦ (code, [])
    | none ↦
        let rows = file_rows counts files in
        let pct =
          percent_or_hundred (total_of (λ r. r.file_covered) rows)
            (total_of (λ r. r.file_total) rows) in
        (if below pct least then pos 2 else pos 0, rows)
  ]
