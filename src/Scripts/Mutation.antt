-- ===== src/Scripts/Mutation.antt =====
-- `apply_mutant` and the loop of `main` in scripts/mutation_test.py. What `read` gives is the text
-- of a file of the copied repository; the tests are a function from the changed file to the exit code,
-- or to `none` where they do not end within 30 seconds, which raises.
pub mod Gate
use nadi.Common.{
  ℕ, suc, String, ◌<>◌, Bool, map, length, ◌++◌, Option, none, some, List, [], ◌∷◌, ◌==◌, nat_eq,
  if◌then◌else◌,
}
use nadi.Strings.{occurs, replace_first, decimal, join_with}

-- `class Mutant`
pub record Mutant : Type 0 where
  pub name : String
  pub path : String
  pub old : String
  pub new : String

-- `none` is the RuntimeError of a target text that is not there.
unfoldable pub apply_mutant : (String → String) → Mutant → Option String
apply_mutant read mutant =
    let text = read mutant.path in
    if occurs mutant.old text then some (replace_first mutant.old mutant.new text) else none

-- How many mutants were killed, and the names of those that survived.
pub record Score : Type 0 where
  pub killed : ℕ
  pub survivors : List String

abbrev pub count_run : String → ℕ → Score → Score
count_run name returncode score =
    if returncode == 0
    then record score { survivors = name ∷ score.survivors }
    else record score { killed = suc score.killed }

module _ (read : String → String) (run_tests : String → String → Option ℕ) where
  -- The loop over the mutants, which the first missing target and the first timeout end.
  unfoldable pub run_mutants : List Mutant → Option Score
  run_mutants [] = some (record { killed = 0; survivors = [] })
  run_mutants (m ∷ ms) = elim (apply_mutant read m) [
    | none ↦ none
    | some text ↦ elim (run_tests m.path text) [
      | none ↦ none
      | some returncode ↦ elim (run_mutants ms) [
        | none ↦ none
        | some score ↦ some (count_run m.name returncode score)
      ]
    ]
  ]

-- The exit code of `main`
abbrev pub gate_code : Score → ℕ
gate_code score = elim score.survivors [ [] ↦ 0 | _ ∷ _ ↦ 1 ]

-- `MUTANTS`
abbrev mutant : String → String → String → String → Mutant
mutant name path old new = record { name = name; path = path; old = old; new = new }

abbrev pub gate_mutants : List Mutant
gate_mutants =
    mutant "uppercase_tool_lowercases" "nadi/sandboxd.py" "str(args.get(\"text\", \"\")).upper()"
      "str(args.get(\"text\", \"\")).lower()"
    ∷ mutant "sandbox_escape_allows_parent" "nadi/sandboxd.py"
        "if self.root not in [target, *target.parents]:"
        "if False and self.root not in [target, *target.parents]:"
    ∷ mutant "jwt_allows_wrong_session" "nadi/security.py" "if data.get(\"sid\") != session_id:"
        "if False and data.get(\"sid\") != session_id:"
    ∷ mutant "jwt_allows_missing_scope" "nadi/security.py"
        "if scope not in scopes and data.get(\"scope\") != \"*\":"
        "if False and scope not in scopes and data.get(\"scope\") != \"*\":"
    ∷ mutant "model_prefix_changed" "nadi/runtime.py" "f\"deterministic-model:{prompt}\""
        "f\"mutated-model:{prompt}\""
    ∷ mutant "event_sequence_starts_at_zero" "nadi/store.py"
        "SELECT COALESCE(MAX(sequence), 0) + 1 FROM events WHERE session_id=?"
        "SELECT COALESCE(MAX(sequence), 0) FROM events WHERE session_id=?"
    ∷ mutant "broker_counts_tool_path" "nadi/broker.py"
        "self.tool_path_calls = 0  # tests assert this stays zero for tool execution"
        "self.tool_path_calls = 1  # mutated: pretend broker entered tool path"
    ∷ []

-- `percent` writes the share of the killed mutants with two places.
module _ (read : String → String) (run_tests : String → String → Option ℕ)
    (percent : ℕ → ℕ → String) where
  -- The lines that the loop prints until it ends
  unfoldable pub verdict_lines : List Mutant → List String
  verdict_lines [] = []
  verdict_lines (m ∷ ms) = elim (apply_mutant read m) [
    | none ↦ []
    | some text ↦ elim (run_tests m.path text) [
      | none ↦ []
      | some returncode ↦
          (if returncode == 0 then "SURVIVED " <> m.name else "KILLED " <> m.name)
          ∷ verdict_lines ms
    ]
  ]

  abbrev pub survivor_lines : List String → List String
  survivor_lines [] = []
  survivor_lines (n ∷ ns) = ("Survivors: " <> join_with ", " (n ∷ ns)) ∷ []

  abbrev pub score_lines : ℕ → Score → List String
  score_lines n score =
      ("Mutation score: "
        <> (decimal score.killed
            <> ("/" <> (decimal n <> (" killed (" <> (percent score.killed n <> "%)"))))))
      ∷ survivor_lines score.survivors

  -- `main` with the option `--list` or without: the lines that it prints, and the exit code, where it
  -- returns.
  unfoldable pub run_gate : Bool → List Mutant → List String × Option ℕ
  run_gate list_only ms =
      if list_only then (map (λ m. m.name) ms, some 0) else elim (run_mutants read run_tests ms) [
        | none ↦ (verdict_lines ms, none)
        | some score ↦ (verdict_lines ms ++ score_lines (length ms) score, some (gate_code score))
      ]
