-- ===== src/Scripts/Mutation/Gate.antt =====
-- What the mutation gate answers.
use nadi.Common.{
  ℕ, ◌≡◌, refl, sym, ap, ◌∙◌, String, ◌<>◌, Bool, true, false, not, ◌&&◌, Option, none, some, List,
  [], ◌∷◌, arith, ◌==◌, nat_eq, nat_beq_iff, Bool-cases, Option-cases, inl, inr, if◌then◌else◌,
}
use Prim.Native.Char.{code}
use text.Mathlib.TextLemmas.{nil-append, append-nil, cons-append}
use text.Mathlib.TextEquality.{Char-path}
use nadi.Strings.{occurs, replace_first, has_prefix, drop_chars, text_length, is_empty}
use nadi.Scripts.Mutation.{Mutant, Score, apply_mutant, run_mutants, gate_code, run_gate, count_run}

drop_chars-has_prefix :
    (old text : String)
    → has_prefix old text ≡ true
    → text ≡ old <> drop_chars (text_length old) text
unfolding drop_chars
drop_chars-has_prefix String.[] text e = sym (nil-append text)
drop_chars-has_prefix (String.◌∷◌ a old) String.[] e = absurd (ground arith)
drop_chars-has_prefix (String.◌∷◌ a old) (String.◌∷◌ b text) e =
    elim (Bool-cases (code a == code b)) [
      | inl same ↦
          ap (String.◌∷◌ b) (drop_chars-has_prefix old text (ground arith))
          ∙ (ap (λ x. String.◌∷◌ x (old <> drop_chars (text_length old) text))
                (sym (Char-path a b ((nat_beq_iff (code a) (code b)).0 same)))
              ∙ sym (cons-append a old (drop_chars (text_length old) text)))
      | inr other ↦ absurd (ground arith)
    ]

replaced_empty :
    (old new : String)
    → has_prefix old "" ≡ true
    → (before : String) × (after : String) × ("" ≡ before <> (old <> after))
      × ((if is_empty old then new else "") ≡ before <> (new <> after))
replaced_empty String.[] new e = ("", "", refl, sym (nil-append (new <> "") ∙ append-nil new))
replaced_empty (String.◌∷◌ a old) new e = absurd (ground arith)

-- Where the old text occurs, one occurrence of it is replaced.
replace_first-occurs :
    (old new text : String)
    → occurs old text ≡ true
    → (before : String) × (after : String) × (text ≡ before <> (old <> after))
      × (replace_first old new text ≡ before <> (new <> after))
unfolding occurs replace_first
replace_first-occurs old new String.[] e = replaced_empty old new e
replace_first-occurs old new (String.◌∷◌ c s) e =
    elim (Bool-cases (has_prefix old (String.◌∷◌ c s))) [
      | inl here ↦ (
        String.[],
        drop_chars (text_length old) (String.◌∷◌ c s),
        drop_chars-has_prefix old (String.◌∷◌ c s) here ∙ sym (nil-append _),
        rw here (sym (nil-append _)),
      )
      | inr later ↦
          let (before, after, cut, changed) = replace_first-occurs old new s (ground arith) in
          (
            String.◌∷◌ c before,
            after,
            ap (String.◌∷◌ c) cut ∙ sym (cons-append c before (old <> after)),
            rw later (ap (String.◌∷◌ c) changed ∙ sym (cons-append c before (new <> after))),
          )
    ]

-- The file that `apply_mutant` writes is the file that it read, with the new text in the place of one
-- occurrence of the old text and nothing else changed.
pub apply_mutant_ok :
    (read : String → String) (m : Mutant) (text : String)
    → apply_mutant read m ≡ some text
    → (before : String) × (after : String) × (read m.path ≡ before <> (m.old <> after))
      × (text ≡ before <> (m.new <> after))
unfolding apply_mutant
apply_mutant_ok read m text h = elim (Bool-cases (occurs m.old (read m.path))) [
  | inl there ↦
      let (before, after, cut, changed) = replace_first-occurs m.old m.new (read m.path) there in
      (before, after, cut, ground (arith, h, there) ∙ changed)
  | inr missing ↦ absurd (ground (arith, h, missing))
]

abbrev pub exits_0 : Option ℕ → Bool
exits_0 none = false
exits_0 (some returncode) = returncode == 0

abbrev pub all_of : {A : Type 0} → (A → Bool) → List A → Bool
all_of p [] = true
all_of p (x ∷ xs) = p x && all_of p xs

module _ (read : String → String) (run_tests : String → String → Option ℕ) where
  -- The old text is in the file, and the tests end in time on the changed file, and fail.
  abbrev pub is_killed : Mutant → Bool
  is_killed m =
      occurs m.old (read m.path)
      && elim (run_tests m.path (replace_first m.old m.new (read m.path))) [
        | none ↦ false
        | some returncode ↦ not (returncode == 0)
      ]

  abbrev gate_of : Option Score → Bool
  gate_of none = false
  gate_of (some score) = gate_code score == 0

  gate_of-survived :
      (name : String) (returncode : ℕ)
      → (returncode == 0) ≡ true
      → (o : Option Score)
      → gate_of (elim o [ none ↦ none | some score ↦ some (count_run name returncode score) ])
        ≡ false
  gate_of-survived name returncode e none = refl
  gate_of-survived name returncode e (some score) = rw e refl

  gate_of-killed :
      (name : String) (returncode : ℕ)
      → (returncode == 0) ≡ false
      → (o : Option Score)
      → gate_of (elim o [ none ↦ none | some score ↦ some (count_run name returncode score) ])
        ≡ gate_of o
  gate_of-killed name returncode e none = refl
  gate_of-killed name returncode e (some score) = rw e refl

  exits_0-gate :
      (percent : ℕ → ℕ → String) (ms : List Mutant) (o : Option Score)
      → run_mutants read run_tests ms ≡ o
      → exits_0 (run_gate read run_tests percent false ms).1 ≡ gate_of o
  unfolding run_gate
  exits_0-gate percent ms none e = rw e refl
  exits_0-gate percent ms (some score) e = rw e refl

  gate_of-run_mutants :
      (ms : List Mutant) → gate_of (run_mutants read run_tests ms) ≡ all_of is_killed ms
  unfolding run_mutants apply_mutant
  gate_of-run_mutants [] = refl
  gate_of-run_mutants (m ∷ ms) = elim (Bool-cases (occurs m.old (read m.path))) [
    | inr missing ↦ rw (missing, apply_mutant, run_mutants) refl
    | inl there ↦
        let text = replace_first m.old m.new (read m.path) in
        elim (Option-cases (run_tests m.path text)) [
          | inl late ↦ rw (there, late, apply_mutant, run_mutants) refl
          | inr (returncode, ended) ↦ elim (Bool-cases (returncode == 0)) [
            | inl passed ↦
                rw (there, ended, passed, apply_mutant, run_mutants)
                  (gate_of-survived m.name returncode passed (run_mutants read run_tests ms))
            | inr failed ↦
                rw (there, ended, failed, apply_mutant, run_mutants)
                  (gate_of-killed m.name returncode failed (run_mutants read run_tests ms)
                    ∙ gate_of-run_mutants ms)
          ]
        ]
  ]

  -- Without `--list` the gate ends with the exit code 0 exactly when, for each of its mutants, the text to
  -- replace is there, and the tests end in time on the changed file and fail.
  pub gate_code_lem :
      (percent : ℕ → ℕ → String) (ms : List Mutant)
      → exits_0 (run_gate read run_tests percent false ms).1 ≡ all_of is_killed ms
  unfolding run_gate
  gate_code_lem percent ms =
      exits_0-gate percent ms (run_mutants read run_tests ms) refl ∙ gate_of-run_mutants ms
