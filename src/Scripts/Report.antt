-- ===== src/Scripts/Report.antt =====
-- `python_files`, `render_report` and what `main` does with its options, of scripts/dry_analysis.py. What
-- `pathlib` finds is a parameter, and so are the tokens and the tree of a file.
mod Tests
pub mod Listing
use Prim.Native.Nat.{Ordering}
use Prim.Native.String.{compare}
use nadi.Common.{
  ℕ, zero, suc, ◌-◌, String, ◌<>◌, Bool, true, false, not, ◌&&◌, ◌||◌, Option, none, some, List, [],
  ◌∷◌, ◌++◌, map, length, leb, ltb, ◌==◌, nat_eq, string_eq, if◌then◌else◌,
}
use nadi.Strings.{decimal, join_with, replace_all}
use nadi.Sql.{select, order_by, exists_where}
use nadi.Dict.{Dict}
use nadi.Scripts.Dry.{BlockHit, take, duplicate_blocks, exit_code}
use nadi.Scripts.Literals.{Token, repeated_literals}
use nadi.Scripts.Shapes.{Node, function_shapes}

-- What `pathlib` says of a path: the suffix, whether it is a file or a directory, its parts, and what
-- `rglob("*.py")` finds below it.
pub record Tree : Type 0 where
  pub suffix : String → String
  pub is_file : String → Bool
  pub is_dir : String → Bool
  pub parts : String → List String
  pub rglob_py : String → List String

abbrev pub text_leb : String → String → Bool
text_leb s t = elim (compare s t) [ Ordering.gt ↦ false | _ ↦ true ]

abbrev pub is_cached : Tree → String → Bool
is_cached tree path = exists_where (λ part. part == "__pycache__") (tree.parts path)

-- The loop over the paths
unfoldable pub listed_files : Tree → List String → List String
listed_files tree [] = []
listed_files tree (path ∷ paths) =
    let rest = listed_files tree paths in
    if tree.is_file path && tree.suffix path == ".py"
    then path ∷ rest
    else if tree.is_dir path
    then select (λ p. not (is_cached tree p)) (tree.rglob_py path) ++ rest
    else rest

-- `set(files)`
unfoldable pub distinct : List String → List String
distinct [] = []
distinct (p ∷ ps) =
    let rest = distinct ps in if exists_where (λ q. p == q) rest then rest else p ∷ rest

-- Paths are compared part by part.
unfoldable pub parts_leb : List String → List String → Bool
parts_leb [] ys = true
parts_leb (x ∷ xs) [] = false
parts_leb (x ∷ xs) (y ∷ ys) = let rest = parts_leb xs ys in if x == y then rest else text_leb x y

abbrev pub path_leb : Tree → String → String → Bool
path_leb tree p q = parts_leb (tree.parts p) (tree.parts q)

unfoldable pub python_files : Tree → List String → List String
unfolding listed_files distinct
python_files tree paths = order_by (path_leb tree) (distinct (listed_files tree paths))

-- What the analyses read of a file: its path, its lines, its tokens and its tree.
pub record Source : Type 0 where
  pub path : String
  pub lines : List String
  pub tokens : List Token
  pub tree : Option Node

abbrev pub raw_file : Source → String × List String
raw_file s = (s.path, s.lines)

abbrev pub parsed_file : Source → String × Option Node
parsed_file s = (s.path, s.tree)

-- The key `(-len(hits), hits[0].path)`
abbrev pub first_path : List BlockHit → String
first_path [] = ""
first_path (h ∷ hs) = h.path

abbrev pub more_hits : String × List BlockHit → String × List BlockHit → Bool
more_hits (d, hs) (e, ks) =
    ltb (length ks) (length hs)
    || (length ks == length hs && text_leb (first_path hs) (first_path ks))

abbrev pub first_text : List BlockHit → String
first_text [] = ""
first_text (h ∷ hs) = h.text

abbrev pub hit_line : BlockHit → String
hit_line h = "- `" <> (h.path <> (":" <> (decimal h.line <> "`")))

unfoldable pub block_lines : ℕ → List (String × List BlockHit) → List String
block_lines n [] = []
block_lines n ((digest, hits) ∷ blocks) =
    ("### Block " <> (decimal n <> (" — " <> (decimal (length hits) <> " occurrences"))))
    ∷ (map hit_line (take 8 hits)
        ++ ("```text" ∷ first_text hits ∷ "```" ∷ "" ∷ block_lines (suc n) blocks))

abbrev pub literal_line : String × ℕ → String
literal_line (literal, count) = "- `" <> (literal <> ("` — " <> (decimal count <> " occurrences")))

abbrev pub quoted : String → String
quoted hit = "- `" <> (hit <> "`")

unfoldable pub shape_lines : ℕ → List (String × List String) → List String
shape_lines n [] = []
shape_lines n ((digest, hits) ∷ shapes) =
    ("### Shape " <> decimal n) ∷ (map quoted hits ++ "" ∷ shape_lines (suc n) shapes)

-- One part of the report, where there may be nothing to list
abbrev pub or_line {ℓ} : {A : Type ℓ} → List A → String → List String → List String
or_line [] line lines = line ∷ []
or_line (x ∷ xs) line lines = lines

abbrev pub recommendation : ℕ → String
recommendation zero =
    "DRY budget passes. Current duplication is low enough for this MVP; repeated test vocabulary is acceptable until fixtures grow further."
recommendation (suc code) =
    "DRY budget fails. Extract helpers/fixtures for the duplicate blocks above before growing the suite further."

abbrev pub summary :
    ℕ
    → ℕ
    → List Source
    → Dict String (List BlockHit)
    → List (String × ℕ)
    → Dict String (List String)
    → List String
summary block_size max_blocks files blocks literals shapes =
    "# Nadi DRY Analysis"
    ∷ ""
    ∷ "Generated by `python scripts/dry_analysis.py --format markdown`."
    ∷ ""
    ∷ "## Summary"
    ∷ ""
    ∷ ("- Python files scanned: " <> decimal (length files))
    ∷ ("- Duplicate normalized "
        <> (decimal block_size <> ("-line blocks: " <> decimal (length blocks))))
    ∷ ("- Repeated string literals appearing 4+ times: " <> decimal (length literals))
    ∷ ("- Repeated function shapes: " <> decimal (length shapes))
    ∷ ("- Duplicate block budget: <= " <> decimal max_blocks)
    ∷ ""
    ∷ []

module _ (sha256 : String → String) (dump : Node → String) where
  -- The lines of the report, and the exit code. `block_size` is one more than `size`.
  unfoldable pub render_report : ℕ → ℕ → List Source → String × ℕ
  unfolding block_lines shape_lines exit_code
  render_report size max_blocks files =
      let blocks = duplicate_blocks sha256 size (map raw_file files) in
      let literals = repeated_literals (map (λ s. s.tokens) files) in
      let shapes = function_shapes sha256 dump (map parsed_file files) in
      let code = exit_code max_blocks blocks in
      let out =
        summary (suc size) max_blocks files blocks literals shapes
        ++ (("## Duplicate code blocks" ∷ "" ∷ [])
            ++ (or_line blocks
                  "No duplicate normalized code blocks found at the configured block size."
                  (block_lines 1 (take 20 (order_by more_hits blocks)))
                ++ (("## Repeated string literals" ∷ "" ∷ [])
                    ++ (or_line literals "No heavily repeated string literals found."
                          (map literal_line (take 30 literals))
                        ++ (("" ∷ "## Repeated function shapes" ∷ "" ∷ [])
                            ++ (or_line shapes "No repeated function shapes found."
                                  (shape_lines 1 shapes)
                                ++ "## Recommendation" ∷ "" ∷ recommendation code ∷ [])))))) in
      (join_with "\n" out <> "\n", code)

  -- `main` with its options: what is printed, and the exit code.
  unfoldable pub run_report : Bool → ℕ → ℕ → List Source → String × ℕ
  run_report markdown size max_blocks files =
      let (report, code) = render_report size max_blocks files in
      (
        if markdown then report else replace_all "# Nadi DRY Analysis" "Nadi DRY Analysis" report,
        code,
      )
