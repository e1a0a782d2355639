-- ===== src/Scripts/Dry.antt =====
-- `normalize_line` and `duplicate_blocks` of scripts/dry_analysis.py, and the verdict of
-- `render_report`. A file is its path and its lines.
pub mod Blocks
use nadi.Common.{
  ℕ, zero, suc, String, Bool, true, false, not, ◌&&◌, ◌||◌, Option, none, some, List, [], ◌∷◌, ◌++◌,
  map, length, leb, ltb, ◌==◌, nat_eq, string_eq, if◌then◌else◌,
}
use nadi.Strings.{strip, is_space, is_empty, has_prefix, words, join_with}
use nadi.Sql.{select, exists_where}
use nadi.Dict.{Dict}

unfoldable pub normalize_line : String → String
unfolding strip words
normalize_line line =
    let stripped = strip is_space line in
    if is_empty stripped || has_prefix "#" stripped then "" else join_with " " (words stripped)

-- `class BlockHit`
pub record BlockHit : Type 0 where
  pub path : String
  pub line : ℕ
  pub text : String

-- The numbered lines of a file that are not empty once normalised
unfoldable pub normalized : ℕ → List String → List (ℕ × String)
normalized n [] = []
normalized n (raw ∷ lines) =
    let rest = normalized (suc n) lines in
    let text = normalize_line raw in if is_empty text then rest else (n, text) ∷ rest

unfoldable pub take {ℓ} : {A : Type ℓ} → ℕ → List A → List A
take n [] = []
take zero (x ∷ xs) = []
take (suc n) (x ∷ xs) = x ∷ take n xs

-- The chunks of one line more than `size`, one for each place where there are so many lines left: the
-- first line and the others. The program asks for at least one line.
unfoldable pub chunks {ℓ} : {A : Type ℓ} → ℕ → List A → List (A × List A)
chunks size [] = []
chunks size (x ∷ xs) =
    let rest = chunks size xs in if leb size (length xs) then (x, take size xs) ∷ rest else []

abbrev pub text_of_line : ℕ × String → String
text_of_line (n, t) = t

abbrev pub hit_of : String → (ℕ × String) × List (ℕ × String) → BlockHit
hit_of path ((n, t), more) = record {
  path = path;
  line = n;
  text = join_with "\n" (t ∷ map text_of_line more);
}

-- `blocks[digest].append(hit)` on a `defaultdict(list)`
unfoldable pub add_hit : {A : Type 0} → String → A → Dict String (List A) → Dict String (List A)
add_hit digest hit [] = (digest, hit ∷ []) ∷ []
add_hit digest hit ((d, hits) ∷ blocks) =
    if d == digest then (d, hits ++ hit ∷ []) ∷ blocks else (d, hits) ∷ add_hit digest hit blocks

abbrev pub same_place : BlockHit → BlockHit → Bool
same_place a b = a.path == b.path && a.line == b.line

-- Whether the set of the places has more than one element.
unfoldable pub in_two_places : List BlockHit → Bool
in_two_places [] = false
in_two_places (h ∷ hs) = exists_where (λ x. not (same_place h x)) hs

abbrev pub entry_in_two_places : String × List BlockHit → Bool
entry_in_two_places (digest, hits) = in_two_places hits

-- `sha256` gives the digest of a text.
module _ (sha256 : String → String) where
  unfoldable pub add_hits :
      List BlockHit → Dict String (List BlockHit) → Dict String (List BlockHit)
  add_hits [] blocks = blocks
  add_hits (h ∷ hs) blocks = add_hits hs (add_hit (sha256 h.text) h blocks)

  -- The hits of one file
  abbrev pub file_hits : ℕ → String × List String → List BlockHit
  file_hits size (path, lines) = map (hit_of path) (chunks size (normalized 1 lines))

  unfoldable pub collect_blocks :
      ℕ → List (String × List String) → Dict String (List BlockHit) → Dict String (List BlockHit)
  collect_blocks size [] blocks = blocks
  collect_blocks size (file ∷ files) blocks =
      collect_blocks size files (add_hits (file_hits size file) blocks)

  -- `block_size` is one more than `size`.
  unfoldable pub duplicate_blocks : ℕ → List (String × List String) → Dict String (List BlockHit)
  unfolding collect_blocks
  duplicate_blocks size files = select entry_in_two_places (collect_blocks size files [])

-- The exit code that `render_report` gives with its report.
unfoldable pub exit_code : ℕ → Dict String (List BlockHit) → ℕ
exit_code max_blocks blocks = if leb (length blocks) max_blocks then 0 else 2
