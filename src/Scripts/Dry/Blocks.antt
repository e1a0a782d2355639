-- ===== src/Scripts/Dry/Blocks.antt =====
-- What `duplicate_blocks` reports, against all blocks of all files.
use nadi.Common.{
  ℕ, ◌≡◌, refl, ap, ◌∙◌, String, Option, none, some, List, [], ◌∷◌, ◌++◌, arith, ◌==◌, string_eq,
  eq_iff, Bool-cases, inl, inr, if◌then◌else◌,
}
use mathlib.Core.List.{append-nil, append_assoc}
use mathlib.Core.Path.{subst}
use nadi.Sql.{select}
use nadi.Sql.Laws.{select-snoc}
use nadi.Dict.{Dict, lookup, AreDistinct, lookup-select}
use nadi.Scripts.Dry.{
  BlockHit, add_hit, add_hits, file_hits, collect_blocks, duplicate_blocks, in_two_places,
  entry_in_two_places,
}

abbrev Blocks : Type 0
Blocks = Dict String (List BlockHit)

found : List BlockHit → Option (List BlockHit)
found [] = none
found (h ∷ hs) = some (h ∷ hs)

with_hit : Option (List BlockHit) → BlockHit → List BlockHit
with_hit none h = h ∷ []
with_hit (some hs) h = hs ++ h ∷ []

found-snoc :
    (hs : List BlockHit) (h : BlockHit) → some (with_hit (found hs) h) ≡ found (hs ++ h ∷ [])
unfolding found with_hit
found-snoc [] h = refl
found-snoc (x ∷ hs) h = refl

lookup-add_hit :
    (digest j : String) (h : BlockHit) (blocks : Blocks)
    → lookup j (add_hit digest h blocks)
      ≡ (if digest == j then some (with_hit (lookup j blocks) h) else lookup j blocks)
unfolding lookup add_hit with_hit
lookup-add_hit digest j h [] = ground arith
lookup-add_hit digest j h ((d, hits) ∷ blocks) =
    ground (arith, eq_iff d digest, eq_iff d j, eq_iff digest j, lookup-add_hit digest j h blocks)

add_hit-AreDistinct :
    (digest : String) (h : BlockHit) (blocks : Blocks)
    → AreDistinct blocks
    → AreDistinct (add_hit digest h blocks)
unfolding AreDistinct add_hit lookup
add_hit-AreDistinct digest h [] k = (refl, tt)
add_hit-AreDistinct digest h ((d, hits) ∷ blocks) k = elim (Bool-cases (d == digest)) [
  | inl here ↦ rw here k
  | inr there ↦ rw there (
    ground (arith, eq_iff d digest, eq_iff digest d, lookup-add_hit digest d h blocks, k.0),
    add_hit-AreDistinct digest h blocks k.1,
  )
]

reported : Option (List BlockHit) → Option (List BlockHit)
reported none = none
reported (some hs) = if in_two_places hs then some hs else none

reported-found :
    (hs : List BlockHit) → reported (found hs) ≡ (if in_two_places hs then some hs else none)
unfolding reported found in_two_places
reported-found [] = refl
reported-found (h ∷ hs) = refl

reported_lem :
    (j : String) (blocks : Blocks)
    → AreDistinct blocks
    → lookup j (select entry_in_two_places blocks) ≡ reported (lookup j blocks)
unfolding reported
reported_lem j blocks k = lookup-select entry_in_two_places j blocks k ∙ by_cases (lookup j blocks)
  where
    by_cases :
        (o : Option (List BlockHit))
        → elim o [ none ↦ none | some hs ↦ if in_two_places hs then some hs else none ] ≡ reported o
    by_cases none = refl
    by_cases (some hs) = refl

-- The blocks with a digest are the hits so far with that digest, in the order of the hits.
record AreGroups (sha256 : String → String) (hits : List BlockHit) (blocks : Blocks) : Type 0 where
  distinct : AreDistinct blocks
  grouped : (j : String) → lookup j blocks ≡ found (select (λ h. sha256 h.text == j) hits)

module _ (sha256 : String → String) where
  add_hit-AreGroups :
      (hits : List BlockHit) (h : BlockHit) (blocks : Blocks)
      → AreGroups sha256 hits blocks
      → AreGroups sha256 (hits ++ h ∷ []) (add_hit (sha256 h.text) h blocks)
  add_hit-AreGroups hits h blocks g = record {
    distinct = add_hit-AreDistinct (sha256 h.text) h blocks g.distinct;
    grouped = λ j.
        rw
          (
            lookup-add_hit (sha256 h.text) j h blocks,
            g.grouped j,
            select-snoc (λ x. sha256 x.text == j) hits h,
          )
          (ground (arith, found-snoc (select (λ x. sha256 x.text == j) hits) h));
  }

  add_hits-AreGroups :
      (before hits : List BlockHit) (blocks : Blocks)
      → AreGroups sha256 before blocks
      → AreGroups sha256 (before ++ hits) (add_hits sha256 hits blocks)
  unfolding add_hits
  add_hits-AreGroups before [] blocks g = rw (append-nil before) g
  add_hits-AreGroups before (h ∷ hits) blocks g =
      subst (λ xs. AreGroups sha256 xs (add_hits sha256 hits (add_hit (sha256 h.text) h blocks)))
        (append_assoc before (h ∷ []) hits)
        (add_hits-AreGroups (before ++ h ∷ []) hits _ (add_hit-AreGroups before h blocks g))

  -- The hits of all files
  abbrev pub all_hits : ℕ → List (String × List String) → List BlockHit
  all_hits size [] = []
  all_hits size (file ∷ files) = file_hits sha256 size file ++ all_hits size files

  collect_blocks-AreGroups :
      (size : ℕ) (files : List (String × List String)) (before : List BlockHit) (blocks : Blocks)
      → AreGroups sha256 before blocks
      → AreGroups sha256 (before ++ all_hits size files) (collect_blocks sha256 size files blocks)
  unfolding collect_blocks
  collect_blocks-AreGroups size [] before blocks g = rw (append-nil before) g
  collect_blocks-AreGroups size (file ∷ files) before blocks g =
      subst
        (λ xs.
          AreGroups sha256 xs (
            collect_blocks sha256 size files (add_hits sha256 (file_hits sha256 size file) blocks)))
        (append_assoc before (file_hits sha256 size file) (all_hits size files))
        (collect_blocks-AreGroups size files (before ++ file_hits sha256 size file) _
          (add_hits-AreGroups before (file_hits sha256 size file) blocks g))

  -- A digest is reported exactly if the blocks with that digest, of all files, stand in two places at
  -- least, and it is reported with all of them, in the order of the files and lines.
  pub duplicate_blocks_lem :
      (size : ℕ) (files : List (String × List String)) (digest : String)
      → let hits = select (λ h. sha256 h.text == digest) (all_hits size files) in
        lookup digest (duplicate_blocks sha256 size files)
        ≡ (if in_two_places hits then some hits else none)
  unfolding duplicate_blocks reported found AreDistinct select lookup
  duplicate_blocks_lem size files digest =
      let g =
        collect_blocks-AreGroups size files [] [] (record { distinct = tt; grouped = λ j. refl }) in
      reported_lem digest _ g.distinct ∙ (ap reported (g.grouped digest) ∙ reported-found _)
