-- ===== src/Store/Commands/Once.antt =====
-- A claim leaves the commands that it returns without a chance to be returned again.
use nadi.Common.{
  ℕ, zero, suc, ◌+◌, ◌≤◌, ◌<◌, ◌≡◌, sym, ap, ◌∙◌, String, false, List, [], ◌∷◌, map, range, length,
  All, All-map, arith, ◌==◌, nat_eq, string_eq, Bool-cases, inl, inr,
}
use mathlib.Core.Path.{subst}
use nadi.Json.{Fields}
use nadi.Exec.{Result, ok, err}
use nadi.Sql.{select, update_where}
use nadi.Sql.Laws.{All-select}
use nadi.Sql.Updates.{All-update}
use nadi.Store.Schema.{Env, Command, Store}
use nadi.Store.Commands.{is_waiting, claim_row, claim_pending_commands}
use nadi.Store.Commands.Claims.{IsInbox, claim_pending_commands_lem, decode}
use nadi.Store.Spent.{IsSpent, waits, select-spent}

All-both :
    {A : Type 0} (P Q R : A → Type 0) (xs : List A)
    → ((x : A) → P x → Q x → R x)
    → All P xs
    → All Q xs
    → All R xs
All-both P Q R [] f h k = tt
All-both P Q R (x ∷ xs) f h k = (f x h.0 k.0, All-both P Q R xs f h.1 k.1)

module _ {Text : Type 0} (env : Env Text) where
  -- Rows that are numbered from `s` have ids from `s` on.
  ids_between :
      (rows : List (Command Text)) (s n : ℕ)
      → map (λ r. r.id) rows ≡ range s n
      → All (λ r. (s ≤ r.id) × (r.id < s + n)) rows
  ids_between [] s n h = tt
  ids_between (x ∷ rows) s zero h = absurd (ground arith)
  ids_between (x ∷ rows) s (suc n) h = (
    (ground arith, ground arith),
    All-map (λ r. (suc s ≤ r.id) × (r.id < suc s + n)) (λ r. (s ≤ r.id) × (r.id < s + suc n)) rows
        (λ r k. (omega (arith, k.0), omega (arith, k.1)))
        (ids_between rows (suc s) n (ground arith)),
  )

  module _ (sid by token : String) (t : ℕ) where
    abbrev mark : Command Text → Command Text
    mark = claim_row by token t

    claimed_spent :
        (rows : List (Command Text)) (s n : ℕ)
        → map (λ r. r.id) rows ≡ range s n
        → All
            (λ r. All (λ y. waits r.id y ≡ false) (update_where (is_waiting sid) mark rows))
            (select (is_waiting sid) rows)
    unfolding select update_where
    claimed_spent [] s n h = tt
    claimed_spent (x ∷ rows) s zero h = absurd (ground arith)
    claimed_spent (x ∷ rows) s (suc n) h =
        let number : x.id ≡ s = ground arith in
        let later = ids_between rows (suc s) n (ground arith) in
        let rest = claimed_spent rows (suc s) n (ground arith) in
        let p = is_waiting {Text = Text} sid in
        elim (Bool-cases (is_waiting sid x)) [
          | inl e ↦ rw e (
            (
              ground arith,
              All-update p p mark (λ y. waits x.id y ≡ false) rows (λ y k. ground arith)
                  (All-map _ (λ y. waits x.id y ≡ false) rows (λ y k. ground (arith, k.0, number))
                    later),
            ),
            All-map _ _ (select p rows) (λ r k. (ground arith, k)) rest,
          )
          | inr e ↦ rw e (
              All-both _ _ _ (select p rows) (λ r k j. (ground (arith, k.0, number), j))
                (All-select p _ rows later) rest)
        ]

All-mapped :
    {A B : Type 0} (P : B → Type 0) (f : A → B) (xs : List A)
    → All (λ x. P (f x)) xs
    → All P (map f xs)
All-mapped P f [] h = tt
All-mapped P f (x ∷ xs) h = (h.0, All-mapped P f xs h.1)

abbrev commands_or_none : Result (List (Command Fields)) → List (Command Fields)
commands_or_none (ok cmds) = cmds
commands_or_none (err e) = []

module _ {Text : Type 0} (env : Env Text) (distinct : (i j : ℕ) → env.uuid i ≡ env.uuid j → i ≡ j)
    (sid by : String) (s : Store Text) (cmds : List (Command Fields)) (fit : IsInbox env s)
    (returned : (claim_pending_commands env sid by s).0 ≡ ok cmds) where
  -- What holds of the ids of the rows that wait holds of the ids of the commands that are returned.
  All-returned :
      (P : ℕ → Type 0)
      → All (λ r. P r.id) (select (is_waiting sid) s.command_inbox)
      → All (λ cmd. P cmd.id) cmds
  All-returned P h =
      let claim = claim_row {Text = Text} by (env.uuid s.uuid_reads) (env.time s.clock_reads) in
      let rows = select (is_waiting sid) s.command_inbox in
      subst (All (λ cmd. P cmd.id))
        (ap commands_or_none
          (sym (ap (λ r. r.0) (claim_pending_commands_lem env distinct sid by s fit)) ∙ returned))
        (All-mapped (λ cmd. P cmd.id) (decode env) (map claim rows)
          (All-mapped (λ r. P r.id) claim rows h))

  pub returned-IsSpent :
      All (λ cmd. IsSpent env cmd.id (claim_pending_commands env sid by s).1) cmds
  unfolding claim_pending_commands
  returned-IsSpent =
      let s' = (claim_pending_commands env sid by s).1 in
      let rows = s.command_inbox in
      All-returned (λ id. IsSpent env id s')
        (All-both _ _ _ (select (is_waiting sid) rows)
          (λ r k j. record { given = omega (arith, k.1, fit.last); spent = j })
          (All-select (is_waiting sid) _ rows (ids_between env rows 1 (length rows) fit.numbered))
          (claimed_spent env sid by (env.uuid s.uuid_reads) (env.time s.clock_reads) rows 1
            (length rows) fit.numbered))

  pub returned_others : (id : ℕ) → IsSpent env id s → All (λ cmd. (cmd.id == id) ≡ false) cmds
  returned_others id h =
      All-returned (λ k. (k == id) ≡ false) (select-spent env id sid s.command_inbox h.spent)
