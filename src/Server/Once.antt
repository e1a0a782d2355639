-- ===== src/Server/Once.antt =====
-- Over everything that requests and messages bring about, no command is handed out twice.
use nadi.Common.{ℕ, ◌≡◌, String, false, List, All, All-map, ◌==◌, nat_eq}
use nadi.Json.{Fields}
use nadi.Exec.{ok}
use nadi.Store.Schema.{Command, RoundTrips}
use nadi.Store.Commands.{claim_pending_commands}
use nadi.Store.Commands.Once.{returned-IsSpent, returned_others}
use nadi.Store.Spent.{IsSpent, store-IsSpent}
use nadi.Store.WellFormed.{IsWellFormed, store-IsWellFormed}
use nadi.World.{World, Config}
use nadi.Server.{Handler}
use nadi.Server.Runs.{Reached, Reached-Holds}

-- The world after a claim.
abbrev pub after_claim : {Text : Type 0} → Config Text → String → String → World Text → World Text
after_claim c sid by w = record w { store = (claim_pending_commands c.env sid by w.store).1 }

module _ {Text : Type 0} (c : Config Text) (handler : Handler)
    (distinct : (i j : ℕ) → c.env.uuid i ≡ c.env.uuid j → i ≡ j) (round : RoundTrips c.env) where
  -- A command that a claim returned is returned by no later claim, for any session and by any worker,
  -- whatever requests and messages come between the two. The store is well formed before the first
  -- claim, `uuid4` never gives the same text twice, and `json.loads` gives back what `json.dumps` wrote.
  pub claim_once :
      (start w : World Text) (sid by sid' by' : String) (cmds cmds' : List (Command Fields))
      → IsWellFormed c.env start.store
      → (claim_pending_commands c.env sid by start.store).0 ≡ ok cmds
      → Reached c handler (after_claim c sid by start) w
      → (claim_pending_commands c.env sid' by' w.store).0 ≡ ok cmds'
      → All (λ cmd. All (λ cmd'. (cmd'.id == cmd.id) ≡ false) cmds') cmds
  claim_once start w sid by sid' by' cmds cmds' fit first between second =
      let inv = store-IsWellFormed c.env distinct round handler.tenant_id in
      let after = after_claim c sid by start in
      let fit' =
        Reached-Holds c handler after (IsWellFormed c.env) inv
          (record { holds = inv.kept.claims sid by start.store fit }) w between in
      All-map (λ cmd. IsSpent c.env cmd.id after.store)
        (λ cmd. All (λ cmd'. (cmd'.id == cmd.id) ≡ false) cmds') cmds
        (λ cmd spent.
          let still =
            Reached-Holds c handler after (IsSpent c.env cmd.id)
              (store-IsSpent c.env cmd.id handler.tenant_id) (record { holds = spent }) w between in
          returned_others c.env distinct sid' by' w.store cmds' fit'.holds.inbox second cmd.id
            still.holds)
        (returned-IsSpent c.env distinct sid by start.store cmds fit.inbox first)
