-- ===== src/Gateway/Completing.antt =====
-- The command that `send_command` stored is done when it returns.
use nadi.Common.{
  ℕ, suc, ◌≡◌, refl, sym, ap, ◌∙◌, String, true, Option, some, List, [], ◌∷◌, ◌++◌, All, arith,
  string_eq, nat_eq, beq_self, ◌==◌,
}
use mathlib.Core.Path.{subst}
use nadi.Json.{Fields, or_empty}
use nadi.Exec.{ok}
use nadi.Exec.Returns.{bind_ok}
use nadi.Sql.{select, exists_where}
use nadi.Sql.Laws.{select-snoc, exists_where-snoc}
use nadi.Store.Schema.{Env, Store, RoundTrips}
use nadi.Store.Commands.{is_waiting, enqueue_command}
use nadi.Store.Commands.Limits.{command_of, enqueue_command_lem}
use nadi.Store.WellFormed.{IsWellFormed, store-IsWellFormed}
use nadi.World.{World, Config, on_store}
use nadi.Celld.{consume_commands}
use nadi.Celld.Completing.{
  value_or, is_command, IsStored, IsCompleted, IsStored-IsCompleted, kept-IsStored, IsDone,
  consume_commands-IsDone,
}
use nadi.Broker.{celld_for_route}
use nadi.Gateway.{Sent, route, send_command}
use nadi.Celld.Invariant.{consume_commands-Keeps}
use nadi.Gateway.Invariant.{route-Keeps, celld_for_route-Keeps}

-- What an accepted command leaves in the inbox.
enqueue_command_ok :
    {Text : Type 0} (env : Env Text) (sid ty : String) (payload : Option Fields)
    (actor : Option String) (s : Store Text) (id : ℕ)
    → (enqueue_command env sid ty payload actor s).0 ≡ ok id
    → (id ≡ suc s.last_command_id)
      × ((enqueue_command env sid ty payload actor s).1.command_inbox
          ≡ s.command_inbox ++ command_of env sid ty payload actor s ∷ [])
enqueue_command_ok env sid ty payload actor s id h =
    ground (arith, enqueue_command_lem env sid ty payload actor s, h)

All-snoc : {A : Type 0} (P : A → Type 0) (xs : List A) (x : A) → All P (xs ++ x ∷ []) → P x
All-snoc P [] x h = h.0
All-snoc P (y ∷ xs) x h = All-snoc P xs x h.1

-- What holds of all commands that wait after a call holds of the new one.
stored_done :
    {Text : Type 0} (env : Env Text) (sid ty : String) (payload : Option Fields)
    (actor : Option String) (s : Store Text) (id : ℕ)
    → (enqueue_command env sid ty payload actor s).0 ≡ ok id
    → (P : ℕ → Type 0)
    → All
        (λ r. P r.id)
        (select (is_waiting sid) (enqueue_command env sid ty payload actor s).1.command_inbox)
    → (id ≡ suc s.last_command_id) × P (suc s.last_command_id)
stored_done {Text} env sid ty payload actor s id e P h =
    let (number, rows) = enqueue_command_ok env sid ty payload actor s id e in
    let row = command_of env sid ty payload actor s in
    let waits : is_waiting sid row ≡ true = rw (beq_self sid) in
    let last : select (is_waiting sid) (s.command_inbox ++ row ∷ [])
        ≡ select (is_waiting sid) s.command_inbox ++ row ∷ [] =
      rw (select-snoc (is_waiting sid) s.command_inbox row, waits) in
    (
      number,
      All-snoc (λ r. P r.id) (select (is_waiting sid) s.command_inbox) row
          (subst (All (λ r. P r.id)) (ap (select (is_waiting sid)) rows ∙ last) h),
    )

-- The row is in the inbox.
enqueue_command-IsStored :
    {Text : Type 0} (env : Env Text) (sid ty : String) (payload : Option Fields)
    (actor : Option String) (s : Store Text) (id : ℕ)
    → (enqueue_command env sid ty payload actor s).0 ≡ ok id
    → IsStored sid ty (suc s.last_command_id) (enqueue_command env sid ty payload actor s).1
enqueue_command-IsStored {Text} env sid ty payload actor s id e =
    let row = command_of env sid ty payload actor s in
    let number : (row.id == suc s.last_command_id) ≡ true = beq_self (suc s.last_command_id) in
    let found : is_command sid ty (suc s.last_command_id) row ≡ true =
      rw (beq_self sid, beq_self ty) number in
    ap (exists_where (is_command sid ty (suc s.last_command_id)))
      (enqueue_command_ok env sid ty payload actor s id e).1
    ∙ (exists_where-snoc (is_command sid ty (suc s.last_command_id)) s.command_inbox row
        ∙ ground (arith, found))

module _ {Text : Type 0} (c : Config Text) where
  -- When `send_command` returns, the inbox has a command with the id that it returned, of the session
  -- and of the type that it was given, which is completed; and none with that id is open. The store is
  -- well formed, `uuid4` never gives the same text twice, and `json.loads` gives back what `json.dumps`
  -- wrote.
  pub send_command-IsDone :
      ((i j : ℕ) → c.env.uuid i ≡ c.env.uuid j → i ≡ j)
      → RoundTrips c.env
      → (sid ty : String) (payload : Option Fields) (actor : Option String) (w w' : World Text)
        (sent : Sent)
      → IsWellFormed c.env w.store
      → send_command c sid ty payload actor w ≡ (ok sent, w')
      → IsCompleted sid ty sent.command_id w'.store
  unfolding send_command
  send_command-IsDone distinct round sid ty payload actor w w' sent fit h =
      let W = IsWellFormed c.env in
      let inv = store-IsWellFormed c.env distinct round "" in
      let enqueue = enqueue_command c.env sid ty (some (or_empty payload)) actor in
      let (_, _, h1) = bind_ok (route c sid) _ w w' sent h in
      let w1 = (route c sid w).1 in
      let fit1 = route-Keeps c W inv.kept.tick sid w (record { holds = fit }) in
      let (id, e2, h2) = bind_ok (on_store enqueue) _ w1 w' sent h1 in
      let w2 = (on_store enqueue w1).1 in
      let fit2 = inv.enqueues sid ty (some (or_empty payload)) actor w1.store fit1.holds in
      let (host, _, h3) = bind_ok (celld_for_route c sid) _ w2 w' sent h2 in
      let w3 = (celld_for_route c sid w2).1 in
      let fit3 = celld_for_route-Keeps c W inv.kept.tick sid w2 (record { holds = fit2 }) in
      let same =
        celld_for_route-Keeps c (λ s. s.command_inbox ≡ w2.store.command_inbox) (λ s n e. e) sid w2
          (record { holds = refl }) in
      let (evs, e4, h4) = bind_ok (consume_commands c host sid) _ w3 w' sent h3 in
      let w4 = (consume_commands c host sid w3).1 in
      let done =
        consume_commands-IsDone c host sid distinct round w3 w4 evs fit3.holds
          (ap (λ r. (r, w4)) e4) in
      let kept = kept-IsStored {Text = Text} sid ty (suc w1.store.last_command_id) c.env in
      let there2 =
        enqueue_command-IsStored c.env sid ty (some (or_empty payload)) actor w1.store id e2 in
      let there3 =
        celld_for_route-Keeps c (IsStored sid ty (suc w1.store.last_command_id)) kept.tick sid w2
          (record { holds = there2 }) in
      let there4 =
        consume_commands-Keeps c (IsStored sid ty (suc w1.store.last_command_id)) kept host sid w3
          there3 in
      let (number, fresh) =
        stored_done c.env sid ty (some (or_empty payload)) actor w1.store id e2
          (λ k. IsDone k w4.store)
          (subst (λ rows. All (λ r. IsDone r.id w4.store) (select (is_waiting sid) rows)) same.holds
            done) in
      let done =
        IsStored-IsCompleted sid ty (suc w1.store.last_command_id) w4.store there4.holds fresh in
      subst (λ k. IsCompleted sid ty k w'.store)
        (sym number ∙ ap (λ p. (value_or sent p.0).command_id) h4)
        (subst (λ w. IsCompleted sid ty (suc w1.store.last_command_id) w.store) (ap (λ p. p.1) h4)
          done)
