-- ===== src/Gateway/Joining.antt =====
-- One channel leads every caller of `get_or_create_channel_session` to the same session.
use nadi.Common.{
  ℕ, ◌≤◌, ◌≡◌, ◌≢◌, refl, ap, ◌∙◌, String, false, Option, none, some, arith, string_eq,
}
use nadi.Json.{Fields, or_empty}
use nadi.Exec.{ok}
use nadi.Exec.Returns.{bind_ok, on_error_ok}
use nadi.Store.Schema.{Channel, Store, uuid4}
use nadi.Store.Sessions.{create_session}
use nadi.Sql.{fetch_one}
use nadi.Store.Channels.{is_channel, find_channel, get_or_create_channel}
use nadi.Store.Channels.Routing.{get_or_create_channel_old}
use nadi.World.{World, Config, on_store}
use nadi.Broker.{place_session}
use nadi.Broker.Placing.{Later, place_session-IsLater}
use nadi.Gateway.{Joined, join_channel, resource_or_anonymous, get_or_create_channel_session}

module _ {Text : Type 0} (c : Config Text) where
  create_session-Later :
      (tenant : String) (metadata : Option Fields) (s : Store Text)
      → Later s (create_session c.env tenant none none metadata s).1
  unfolding create_session
  create_session-Later tenant metadata s = ground arith

  resource-Later :
      (platform initiator : String) (w : World Text)
      → Later w.store (resource_or_anonymous c platform initiator w).1.store
  unfolding uuid4
  resource-Later platform initiator w = ground arith

  module _ (p ch t : String) (row : Channel Text) (m : Fields)
      (loaded : c.env.loads row.metadata ≡ some m) where
    -- `uuid4` does not give the id of the row any more.
    abbrev pub IsSpent : Store Text → Type 0
    IsSpent s = (k : ℕ) → s.uuid_reads ≤ k → row.id ≢ c.env.uuid k

    IsSpent-Later : (s s' : Store Text) → Later s s' → IsSpent s → IsSpent s'
    IsSpent-Later s s' (_, le) h k le' = h k (omega (arith, le, le'))

    join_channel_old :
        (sid rid : String) (metadata : Option Fields) (w w' : World Text) (j : Joined)
        → IsSpent w.store
        → find_channel p ch t w.store ≡ some row
        → join_channel c p ch t sid rid metadata w ≡ (ok j, w')
        → (j.session_id ≡ row.session_id) × (j.created ≡ false)
    unfolding find_channel
    join_channel_old sid rid metadata w w' j spent here h =
        let (_, _, h1) = bind_ok (place_session c sid) _ w w' j h in
        let w1 = (place_session c sid w).1 in
        let kept =
          (place_session-IsLater c w.store sid w (record { later = (refl, omega arith) })).later in
        let old =
          get_or_create_channel_old c.env p ch t sid rid metadata w1.store row m
            (ap (fetch_one (is_channel p ch t)) kept.0 ∙ here) loaded
            (spent w1.store.uuid_reads kept.1) in
        let (answer, e, h2) =
          bind_ok (on_store (get_or_create_channel c.env p ch t sid rid metadata)) _ w1 w' j h1 in
        ground (arith, old, e, h2)

    -- A channel that has a session: a call that returns gives that session, and says that it made
    -- none, whatever else it is called with. The row's metadata can be read, and `uuid4` does not give
    -- the row's id again.
    pub get_or_create_channel_session_old :
        (tenant initiator : String) (metadata : Option Fields) (w w' : World Text) (j : Joined)
        → IsSpent w.store
        → find_channel p ch t w.store ≡ some row
        → get_or_create_channel_session c p ch t tenant initiator metadata w ≡ (ok j, w')
        → (j.session_id ≡ row.session_id) × (j.created ≡ false)
    unfolding get_or_create_channel_session find_channel
    get_or_create_channel_session_old tenant initiator metadata w w' j spent here h =
        let (rid, _, h1) = bind_ok (resource_or_anonymous c p initiator) _ w w' j h in
        let w1 = (resource_or_anonymous c p initiator w).1 in
        let create = create_session c.env tenant none none (some (or_empty metadata)) in
        let (sid, _, h2) = bind_ok (on_store create) _ w1 w' j h1 in
        let w2 = (on_store create w1).1 in
        let kept = resource-Later p initiator w in
        let kept' = create_session-Later tenant (some (or_empty metadata)) w1.store in
        join_channel_old sid rid metadata w2 w' j
          (IsSpent-Later w1.store w2.store kept' (IsSpent-Later w.store w1.store kept spent))
          (ap (fetch_one (is_channel p ch t)) (kept'.0 ∙ kept.0) ∙ here)
          (on_error_ok (join_channel c p ch t sid rid metadata) _ w2 w' j h2)
