-- ===== src/Store/Channels/Routing.antt =====
-- One channel has one session, for good: the first call of `get_or_create_channel` decides.
use nadi.Common.{
  suc, ◌≡◌, ◌≢◌, String, true, false, ◌||◌, Option, some, [], ◌∷◌, ◌++◌, arith, ◌==◌, string_eq,
  eq_iff, beq_self,
}
use nadi.Json.{Fields, or_empty}
use nadi.Exec.{ok}
use nadi.Sql.{exists_where}
use nadi.Sql.Laws.{fetch_one-snoc, fetch_one-append, exists_where-fetch_one, exists_where_none}
use nadi.Store.Schema.{Env, Channel, Store, RoundTrips, json_text}
use nadi.Store.Sessions.{has_session}
use nadi.Store.Channels.{is_channel, find_channel, get_or_create_channel}

module _ {Text : Type 0} (env : Env Text) where
  -- The row that a call offers.
  abbrev pub new_row :
      String → String → String → String → String → Option Fields → Store Text → Channel Text
  new_row p c t sid rid metadata s = record {
    id = env.uuid s.uuid_reads;
    platform = p;
    channel_id = c;
    thread_id = t;
    session_id = sid;
    initiator_resource_id = rid;
    metadata = json_text env metadata;
    created_at = env.time s.clock_reads;
    updated_at = env.time s.clock_reads;
  }

  -- A row of the table is never changed nor hidden: whatever a call asks for, and whatever it
  -- returns, a channel that was there is found as it was.
  pub find_channel-get_or_create_channel :
      (p c t p' c' t' sid rid : String) (metadata : Option Fields) (s : Store Text)
      (row : Channel Text)
      → find_channel p c t s ≡ some row
      → find_channel p c t (get_or_create_channel env p' c' t' sid rid metadata s).1 ≡ some row
  unfolding get_or_create_channel find_channel
  find_channel-get_or_create_channel p c t p' c' t' sid rid metadata s row h = ground (
    arith,
    h,
    fetch_one-append (is_channel p c t) s.channels (new_row p' c' t' sid rid metadata s ∷ []) row h,
  )

  -- For a channel that has a session the call returns that session and says that it made no row; it
  -- adds no row.
  pub get_or_create_channel_old :
      (p c t sid rid : String) (metadata : Option Fields) (s : Store Text) (row : Channel Text)
      (m : Fields)
      → find_channel p c t s ≡ some row
      → env.loads row.metadata ≡ some m
      → row.id ≢ env.uuid s.uuid_reads
      → get_or_create_channel env p c t sid rid metadata s ≡ (
        ok (row.session_id, row.id, false),
        record s { clock_reads = suc s.clock_reads; uuid_reads = suc s.uuid_reads },
      )
  unfolding get_or_create_channel find_channel
  get_or_create_channel_old p c t sid rid metadata s row m found loaded fresh = ground (
    arith,
    found,
    loaded,
    fresh,
    eq_iff row.id (env.uuid s.uuid_reads),
    exists_where-fetch_one (is_channel p c t) (λ r. r.id == env.uuid s.uuid_reads) s.channels row
        found,
  )

  -- For a channel that has none, a call with a session of the store makes that session the channel's.
  pub get_or_create_channel_new :
      (p c t sid rid : String) (metadata : Option Fields) (s : Store Text)
      → RoundTrips env
      → has_session sid s ≡ true
      → exists_where (λ r. r.id == env.uuid s.uuid_reads || is_channel p c t r) s.channels ≡ false
      → get_or_create_channel env p c t sid rid metadata s ≡ (
        ok (sid, env.uuid s.uuid_reads, true),
        record s {
          clock_reads = suc s.clock_reads;
          uuid_reads = suc s.uuid_reads;
          channels = s.channels ++ new_row p c t sid rid metadata s ∷ [];
        },
      )
  unfolding get_or_create_channel find_channel
  get_or_create_channel_new p c t sid rid metadata s round known fresh = ground (
    arith,
    known,
    fresh,
    round (or_empty metadata),
    beq_self p,
    beq_self c,
    beq_self t,
    beq_self sid,
    beq_self (env.uuid s.uuid_reads),
    fetch_one-snoc (is_channel p c t) s.channels (new_row p c t sid rid metadata s),
    exists_where_none (is_channel p c t) (λ r. r.id == env.uuid s.uuid_reads) s.channels fresh,
  )
