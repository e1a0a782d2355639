-- ===== src/Store/Channels.antt =====
-- The table `channels`: `get_or_create_channel` and `get_channel`.
pub mod Routing
use nadi.Common.{String, Bool, ◌&&◌, ◌||◌, not, Option, none, some, [], ◌∷◌, ◌++◌, ◌==◌, string_eq}
use nadi.Json.{Fields}
use nadi.Exec.{
  Action, Result, ok, pure, lift, gets, modify, or_raise, raise_if, integrity, type_error,
  then_result, ◌>>=◌, ◌>>◌,
}
use nadi.Sql.{fetch_one, exists_where}
use nadi.Store.Schema.{Env, Channel, Store, now, uuid4, json_text, json_loads}
use nadi.Store.Sessions.{has_session}

module _ {Text : Type 0} where
  -- WHERE platform=? AND channel_id=? AND thread_id=?
  abbrev pub is_channel : String → String → String → Channel Text → Bool
  is_channel platform channel_id thread_id row =
      row.platform == platform && (row.channel_id == channel_id && row.thread_id == thread_id)

  unfoldable pub find_channel : String → String → String → Store Text → Option (Channel Text)
  find_channel platform channel_id thread_id s =
      fetch_one (is_channel platform channel_id thread_id) s.channels

  -- INSERT OR IGNORE: a row with the same id or the same key makes it do nothing; a missing
  -- session is an error all the same.
  insert_or_ignore : Channel Text → Action (Store Text) (Unit {0})
  insert_or_ignore row = do
    clash ← gets (λ s.
        exists_where (λ c. c.id == row.id || is_channel row.platform row.channel_id row.thread_id c)
          s.channels)
    known ← gets (has_session row.session_id)
    raise_if (not clash && not known) integrity
    modify (λ s. record s {
      channels = elim clash [ Bool.true ↦ s.channels | Bool.false ↦ s.channels ++ row ∷ [] ];
    })

module _ {Text : Type 0} (env : Env Text) where
  -- `_row` of a channel
  unfoldable pub channel_row : Channel Text → Result (Channel Fields)
  channel_row row = then_result (json_loads env row.metadata) λ m. ok (record {
    id = row.id;
    platform = row.platform;
    channel_id = row.channel_id;
    thread_id = row.thread_id;
    session_id = row.session_id;
    initiator_resource_id = row.initiator_resource_id;
    metadata = m;
    created_at = row.created_at;
    updated_at = row.updated_at;
  })

  -- Returns the session that the channel has, the row's id, and whether this call made the row.
  unfoldable pub get_or_create_channel :
      String
      → String
      → String
      → String
      → String
      → Option Fields
      → Action (Store Text) (String × String × Bool)
  unfolding insert_or_ignore find_channel channel_row now uuid4
  get_or_create_channel platform channel_id thread_id session_id initiator_resource_id metadata = do
    t ← now env
    cid ← uuid4 env
    insert_or_ignore (record {
      id = cid;
      platform = platform;
      channel_id = channel_id;
      thread_id = thread_id;
      session_id = session_id;
      initiator_resource_id = initiator_resource_id;
      metadata = json_text env metadata;
      created_at = t;
      updated_at = t;
    })
    row ← gets (find_channel platform channel_id thread_id)
    found ← or_raise row type_error
    actual ← lift (channel_row found)
    pure (actual.session_id, actual.id, actual.session_id == session_id && actual.id == cid)

  unfoldable pub get_channel :
      String → String → String → Action (Store Text) (Option (Channel Fields))
  unfolding find_channel channel_row
  get_channel platform channel_id thread_id s =
      elim (find_channel platform channel_id thread_id s) [
        | none ↦ (ok none, s)
        | some row ↦ (then_result (channel_row row) (λ r. ok (some r)), s)
      ]
