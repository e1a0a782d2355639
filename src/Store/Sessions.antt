-- ===== src/Store/Sessions.antt =====
-- The table `sessions`: `create_session`, `update_session_status` and `get_session`.
use nadi.Common.{String, Bool, false, ◌||◌, Option, none, some, [], ◌∷◌, ◌++◌, ◌==◌, string_eq}
use nadi.Json.{Fields}
use nadi.Exec.{
  Action, Result, ok, pure, gets, modify, raise_if, integrity, then_result, ◌>>=◌, ◌>>◌,
}
use nadi.Sql.{fetch_one, update_where, exists_where}
use nadi.Store.Schema.{Env, Session, Store, now, uuid4, json_text, json_loads}

module _ {Text : Type 0} where
  abbrev pub has_id : String → Session Text → Bool
  has_id session_id row = row.id == session_id

  abbrev pub has_session : String → Store Text → Bool
  has_session session_id s = exists_where (has_id session_id) s.sessions

  -- UNIQUE on `external_id`, which lets any number of NULLs stand
  abbrev pub has_external_id : Option String → Session Text → Bool
  has_external_id none row = false
  has_external_id (some e) row = elim row.external_id [ none ↦ false | some e' ↦ e' == e ]

  insert_session : Session Text → Action (Store Text) (Unit {0})
  insert_session row = do
    s ← gets (λ s. s)
    raise_if (exists_where (λ r. has_id row.id r || has_external_id row.external_id r) s.sessions)
        integrity
    modify (λ s. record s { sessions = s.sessions ++ row ∷ [] })

module _ {Text : Type 0} (env : Env Text) where
  unfoldable pub create_session :
      String → Option String → Option String → Option Fields → Action (Store Text) String
  unfolding insert_session now uuid4
  create_session tenant_id external_id profile_bundle metadata = do
    sid ← uuid4 env
    t ← now env
    insert_session (record {
      id = sid;
      external_id = external_id;
      tenant_id = tenant_id;
      profile_bundle = profile_bundle;
      status = "pending";
      metadata = json_text env metadata;
      created_at = t;
      updated_at = t;
    })
    pure sid

  unfoldable pub update_session_status : String → String → Action (Store Text) (Unit {0})
  unfolding now
  update_session_status session_id status = do
    t ← now env
    modify (λ s. record s {
      sessions =
          update_where (has_id session_id) (λ r. record r { status = status; updated_at = t })
            s.sessions;
    })

  -- `_row` of a session
  session_row : Session Text → Result (Session Fields)
  session_row row = then_result (json_loads env row.metadata) λ m. ok (record {
    id = row.id;
    external_id = row.external_id;
    tenant_id = row.tenant_id;
    profile_bundle = row.profile_bundle;
    status = row.status;
    metadata = m;
    created_at = row.created_at;
    updated_at = row.updated_at;
  })

  unfoldable pub get_session : String → Action (Store Text) (Option (Session Fields))
  unfolding session_row
  get_session session_id s = elim (fetch_one (has_id session_id) s.sessions) [
    | none ↦ (ok none, s)
    | some row ↦ (then_result (session_row row) (λ r. ok (some r)), s)
  ]
