-- ===== src/Store/Leases.antt =====
-- The table `session_leases`: `create_lease` and `get_route`.
pub mod Routes
use nadi.Common.{
  ℕ, ◌+◌, String, Bool, ◌&&◌, not, Option, none, some, List, [], ◌∷◌, ◌++◌, ◌==◌, string_eq,
}
use nadi.Common.Int.{ℤ, pos, ◌+ℤ◌, ltb_ℤ, seconds}
use nadi.Exec.{Action, pure, gets, modify, raise_if, integrity, ◌>>=◌, ◌>>◌}
use nadi.Sql.{fetch_one, update_where, delete_where, exists_where}
use nadi.Store.Schema.{Env, CellHost, SessionLease, Store, now, uuid4}
use nadi.Store.Sessions.{has_session}

-- What `get_route` selects: the columns of the lease, and three of its host.
pub record Route : Type 0 where
  pub lease : SessionLease
  pub open lease use *
  pub host_id : String
  pub address : String
  pub zone : String

-- WHERE l.session_id=? AND l.status='active' AND l.expires_at>?
abbrev pub is_live : String → ℕ → SessionLease → Bool
is_live session_id t l =
    l.session_id == session_id && (l.status == "active" && ltb_ℤ (pos t) l.expires_at)

module _ {Text : Type 0} where
  abbrev pub is_host : String → CellHost Text → Bool
  is_host cell_host_id h = h.id == cell_host_id

  -- FROM session_leases l JOIN cell_hosts h ON h.id = l.cell_host_id
  abbrev pub join_host : List (CellHost Text) → Option SessionLease → Option Route
  join_host hosts none = none
  join_host hosts (some l) = elim (fetch_one (is_host l.cell_host_id) hosts) [
    | none ↦ none
    | some h ↦ some (record { lease = l; host_id = h.host_id; address = h.address; zone = h.zone })
  ]

  unfoldable pub route_at : String → ℕ → Store Text → Option Route
  route_at session_id t s =
      join_host s.cell_hosts (fetch_one (is_live session_id t) s.session_leases)

module _ {Text : Type 0} (env : Env Text) where
  -- INSERT OR REPLACE removes the session's earlier lease. The foreign keys want the session and
  -- the host.
  unfoldable pub create_lease : String → String → ℤ → Action (Store Text) String
  unfolding now uuid4 ◌+ℤ◌ seconds
  create_lease session_id cell_host_id ttl_seconds = do
    token ← uuid4 env
    t ← now env
    known ← gets (has_session session_id)
    host ← gets (λ s. exists_where (is_host cell_host_id) s.cell_hosts)
    raise_if (not (known && host)) integrity
    modify (λ s. record s {
      session_leases =
          delete_where (λ l. l.session_id == session_id) s.session_leases
          ++ record {
            session_id = session_id;
            cell_host_id = cell_host_id;
            lease_token = token;
            status = "active";
            expires_at = pos t +ℤ seconds ttl_seconds;
            created_at = t;
            updated_at = t;
          }
            ∷ [];
    })
    modify (λ s. record s {
      cell_hosts =
          update_where (is_host cell_host_id)
            (λ h. record h { capacity_used = h.capacity_used + 1; updated_at = t }) s.cell_hosts;
    })
    pure token

  unfoldable pub get_route : String → Action (Store Text) (Option Route)
  unfolding now route_at
  get_route session_id = do t ← now env; gets (route_at session_id t)
