-- ===== src/Store/Audit.antt =====
-- The table `audit_log`: `audit` and `audit_entries`.
use nadi.Common.{
  ℕ, suc, String, Bool, true, false, Option, none, some, List, [], ◌∷◌, ◌++◌, ◌==◌, string_eq,
}
use nadi.Json.{Fields}
use nadi.Exec.{Action, Result, ok, gets, modify, then_result, each, ◌>>=◌, ◌>>◌}
use nadi.Sql.{select, order_by, ascending}
use nadi.Store.Schema.{Env, AuditEntry, Store, now, json_text, json_loads}

module _ {Text : Type 0} where
  -- WHERE session_id=?, or every row where no session, or an empty one, is asked for
  abbrev pub concerns : Option String → AuditEntry Text → Bool
  concerns none row = true
  concerns (some String.[]) row = true
  concerns (some sid) row = elim row.session_id [ none ↦ false | some s ↦ s == sid ]

module _ {Text : Type 0} (env : Env Text) where
  unfoldable pub audit : String → String → Option String → Option Fields → Action (Store Text) ℕ
  unfolding now
  audit actor action session_id payload = do
    t ← now env
    modify (λ s. record s {
      audit_log =
          s.audit_log
          ++ record {
            id = suc s.last_audit_id;
            actor = actor;
            action = action;
            session_id = session_id;
            payload = json_text env payload;
            created_at = t;
          }
            ∷ [];
      last_audit_id = suc s.last_audit_id;
    })
    gets (λ s. s.last_audit_id)

  -- `_row` of an entry
  unfoldable pub audit_row : AuditEntry Text → Result (AuditEntry Fields)
  audit_row row = then_result (json_loads env row.payload) λ p. ok (record {
    id = row.id;
    actor = row.actor;
    action = row.action;
    session_id = row.session_id;
    payload = p;
    created_at = row.created_at;
  })

  unfoldable pub audit_entries : Option String → Action (Store Text) (List (AuditEntry Fields))
  unfolding audit_row
  audit_entries session_id s = (
    each audit_row (order_by (ascending (λ r. r.id)) (select (concerns session_id) s.audit_log)),
    s,
  )
