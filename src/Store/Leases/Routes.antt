-- ===== src/Store/Leases/Routes.antt =====
-- The route that `create_lease` opens.
use nadi.Common.{
  ℕ, suc, ◌+◌, ◌≡◌, ◌≢◌, refl, ap, ◌∙◌, String, true, false, ◌&&◌, Option, none, some, List, [],
  ◌∷◌, ◌++◌, arith, ◌==◌, string_eq, eq_iff, Bool-cases, inl, inr, beq_self, if◌then◌else◌,
}
use nadi.Common.Int.{ℤ, pos, ltb_ℤ, ◌+ℤ◌, seconds}
use nadi.Exec.{ok, err, integrity}
use nadi.Sql.{exists_where, delete_where, fetch_one, update_where}
use nadi.Sql.Laws.{fetch_one-delete, fetch_one-delete_other, fetch_one-exists}
use nadi.Sql.Updates.{fetch_one-update}
use nadi.Store.Schema.{Env, CellHost, SessionLease, Store}
use nadi.Store.Sessions.{has_session}
use nadi.Store.Leases.{is_live, is_host, join_host, route_at, create_lease}

is_live_session :
    (sid : String) (t : ℕ) (l : SessionLease)
    → is_live sid t l ≡ true
    → (l.session_id == sid) ≡ true
is_live_session sid t l h = ground arith

is_live_other :
    (sid k : String) (t : ℕ) (l : SessionLease)
    → k ≢ sid
    → is_live k t l ≡ true
    → (l.session_id == sid) ≡ false
is_live_other sid k t l ne h = ground (arith, h, ne, eq_iff l.session_id k, eq_iff l.session_id sid)

-- One more unit of capacity in use does not show in a route.
module _ {Text : Type 0} (hid : String) (t : ℕ) where
  abbrev busier : CellHost Text → CellHost Text
  busier h = record h { capacity_used = h.capacity_used + 1; updated_at = t }

  join_host-busier :
      (hosts : List (CellHost Text)) (o : Option SessionLease)
      → join_host (update_where (is_host hid) busier hosts) o ≡ join_host hosts o
  join_host-busier hosts none = refl
  join_host-busier hosts (some l) =
      rw
        (
          fetch_one-update (is_host l.cell_host_id) (is_host hid) busier hosts (λ h. refl),
          join_host,
        )
        (ground arith)

module _ {Text : Type 0} (env : Env Text) (sid hid : String) (ttl : ℤ) (s : Store Text) where
  abbrev pub lease_of : SessionLease
  lease_of = record {
    session_id = sid;
    cell_host_id = hid;
    lease_token = env.uuid s.uuid_reads;
    status = "active";
    expires_at = pos (env.time s.clock_reads) +ℤ seconds ttl;
    created_at = env.time s.clock_reads;
    updated_at = env.time s.clock_reads;
  }

  abbrev pub with_lease : Store Text
  with_lease = record s {
    clock_reads = suc s.clock_reads;
    uuid_reads = suc s.uuid_reads;
    session_leases = delete_where (λ l. l.session_id == sid) s.session_leases ++ lease_of ∷ [];
    cell_hosts =
        update_where (is_host hid)
          (λ h. record h {
            capacity_used = h.capacity_used + 1;
            updated_at = env.time s.clock_reads;
          })
          s.cell_hosts;
  }

  -- A lease wants the session and the host; without either it changes nothing but the clock and the
  -- source of identifiers.
  pub create_lease_lem : create_lease env sid hid ttl s ≡ (
      if has_session sid s && exists_where (is_host hid) s.cell_hosts
      then (ok (env.uuid s.uuid_reads), with_lease)
      else (
        err integrity,
        record s { clock_reads = suc s.clock_reads; uuid_reads = suc s.uuid_reads },
      ))
  unfolding create_lease
  create_lease_lem = ground arith

  is_live-lease_of : (t : ℕ) → is_live sid t lease_of ≡ ltb_ℤ (pos t) lease_of.expires_at
  is_live-lease_of t = rw (beq_self sid)

  pub route_at-with_lease :
      (t : ℕ) (h : CellHost Text)
      → fetch_one (is_host hid) s.cell_hosts ≡ some h
      → route_at sid t with_lease ≡ (
          if ltb_ℤ (pos t) lease_of.expires_at
          then some
              (record { lease = lease_of; host_id = h.host_id; address = h.address; zone = h.zone })
          else none)
  unfolding route_at
  route_at-with_lease t h e =
      rw
        (
          fetch_one-delete (is_live sid t) (λ l. l.session_id == sid) s.session_leases lease_of
              (λ l k. is_live_session sid t l k),
          join_host-busier hid (env.time s.clock_reads) s.cell_hosts,
        )
        (elim (Bool-cases (ltb_ℤ (pos t) lease_of.expires_at)) [
          | inl live ↦ rw (is_live-lease_of t, live, e, join_host)
          | inr over ↦ rw (is_live-lease_of t, over)
        ])

  -- A lease for a session of the store on one of its hosts: `create_lease` returns the lease's token, and
  -- afterwards the session has a route to that host, by the new lease, exactly until it expires, whatever
  -- lease the session had before.
  pub route_at-create_lease :
      (t : ℕ) (h : CellHost Text)
      → has_session sid s ≡ true
      → fetch_one (is_host hid) s.cell_hosts ≡ some h
      → ((create_lease env sid hid ttl s).0 ≡ ok (env.uuid s.uuid_reads))
        × (route_at sid t (create_lease env sid hid ttl s).1 ≡ (
            if ltb_ℤ (pos t) (pos (env.time s.clock_reads) +ℤ seconds ttl)
            then some (record {
              lease = lease_of;
              host_id = h.host_id;
              address = h.address;
              zone = h.zone;
            })
            else none))
  route_at-create_lease t h known e =
      let hosted = fetch_one-exists (is_host hid) s.cell_hosts h e in
      let made : create_lease env sid hid ttl s ≡ (ok (env.uuid s.uuid_reads), with_lease) =
        create_lease_lem ∙ rw (known, hosted) refl in
      (ap (λ p. p.0) made, ap (λ p. route_at sid t p.1) made ∙ route_at-with_lease t h e)

  -- The routes of all other sessions stay.
  pub route_at-create_lease_other :
      (k : String) (t : ℕ) → k ≢ sid → route_at k t with_lease ≡ route_at k t s
  unfolding route_at
  route_at-create_lease_other k t ne =
      rw
        (fetch_one-delete_other (is_live k t) (λ l. l.session_id == sid) s.session_leases lease_of
          (λ l e. is_live_other sid k t l ne e) (ground (arith, ne, eq_iff sid k)))
        (join_host-busier hid (env.time s.clock_reads) s.cell_hosts
          (fetch_one (is_live k t) s.session_leases))
