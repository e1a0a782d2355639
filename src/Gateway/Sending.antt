-- ===== src/Gateway/Sending.antt =====
-- `route`, `send_command` and `get_session_events` for a session with and without a route.
use nadi.Common.{ℕ, suc, ◌≡◌, String, Option, none, some, map, drop, All, inl, inr, Option-cases}
use nadi.Json.{Fields}
use nadi.Exec.{ok, err, no_route}
use nadi.Store.Events.Sequence.{IsSequenced, IsReadable, decode, events_of, get_events_lem}
use nadi.Store.Leases.{Route, route_at, get_route}
use nadi.World.{World, Config}
use nadi.Gateway.{route, send_command, get_session_events}

module _ {Text : Type 0} (c : Config Text) (sid : String) (w : World Text) where
  -- The route at the time that the clock shows next.
  abbrev pub current_route : Option Route
  current_route = route_at sid (c.env.time w.store.clock_reads) w.store

  abbrev pub clock_read : World Text
  clock_read = record w { store = record w.store { clock_reads = suc w.store.clock_reads } }

  pub route_found : (r : Route) → current_route ≡ some r → route c sid w ≡ (ok r, clock_read)
  unfolding route get_route
  route_found r h = rw (h, route)

  route_missing : current_route ≡ none → route c sid w ≡ (err no_route, clock_read)
  unfolding route get_route
  route_missing h = rw (h, route)

  -- A session without a live lease: `send_command` raises the error of the missing route, and
  -- nothing but the reading of the clock has happened, so that no command is left in the inbox.
  pub send_command_unrouted :
      (ty : String) (payload : Option Fields) (actor : Option String)
      → current_route ≡ none
      → send_command c sid ty payload actor w ≡ (err no_route, clock_read)
  unfolding send_command
  send_command_unrouted ty payload actor h = rw (route_missing h, send_command)

  -- `get_session_events` returns the session's events past the first `after` ones, in the order of
  -- their numbers, if the session has a route, and the error of the missing route if it has none.
  pub get_session_events_lem :
      (after : ℕ)
      → IsSequenced w.store.events
      → All (IsReadable c.env) w.store.events
      → get_session_events c sid after w ≡ (
        elim current_route [
          | none ↦ err no_route
          | some r ↦ ok (map (decode c.env) (drop after (events_of sid w.store.events)))
        ],
        clock_read,
      )
  unfolding get_session_events
  get_session_events_lem after numbered readable = elim (Option-cases current_route) [
    | inl gone ↦ rw (route_missing gone, get_session_events, gone)
    | inr (r, found) ↦ rw (
      route_found r found,
      get_session_events,
      get_events_lem c.env sid after clock_read.store numbered readable,
      found,
    )
  ]
