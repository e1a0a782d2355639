-- ===== src/Store/Fixture/Fitting.antt =====
-- The small store is well formed.
use nadi.Common.{refl, arith, Bool-cases, inl, inr}
use nadi.Sql.{select}
use nadi.Store.Fixture.{test_env, small_store, waiting_command, first_event}
use nadi.Store.Events.{in_session}
use nadi.Store.Events.Sequence.{IsSequenced}
use nadi.Store.Commands.{is_waiting}
use nadi.Store.Commands.Claims.{IsInbox}
use nadi.Store.Commands.Limits.{IsBounded}
use nadi.Store.Leases.Routes.{}
use nadi.Store.Channels.Routing.{}
use nadi.Store.WellFormed.{IsWellFormed}

pub small_store-IsSequenced : IsSequenced small_store.events
unfolding select
small_store-IsSequenced sid = elim (Bool-cases (in_session sid first_event)) [
  | inl e ↦ rw e
  | inr e ↦ rw e
]

pub small_store-IsInbox : IsInbox test_env small_store
small_store-IsInbox = record {
  numbered = refl;
  last = refl;
  issued = (tt, tt);
  readable = ((waiting_command.payload, refl), tt);
}

pub small_store-IsBounded : IsBounded small_store
unfolding select
small_store-IsBounded sid = elim (Bool-cases (is_waiting sid waiting_command)) [
  | inl e ↦ rw e (omega arith)
  | inr e ↦ rw e (omega arith)
]

pub small_store-IsWellFormed : IsWellFormed test_env small_store
small_store-IsWellFormed = record {
  numbered = small_store-IsSequenced;
  readable = ((first_event.payload, refl), tt);
  inbox = small_store-IsInbox;
  bounded = small_store-IsBounded;
}
