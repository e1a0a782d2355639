-- ===== src/Store/Fixture.antt =====
-- An environment and a store for the tests of this and the other components.
pub mod Fitting
use nadi.Common.{ℕ, zero, suc, ◌+◌, ◌*◌, ◌≡◌, refl, ap, String, none, some, [], ◌∷◌}
use nadi.Common.Int.{pos, second}
use nadi.Json.{Fields, end, single, str}
use nadi.Store.Schema.{
  Env, Session, Event, Command, pending, CellHost, Channel, Store, RoundTrips, empty_store,
}

-- One stroke for each identifier that was made before.
abbrev pub tally : ℕ → String
tally zero = String.[]
tally (suc n) = String.◌∷◌ "i" (tally n)

pub tally_distinct : (i j : ℕ) → tally i ≡ tally j → i ≡ j
tally_distinct zero zero h = refl
tally_distinct zero (suc j) h = absurd (cc)
tally_distinct (suc i) zero h = absurd (cc)
tally_distinct (suc i) (suc j) h = ap suc (tally_distinct i j (cc))

-- The clock moves on by a second at each reading; a JSON text is the dictionary itself.
abbrev pub test_env : Env Fields
test_env = record {
  time = λ n. (n + 1) * second;
  uuid = tally;
  dumps = λ d. d;
  loads = λ d. some d;
  size = λ d. 2;
  repr = λ v. "?";
}

pub test_env-RoundTrips : RoundTrips test_env
test_env-RoundTrips d = refl

abbrev pub alice : Session Fields
alice = record {
  id = "s1";
  external_id = none;
  tenant_id = "local";
  profile_bundle = none;
  status = "running";
  metadata = end;
  created_at = 0;
  updated_at = 0;
}

abbrev pub first_event : Event Fields
first_event = record {
  id = 1;
  session_id = "s1";
  sequence = 1;
  event_type = "session.started";
  payload = single "cell_host" (str "cell-local");
  created_at = 0;
  actor_resource_id = none;
}

abbrev pub waiting_command : Command Fields
waiting_command = record {
  id = 1;
  session_id = "s1";
  command_type = "echo";
  payload = single "text" (str "hello");
  status = pending;
  available_at = 0;
  claimed_by = none;
  claim_token = none;
  claimed_at = none;
  completed_at = none;
  created_at = 0;
  actor_resource_id = none;
}

abbrev pub cell_local : CellHost Fields
cell_local = record {
  id = "h1";
  host_id = "cell-local";
  zone = "local";
  address = "inproc://cell";
  capacity_total = pos 100;
  capacity_used = 1;
  status = "ready";
  last_heartbeat_at = none;
  metadata = end;
  created_at = 0;
  updated_at = 0;
}

abbrev pub general : Channel Fields
general = record {
  id = "c1";
  platform = "slack";
  channel_id = "general";
  thread_id = "";
  session_id = "s1";
  initiator_resource_id = "slack:u1";
  metadata = end;
  created_at = 0;
  updated_at = 0;
}

-- A session with one event, a command that waits, and a channel; the clock reads 10 s.
abbrev pub small_store : Store Fields
small_store = record empty_store {
  sessions = alice ∷ [];
  events = first_event ∷ [];
  last_event_id = 1;
  command_inbox = waiting_command ∷ [];
  last_command_id = 1;
  cell_hosts = cell_local ∷ [];
  channels = general ∷ [];
  clock_reads = 9;
  uuid_reads = 4;
}
