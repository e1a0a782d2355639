-- ===== src/Store/Schema.antt =====
-- The tables of `Store.init_schema` (nadi/store.py) and the state of a `Store`. A type with a
-- parameter `J` holds a JSON column: `J` is the column's text in a stored row, and the dictionary
-- that `json.loads` makes of it in a row that a method returns.
use nadi.Common.{ℕ, suc, String, ◌≡◌, Option, none, some, List}
use nadi.Common.Int.{ℤ}
use nadi.Json.{Value, Fields, or_empty}
use nadi.Exec.{Action, Result, ok, err, json_decode}

-- What the program takes from outside: the readings of `time.time()` in microseconds and the
-- results of `uuid.uuid4()`, each in the order of the calls; `json.dumps` and `json.loads` with the
-- UTF-8 length of a text; and `str()` of a value that is no text.
pub record Env (Text : Type 0) : Type 0 where
  pub time : ℕ → ℕ
  pub uuid : ℕ → String
  pub dumps : Fields → Text
  pub loads : Text → Option Fields
  pub size : Text → ℕ
  pub repr : Value → String

pub record Session (J : Type 0) : Type 0 where
  pub id : String
  pub external_id : Option String
  pub tenant_id : String
  pub profile_bundle : Option String
  pub status : String
  pub metadata : J
  pub created_at : ℕ
  pub updated_at : ℕ

pub record Event (J : Type 0) : Type 0 where
  pub id : ℕ
  pub session_id : String
  pub sequence : ℕ
  pub event_type : String
  pub payload : J
  pub created_at : ℕ
  pub actor_resource_id : Option String

pub data CommandStatus : Type 0 where
  pending claimed completed : CommandStatus

pub record Command (J : Type 0) : Type 0 where
  pub id : ℕ
  pub session_id : String
  pub command_type : String
  pub payload : J
  pub status : CommandStatus
  pub available_at : ℕ
  pub claimed_by : Option String
  pub claim_token : Option String
  pub claimed_at : Option ℕ
  pub completed_at : Option ℕ
  pub created_at : ℕ
  pub actor_resource_id : Option String

-- `expires_at` is a float column; the program puts whole seconds there.
pub record RevokedToken : Type 0 where
  pub jti : String
  pub expires_at : ℤ
  pub revoked_at : ℕ

pub record CellHost (J : Type 0) : Type 0 where
  pub id : String
  pub host_id : String
  pub zone : String
  pub address : String
  pub capacity_total : ℤ
  pub capacity_used : ℕ
  pub status : String
  pub last_heartbeat_at : Option ℕ
  pub metadata : J
  pub created_at : ℕ
  pub updated_at : ℕ

pub record SessionLease : Type 0 where
  pub session_id : String
  pub cell_host_id : String
  pub lease_token : String
  pub status : String
  pub expires_at : ℤ
  pub created_at : ℕ
  pub updated_at : ℕ

pub record SandboxHost (J : Type 0) : Type 0 where
  pub id : String
  pub host_id : String
  pub zone : String
  pub address : String
  pub status : String
  pub last_heartbeat_at : Option ℕ
  pub metadata : J
  pub created_at : ℕ
  pub updated_at : ℕ

pub record Channel (J : Type 0) : Type 0 where
  pub id : String
  pub platform : String
  pub channel_id : String
  pub thread_id : String
  pub session_id : String
  pub initiator_resource_id : String
  pub metadata : J
  pub created_at : ℕ
  pub updated_at : ℕ

pub record Resource (J : Type 0) : Type 0 where
  pub resource_id : String
  pub platform : String
  pub memory : J
  pub created_at : ℕ
  pub updated_at : ℕ

pub record AuditEntry (J : Type 0) : Type 0 where
  pub id : ℕ
  pub actor : String
  pub action : String
  pub session_id : Option String
  pub payload : J
  pub created_at : ℕ

-- The tables, the last ids of those with AUTOINCREMENT, and how often the clock and `uuid4` have
-- been read.
pub record Store (Text : Type 0) : Type 0 where
  pub sessions : List (Session Text)
  pub events : List (Event Text)
  pub last_event_id : ℕ
  pub command_inbox : List (Command Text)
  pub last_command_id : ℕ
  pub revoked_tokens : List RevokedToken
  pub cell_hosts : List (CellHost Text)
  pub session_leases : List SessionLease
  pub sandbox_hosts : List (SandboxHost Text)
  pub channels : List (Channel Text)
  pub resources : List (Resource Text)
  pub audit_log : List (AuditEntry Text)
  pub last_audit_id : ℕ
  pub clock_reads : ℕ
  pub uuid_reads : ℕ

-- The store that `init_schema` makes of a new file.
abbrev pub empty_store : {Text : Type 0} → Store Text
empty_store = record {
  sessions = List.[];
  events = List.[];
  last_event_id = 0;
  command_inbox = List.[];
  last_command_id = 0;
  revoked_tokens = List.[];
  cell_hosts = List.[];
  session_leases = List.[];
  sandbox_hosts = List.[];
  channels = List.[];
  resources = List.[];
  audit_log = List.[];
  last_audit_id = 0;
  clock_reads = 0;
  uuid_reads = 0;
}

module _ {Text : Type 0} (env : Env Text) where
  unfoldable pub now : Action (Store Text) ℕ
  now s = (ok (env.time s.clock_reads), record s { clock_reads = suc s.clock_reads })

  unfoldable pub uuid4 : Action (Store Text) String
  uuid4 s = (ok (env.uuid s.uuid_reads), record s { uuid_reads = suc s.uuid_reads })

  -- `Store._json`. Here `env.dumps` is `json.dumps` with `sort_keys=True`, which gives the same dictionary
  -- back with its entries in another order.
  abbrev pub json_text : Option Fields → Text
  json_text data' = env.dumps (or_empty data')

  -- the `json.loads` of `Store._row`
  abbrev pub json_loads : Text → Result Fields
  json_loads text = elim (env.loads text) [ none ↦ err json_decode | some d ↦ ok d ]

-- `json.loads` gives back a dictionary that `json.dumps` wrote. The order of its entries is left out:
-- Python compares dictionaries without it, and the program reads them by their keys. It shows only in the
-- `repr` of a dictionary that lies inside of another, whose keys are then in order.
abbrev pub RoundTrips : {Text : Type 0} → Env Text → Type 0
RoundTrips env = (d : Fields) → env.loads (env.dumps d) ≡ some d
