-- ===== src/World.antt =====
-- The objects of one process, as `local_stack` (nadi/runtime.py) builds them: the store, the cells of
-- each `Celld`, the registries of the `Broker` and the call counters. A `Celld` is named by its
-- `host_id`, so that `self.cells[session_id]` is the entry at (host_id, session_id), and a reference
-- to a `Celld`, or to its method `create_cell`, is that name.
use nadi.Common.{ℕ, String, Bool, false, List, []}
use nadi.Json.{Value, Fields}
use nadi.Exec.{Action}
use nadi.Store.Schema.{Env, Store, empty_store}
use nadi.Security.Jwt.{Crypto}
use nadi.Dict.{Dict}

-- `Cell.state`
pub record CellState : Type 0 where
  pub messages : List Value
  pub tools : List Fields
  pub started : Bool

-- `class Cell` (nadi/celld.py)
pub record Cell : Type 0 where
  pub session_id : String
  pub jwt : List ℕ
  pub state : CellState

abbrev pub empty_state : CellState
empty_state = record { messages = []; tools = []; started = false }

pub record World (Text : Type 0) : Type 0 where
  pub store : Store Text
  pub cells : Dict (String × String) Cell
  pub cell_callbacks : Dict String String
  pub cell_objects : Dict String String
  pub sandbox_objects : Dict String String
  pub tool_path_calls : ℕ
  pub tool_calls : ℕ

-- A path is the list of its parts below `/`. What `pathlib` asks of the file system: `resolve()` of a
-- path, whether it is a directory, and the names in it. `upper` is `str.upper()`.
pub record Platform : Type 0 where
  pub resolve : List String → List String
  pub is_dir : List String → Bool
  pub names : List String → List String
  pub upper : String → String

-- All that the process is started with.
pub record Config (Text : Type 0) : Type 0 where
  pub env : Env Text
  pub crypto : Crypto
  pub secret : List ℕ
  pub root : List String
  pub platform : Platform

-- A call of the store's, from another object.
abbrev pub on_store : {Text A : Type 0} → Action (Store Text) A → Action (World Text) A
on_store m w = let (r, s) = m w.store in (r, record w { store = s })

abbrev pub empty_world : {Text : Type 0} → World Text
empty_world = record {
  store = empty_store;
  cells = [];
  cell_callbacks = [];
  cell_objects = [];
  sandbox_objects = [];
  tool_path_calls = 0;
  tool_calls = 0;
}
