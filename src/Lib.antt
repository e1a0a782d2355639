-- ===== src/Lib.antt =====
-- Nadi: sessions that run on cell hosts, with a durable log of their events.
--
-- The program has a store (nadi/store.py, an SQLite database), session tokens (nadi/security.py), the
-- sandbox tier that runs tools (nadi/sandboxd.py), a runtime that answers commands (nadi/runtime.py),
-- the daemon of a cell host that keeps live cells (nadi/celld.py), the broker that places sessions on
-- hosts (nadi/broker.py) and the gateway that clients call (nadi/gateway.py). A command goes from the
-- gateway into the store's inbox; the daemon that the session's route leads to claims it, has the
-- runtime answer it, and writes each answer to the event log and to the live cell.
--
-- Files and what they model:
--   Store/Schema: the tables of `Store.init_schema` as lists of records, and the environment: the
--     readings of the clock in microseconds, the results of `uuid4`, and the JSON codec, as
--     functions that are parameters.
--   Store/Sessions, Events, Commands, Hosts, Leases, Channels, Resources, Tokens, Audit: the methods
--     of `Store`, one definition for each, under the name of the method.
--   Store/Events/Log: the specification of the event log, a list of entries for each session.
--   Sql: what the SQL statements do to a table; Sql/Laws, Sql/Updates and Sql/Order are their laws.
--   Security/Base64 and Security/Jwt: `_b64e`, `_b64d`, `SessionJWT.sign` and `SessionJWT.verify`.
--     HMAC-SHA256 and the JSON codec are parameters.
--   World: the objects of one process, as `local_stack` builds them, and what it is started with.
--   Sandboxd: `CredentialsProxy.exchange` and `Sandboxd.execute_tool`; the file system is a parameter.
--   Runtime: `Runtime.handle`, with the tool executor as an argument.
--   Celld: `Cell` and the methods of `Celld`; `append_cell_event` is `Celld.append_event`, and the
--     loops of `consume_commands` are `run_commands` and `emit`.
--   Broker and Gateway: the methods of `Broker` and `Gateway`; `open_session` is
--     `Gateway.create_session`.
--   Stack: `local_stack` and the run of `demo` in nadi/cli.py.
--   Server: `NadiHandler` and `make_server` of nadi/server.py; a request is a function from the objects
--     of the process to a response.
--   Cli: `main` of nadi/cli.py, with `serve` of nadi/server.py.
--   Adapters: nadi/adapters/base.py; Adapters/Slack, Discord and Telegram are the message handlers,
--     over the interface `GatewayProtocol`, and Adapters/Setup the constructors with `run`.
--   Scripts/Coverage with Totals, and Scripts/Mutation: the two gates of scripts/coverage_check.py and
--     scripts/mutation_test.py.
--   Scripts/Dry, Literals, Shapes and Report: scripts/dry_analysis.py, with one module for each of its
--     three analyses and one for the report.
--   Common, Exec, Json, Dict, Strings: shared helpers, methods that may raise, JSON values, dictionaries,
--     and the methods of Python's `str`.
-- The modules below a component hold its theorems, and its Tests module has them at concrete inputs.
-- Store/Invariant is the interface between the store and those who call it: a property of the store that
-- its methods keep is kept by Celld/Invariant, Gateway/Invariant, Server/Invariant and
-- Adapters/Invariant, hence in all worlds that Server/Runs calls `Reached`. Store/WellFormed, Store/Tenancy
-- and Store/Spent fill it.
--
-- A method is a function from a state to a result or an exception, and the state after it; what it
-- wrote before it raised stays. Every loop runs over a list, so that no fuel is needed. Each
-- method of the store runs under the store's lock and is one step. Numbers in JSON are integers.
-- Requests are answered one after the other, though the server has threads.
--
-- Not modelled: the order of the entries of a dictionary, which `sort_keys` in `Store._json` changes: a
-- dictionary that the store gives back is taken to be the one that was written, so that where a text
-- is made of a dictionary inside of a payload by `str`, its keys are in the order in which they were given, and
-- not sorted; what http.server, urllib and the libraries of the chat platforms do; a value in a JSON
-- body of another type than the code expects, which raises the error of an unsupported value;
-- the argument parsers; what ast.parse, ast.dump, tokenize, trace and pathlib give to the scripts, which
-- are parameters, as floating-point numbers are; and the files under migrations and proto, which the
-- program does not read.
pub mod Cli
pub mod Common
pub mod Exec
pub mod Strings
pub mod Sql
pub mod Json
pub mod Store
pub mod Security
pub mod Dict
pub mod World
pub mod Sandboxd
pub mod Runtime
pub mod Celld
pub mod Broker
pub mod Gateway
pub mod Adapters
pub mod Server
pub mod Scripts
pub mod Stack
