-- ===== src/Cli.antt =====
-- `main` of nadi/cli.py, and `serve` of nadi/server.py, on the options that `argparse` gives.
use nadi.Common.{ℕ, String, ◌<>◌, Option, none, some, ◌==◌, string_eq, if◌then◌else◌}
use nadi.Strings.{decimal}
use nadi.Json.{Fields, str, field, single}
use nadi.Exec.{Action, pure, ◌>>=◌, ◌>>◌}
use nadi.World.{World, Config}
use nadi.Stack.{Demo, local_stack, demo}

-- The options of the two commands; the defaults are those of the parser.
pub record Options : Type 0 where
  pub cmd : String
  pub db : String
  pub host : String
  pub port : ℕ

abbrev pub default_options : String → Options
default_options cmd = record { cmd = cmd; db = "/tmp/nadi.db"; host = "127.0.0.1"; port = 8080 }

-- The file that `demo` removes before it opens the database
unfoldable pub removed_file : String → Option String
removed_file db = if db == ":memory" then none else some db

-- What is printed, as JSON.
pub data Printed : Type 0 where
  demo_run : Demo → Printed
  serving : Fields → Printed
  usage : Printed

module _ {Text : Type 0} (c : Config Text) where
  -- `serve` up to `serve_forever`, on the objects that `local_stack` has just made
  unfoldable pub serve : String → String → ℕ → Action (World Text) Fields
  serve db host port = do
    local_stack c
    pure (
        field "serving" (str ("http://" <> (host <> (":" <> decimal port)))) (single "db" (str db)))

  -- The printed object and the exit code
  unfoldable pub main : Options → Action (World Text) (Printed × ℕ)
  unfolding serve
  main options =
      if options.cmd == "demo"
      then (do run ← demo c; pure (demo_run run, 0))
      else if options.cmd == "serve"
      then (do line ← serve options.db options.host options.port; pure (serving line, 0))
      else pure (usage, 2)
