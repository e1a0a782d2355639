-- ===== src/Stack/Fixture.antt =====
-- The objects of one process for the tests.
use nadi.Common.{true, [], ◌∷◌}
use nadi.Json.{Fields}
use nadi.Store.Fixture.{test_env, small_store}
use nadi.Security.Jwt.Fixture.{test_crypto}
use nadi.World.{World, Config, empty_world}

abbrev pub test_config : Config Fields
test_config = record {
  env = test_env;
  crypto = test_crypto;
  secret = [];
  root = "srv" ∷ [];
  platform = record {
    resolve = λ p. p;
    is_dir = λ p. true;
    names = λ p. "b" ∷ "a" ∷ [];
    upper = λ t. t;
  };
}

abbrev pub small_world : World Fields
small_world = record empty_world {
  store = small_store;
  cell_callbacks = ("cell-local", "cell-local") ∷ [];
  cell_objects = ("cell-local", "cell-local") ∷ [];
}
