-- ===== src/Store/Resources.antt =====
-- The table `resources`: `get_resource_memory` and `set_resource_memory`.
use nadi.Common.{ℕ, ◌*◌, String, Bool, Option, none, some, [], ◌∷◌, ◌++◌, ltb, ◌==◌, string_eq}
use nadi.Json.{Fields, end}
use nadi.Exec.{Action, gets, modify, raise_if, memory_too_large, ◌>>=◌, ◌>>◌}
use nadi.Sql.{fetch_one, update_where, exists_where}
use nadi.Store.Schema.{Env, Resource, Store, now, json_text}

-- `_MAX_MEMORY_BYTES`
abbrev pub max_memory_bytes : ℕ
max_memory_bytes = 1 * 1024 * 1024

module _ {Text : Type 0} where
  abbrev pub is_resource : String → Resource Text → Bool
  is_resource resource_id row = row.resource_id == resource_id

  -- INSERT … ON CONFLICT(resource_id) DO UPDATE SET memory, updated_at
  upsert_resource : Resource Text → Store Text → Store Text
  upsert_resource row s = record s {
    resources = elim (exists_where (is_resource row.resource_id) s.resources) [
      | Bool.true ↦
          update_where (is_resource row.resource_id)
            (λ r. record r { memory = row.memory; updated_at = row.updated_at }) s.resources
      | Bool.false ↦ s.resources ++ row ∷ []
    ];
  }

module _ {Text : Type 0} (env : Env Text) where
  -- A text that does not decode reads as the empty dictionary.
  memory_of : Option (Resource Text) → Fields
  memory_of none = end
  memory_of (some row) = elim (env.loads row.memory) [ none ↦ end | some d ↦ d ]

  unfoldable pub get_resource_memory : String → Action (Store Text) Fields
  unfolding memory_of
  get_resource_memory resource_id =
      gets (λ s. memory_of (fetch_one (is_resource resource_id) s.resources))

  unfoldable pub set_resource_memory : String → Fields → String → Action (Store Text) (Unit {0})
  unfolding upsert_resource now
  set_resource_memory resource_id memory platform = do
    let blob = json_text env (some memory)
    raise_if (ltb max_memory_bytes (env.size blob)) memory_too_large
    t ← now env
    modify (
        upsert_resource (record {
          resource_id = resource_id;
          platform = platform;
          memory = blob;
          created_at = t;
          updated_at = t;
        }))
