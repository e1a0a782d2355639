-- ===== src/Scripts/Shapes.antt =====
-- `Shape` and `function_shapes` of scripts/dry_analysis.py, on the syntax trees of `ast`. A label stands
-- for the class of a node with those of its fields that are no nodes.
pub mod Renaming
use nadi.Common.{
  ℕ, zero, suc, String, ◌<>◌, Bool, Option, none, some, List, [], ◌∷◌, ◌++◌, map, length, ltb,
  if◌then◌else◌,
}
use nadi.Strings.{decimal}
use nadi.Sql.{select}
use nadi.Dict.{Dict}
use nadi.Scripts.Dry.{add_hit}

-- The value of an `ast.Constant`: a text; a number, a truth value or None; or another value.
pub data Const : Type 0 where
  text : String → Const
  plain : String → Const
  other_const : String → Const

-- `name` is an `ast.Name` with its context, `arg` has its annotation below it, and `function` is a
-- FunctionDef or AsyncFunctionDef: its label and name, its line, and the nodes before, in and after
-- its body.
mutual
  pub data Node : Type 0 where
    name : String → String → Node
    arg : String → Nodes → Node
    constant : Const → Node
    function : String → String → ℕ → Nodes → Nodes → Nodes → Node
    other : String → Nodes → Node

  pub data Nodes : Type 0 where
    nil : Nodes
    cons : Node → Nodes → Nodes

abbrev pub visit_constant : Const → Const
visit_constant (text s) = text "STR"
visit_constant (plain s) = text "CONST"
visit_constant (other_const s) = other_const s

-- `Shape().visit(node)`; a node without a method of its own has its children visited.
unfoldable mutual
  pub visit : Node → Node
  visit (name id ctx) = name "NAME" ctx
  visit (arg id annotation) = arg "ARG" nil
  visit (constant c) = constant (visit_constant c)
  visit (function label id line before body after) =
      function label id line (visit_all before) (visit_all body) (visit_all after)
  visit (other label children) = other label (visit_all children)

  pub visit_all : Nodes → Nodes
  visit_all nil = nil
  visit_all (cons n ns) = cons (visit n) (visit_all ns)

-- The visit of a function changes the tree in place, so that a function inside of it has been visited
-- before when its turn comes.
unfoldable pub visits : ℕ → Node → Node
visits zero n = n
visits (suc k) n = visits k (visit n)

abbrev pub count_nodes : Nodes → ℕ
count_nodes nil = 0
count_nodes (cons n ns) = suc (count_nodes ns)

-- A function that the walk meets, after a number of visits of the functions around it.
pub record Met : Type 0 where
  pub function_name : String
  pub lineno : ℕ
  pub body_len : ℕ
  pub visited : ℕ
  pub node : Node

-- Two lists of levels, one level after the other
unfoldable pub beside : List (List Met) → List (List Met) → List (List Met)
beside [] ys = ys
beside (x ∷ xs) [] = x ∷ xs
beside (x ∷ xs) (y ∷ ys) = (x ++ y) ∷ beside xs ys

-- The functions that `ast.walk` meets, level by level: it gives a node before those below it.
unfoldable mutual
  unfolding beside

  pub levels : ℕ → Node → List (List Met)
  levels k (name id ctx) = []
  levels k (arg id annotation) = [] ∷ levels_of k annotation
  levels k (constant c) = []
  levels k (function label id line before body after) =
      let n = count_nodes body in
      let inner = if ltb n 3 then k else suc k in
      (record {
        function_name = id;
        lineno = line;
        body_len = n;
        visited = k;
        node = function label id line before body after;
      }
        ∷ [])
      ∷ beside (levels_of inner before) (beside (levels_of inner body) (levels_of inner after))
  levels k (other label children) = [] ∷ levels_of k children

  pub levels_of : ℕ → Nodes → List (List Met)
  levels_of k nil = []
  levels_of k (cons n ns) = beside (levels k n) (levels_of k ns)

unfoldable pub join_levels : List (List Met) → List Met
join_levels [] = []
join_levels (level ∷ rest) = level ++ join_levels rest

-- `f"{path}:{node.lineno}:{node.name}"`
abbrev pub place_of : String → Met → String
place_of path m = path <> (":" <> (decimal m.lineno <> (":" <> m.function_name)))

abbrev pub is_shared : String × List String → Bool
is_shared (digest, hits) = ltb 1 (length hits)

-- `sha256` gives the digest of a text, and `dump` is `ast.dump` without attributes.
module _ (sha256 : String → String) (dump : Node → String) where
  abbrev pub shape_digest : Met → String
  shape_digest m = sha256 (dump (visits (suc m.visited) m.node))

  unfoldable pub add_functions :
      String → List Met → Dict String (List String) → Dict String (List String)
  add_functions path [] shapes = shapes
  add_functions path (m ∷ ms) shapes =
      add_functions path ms
        (if ltb m.body_len 3 then shapes else add_hit (shape_digest m) (place_of path m) shapes)

  -- A file is its path and its tree, where `ast.parse` raises no SyntaxError.
  unfoldable pub collect_shapes :
      List (String × Option Node) → Dict String (List String) → Dict String (List String)
  collect_shapes [] shapes = shapes
  collect_shapes ((path, none) ∷ files) shapes = collect_shapes files shapes
  collect_shapes ((path, some tree) ∷ files) shapes =
      collect_shapes files (add_functions path (join_levels (levels 0 tree)) shapes)

  unfoldable pub function_shapes : List (String × Option Node) → Dict String (List String)
  unfolding collect_shapes add_functions join_levels
  function_shapes files = select is_shared (collect_shapes files [])
