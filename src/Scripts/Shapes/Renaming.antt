-- ===== src/Scripts/Shapes/Renaming.antt =====
-- What the shape of a function does not depend on.
use nadi.Common.{◌≡◌, refl, ap, String}
use nadi.Scripts.Shapes.{
  Node, Nodes, name, arg, constant, function, other, nil, cons, Const, text, plain, other_const,
  visit, visit_all, visit_constant,
}

-- New names for the variables and parameters, new annotations, texts and other constants.
pub record Renaming : Type 0 where
  pub variable : String → String
  pub parameter : String → String
  pub annotation : Nodes → Nodes
  pub new_text : String → String
  pub new_plain : String → String

module _ (r : Renaming) where
  abbrev pub rename_constant : Const → Const
  rename_constant (text s) = text (r.new_text s)
  rename_constant (plain s) = plain (r.new_plain s)
  rename_constant (other_const s) = other_const s

  unfoldable mutual
    pub rename : Node → Node
    rename (name id ctx) = name (r.variable id) ctx
    rename (arg id annotation) = arg (r.parameter id) (r.annotation annotation)
    rename (constant c) = constant (rename_constant c)
    rename (function label id line before body after) =
        function label id line (rename_all before) (rename_all body) (rename_all after)
    rename (other label children) = other label (rename_all children)

    pub rename_all : Nodes → Nodes
    rename_all nil = nil
    rename_all (cons n ns) = cons (rename n) (rename_all ns)

  visit_constant-rename : (c : Const) → visit_constant (rename_constant c) ≡ visit_constant c
  visit_constant-rename (text s) = refl
  visit_constant-rename (plain s) = refl
  visit_constant-rename (other_const s) = refl

  mutual
    unfolding visit rename

    visit-rename_node : (n : Node) → visit (rename n) ≡ visit n
    visit-rename_node (name id ctx) = refl
    visit-rename_node (arg id annotation) = refl
    visit-rename_node (constant c) = ap constant (visit_constant-rename c)
    visit-rename_node (function label id line before body after) =
        cc (visit_all-rename before, visit_all-rename body, visit_all-rename after)
    visit-rename_node (other label children) = ap (other label) (visit_all-rename children)

    visit_all-rename : (ns : Nodes) → visit_all (rename_all ns) ≡ visit_all ns
    visit_all-rename nil = refl
    visit_all-rename (cons n ns) = cc (visit-rename_node n, visit_all-rename ns)
