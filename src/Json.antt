-- ===== src/Json.antt =====
-- Values of Python's `json` module. A dictionary is the list of its entries, and only `get` reads
-- it. The program's numbers are integers; a float in a payload is not modelled.
use nadi.Common.{
  zero, ◌≡◌, Bool, true, false, Option, none, some, String, ◌==◌, string_eq, beq_self,
  if◌then◌else◌,
}
use nadi.Common.Int.{ℤ, pos}

mutual
  pub data Value : Type 0 where
    null : Value
    bool : Bool → Value
    num : ℤ → Value
    str : String → Value
    obj : Fields → Value
    arr : Items → Value

  pub data Fields : Type 0 where
    end : Fields
    field : String → Value → Fields → Fields

  pub data Items : Type 0 where
    nil : Items
    cons : Value → Items → Items

-- `d.get(k)`
unfoldable pub get : Fields → String → Option Value
get end k = none
get (field j v rest) k = if j == k then some v else get rest k

-- `d.get(k, default)`
unfoldable pub get_or : Fields → String → Value → Value
unfolding get
get_or d k default = elim (get d k) [ none ↦ default | some v ↦ v ]

-- the truth of a value, which `or` and `if` read
abbrev pub is_truthy : Value → Bool
is_truthy null = false
is_truthy (bool b) = b
is_truthy (num (pos zero)) = false
is_truthy (num _) = true
is_truthy (str String.[]) = false
is_truthy (str _) = true
is_truthy (arr nil) = false
is_truthy (arr (cons _ _)) = true
is_truthy (obj end) = false
is_truthy (obj (field _ _ _)) = true

-- `d or {}`
abbrev pub or_empty : Option Fields → Fields
or_empty none = end
or_empty (some d) = d

-- the one-entry dictionary `{k: v}`
abbrev pub single : String → Value → Fields
single k v = field k v end

pub get_or-single : (k : String) (v d : Value) → get_or (single k v) k d ≡ v
unfolding get_or
get_or-single k v d = rw (beq_self k, get_or)

-- `str(v)`: a text is itself, and `repr` shows any other value
abbrev pub text_of : (Value → String) → Value → String
text_of repr (str t) = t
text_of repr v = repr v
