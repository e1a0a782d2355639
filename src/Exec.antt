-- ===== src/Exec.antt =====
-- The exceptions of the program and the methods that may raise them. What a method wrote before it
-- raised stays written, so the state comes back beside the error too.
pub mod Keeps
pub mod Returns
use nadi.Common.{Bool, true, false, Option, none, some, List, [], ◌∷◌}

-- The messages of `class JWTError` (nadi/security.py).
pub data JwtError : Type 0 where
  malformed_token malformed_header unsupported_algorithm bad_signature malformed_payload : JwtError
  token_expired wrong_session missing_scope token_revoked : JwtError

-- `integrity` is sqlite3's IntegrityError; the last four are Python's own exceptions.
-- `unsupported` stands for what the code does with a JSON value that the model leaves out.
pub data Error : Type 0 where
  jwt : JwtError → Error
  too_many_pending event_limit bad_host_table memory_too_large : Error
  no_capacity no_callback no_active_route no_route : Error
  path_escapes unknown_tool : Error
  unsupported : Error
  integrity json_decode key_error type_error attribute_error : Error

pub data Result (A : Type 0) : Type 0 where
  ok : A → Result A
  err : Error → Result A

abbrev pub Action : Type 0 → Type 0 → Type 0
Action S A = S → Result A × S

module _ {S A : Type 0} where
  abbrev pub pure : A → Action S A
  pure a s = (ok a, s)

  abbrev pub raise : Error → Action S A
  raise e s = (err e, s)

  abbrev pub lift : Result A → Action S A
  lift r s = (r, s)

  abbrev pub gets : (S → A) → Action S A
  gets f s = (ok (f s), s)

  abbrev pub or_raise : Option A → Error → Action S A
  or_raise none e = raise e
  or_raise (some a) e = pure a

module _ {S : Type 0} where
  abbrev pub modify : (S → S) → Action S (Unit {0})
  modify f s = (ok tt, f s)

  abbrev pub raise_if : Bool → Error → Action S (Unit {0})
  raise_if true e = raise e
  raise_if false e = pure tt

module _ {S A B : Type 0} where
  abbrev pub continue : Result A → (A → Action S B) → Action S B
  continue (ok a) f s = f a s
  continue (err e) f s = (err e, s)

  infixl 5 ◌>>=◌ ◌>>◌
  abbrev pub ◌>>=◌ : Action S A → (A → Action S B) → Action S B
  ◌>>=◌ m f s = let (r, s') = m s in continue r f s'

  abbrev pub ◌>>◌ : Action S A → Action S B → Action S B
  m >> k = m >>= λ _. k

-- `except Exception: … raise`: the handler runs on what the failed call left.
abbrev pub cleaned : {S A : Type 0} → Result A → Action S (Unit {0}) → Action S A
cleaned (ok a) k = pure a
cleaned (err e) k = k >> raise e

abbrev pub on_error : {S A : Type 0} → Action S A → Action S (Unit {0}) → Action S A
on_error m k s = let (r, s') = m s in cleaned r k s'

-- Results without a state.
abbrev pub then_result : {A B : Type 0} → Result A → (A → Result B) → Result B
then_result (ok a) f = f a
then_result (err e) f = err e

-- A list comprehension whose element may raise.
unfoldable pub each : {A B : Type 0} → (A → Result B) → List A → Result (List B)
each f [] = ok []
each f (x ∷ xs) = then_result (f x) λ y. then_result (each f xs) λ ys. ok (y ∷ ys)
