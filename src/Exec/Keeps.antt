-- ===== src/Exec/Keeps.antt =====
-- Properties of the state that a method keeps, whatever it returns.
use nadi.Common.{◌≡◌, refl, Bool, true, false, Option, none, some, if◌then◌else◌}
use nadi.Exec.{
  Action, Result, ok, err, Error, raise, or_raise, raise_if, cleaned, on_error, continue, ◌>>=◌,
}

module _ {S : Type 0} (P : S → Type 0) where
  abbrev pub Keeps : {A : Type 0} → Action S A → Type 0
  Keeps m = (s : S) → P s → P (m s).1

  pub continue-Keeps :
      {A B : Type 0} (r : Result A) (f : A → Action S B)
      → ((a : A) → Keeps (f a))
      → Keeps (continue r f)
  continue-Keeps (ok a) f h s p = h a s p
  continue-Keeps (err e) f h s p = p

  -- The state after a further step, which knows what the last one returned.
  pub continue-after :
      {A B : Type 0} (r : Result A) (f : A → Action S B) (s : S)
      → P s
      → ((a : A) → r ≡ ok a → P (f a s).1)
      → P (continue r f s).1
  continue-after (ok a) f s p h = h a refl
  continue-after (err e) f s p h = p

  pub bind-Keeps :
      {A B : Type 0} (m : Action S A) (f : A → Action S B)
      → Keeps m
      → ((a : A) → Keeps (f a))
      → Keeps (m >>= f)
  bind-Keeps m f k h s p = continue-Keeps (m s).0 f h (m s).1 (k s p)

  pub or_raise-Keeps : {A : Type 0} (o : Option A) (e : Error) → Keeps (or_raise o e)
  or_raise-Keeps none e s p = p
  or_raise-Keeps (some a) e s p = p

  pub raise_if-Keeps : (b : Bool) (e : Error) → Keeps (raise_if b e)
  raise_if-Keeps true e s p = p
  raise_if-Keeps false e s p = p

  cleaned-Keeps :
      {A : Type 0} (r : Result A) (k : Action S (Unit {0})) → Keeps k → Keeps (cleaned r k)
  cleaned-Keeps (ok a) k h s p = p
  cleaned-Keeps (err e) k h s p = bind-Keeps k (λ _. raise e) h (λ _ s p. p) s p

  pub on_error-Keeps :
      {A : Type 0} (m : Action S A) (k : Action S (Unit {0}))
      → Keeps m
      → Keeps k
      → Keeps (on_error m k)
  on_error-Keeps m k h j s p = cleaned-Keeps (m s).0 k j (m s).1 (h s p)

  pub branch-Keeps :
      {A : Type 0} (b : Bool) (m k : Action S A) → Keeps m → Keeps k → Keeps (if b then m else k)
  branch-Keeps true m k h j = h
  branch-Keeps false m k h j = j
