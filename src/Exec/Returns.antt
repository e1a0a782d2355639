-- ===== src/Exec/Returns.antt =====
-- What a method that returned must have done: its steps, one after the other, returned too.
use nadi.Common.{◌≡◌, refl, arith}
use nadi.Exec.{Action, Result, ok, err, continue, on_error, cleaned, raise, ◌>>=◌}

module _ {S A B : Type 0} where
  continue_ok :
      (r : Result A) (f : A → Action S B) (s s' : S) (b : B)
      → continue r f s ≡ (ok b, s')
      → (a : A) × (r ≡ ok a) × (f a s ≡ (ok b, s'))
  continue_ok (ok a) f s s' b h = (a, refl, h)
  continue_ok (err e) f s s' b h = absurd (ground arith)

  pub bind_ok :
      (m : Action S A) (f : A → Action S B) (s s' : S) (b : B)
      → (m >>= f) s ≡ (ok b, s')
      → (a : A) × ((m s).0 ≡ ok a) × (f a (m s).1 ≡ (ok b, s'))
  bind_ok m f s s' b h = continue_ok (m s).0 f (m s).1 s' b h

  -- A step that is known to return goes on with what it returns.
  pub bind_returned :
      (m : Action S A) (f : A → Action S B) (s : S) (a : A)
      → (m s).0 ≡ ok a
      → (m >>= f) s ≡ f a (m s).1
  bind_returned m f s a h = rw h

  pub bind_exact :
      (m : Action S A) (f : A → Action S B) (s s' : S) (a : A)
      → m s ≡ (ok a, s')
      → (m >>= f) s ≡ f a s'
  bind_exact m f s s' a h = rw h

module _ {S A : Type 0} where
  cleaned_ok :
      (r : Result A) (k : Action S (Unit {0})) (s s' : S) (a : A)
      → cleaned r k s ≡ (ok a, s')
      → (r ≡ ok a) × (s ≡ s')
  cleaned_ok (ok x) k s s' a h = ground arith
  cleaned_ok (err e) k s s' a h =
      absurd (let (x, _, g) = bind_ok k (λ _. raise e) s s' a h in ground arith)

  pub on_error_ok :
      (m : Action S A) (k : Action S (Unit {0})) (s s' : S) (a : A)
      → on_error m k s ≡ (ok a, s')
      → m s ≡ (ok a, s')
  on_error_ok m k s s' a h = let (e, f) = cleaned_ok (m s).0 k (m s).1 s' a h in cc
