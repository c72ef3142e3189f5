-- ===== src/Prelude/Method.antt =====
-- Methods on a Go object: the state goes in, and comes back beside the result, on every path.
use mathlib.Core.Path.{◌≡◌, refl, sym, ap, ◌∙◌}
use zero_comm.Prelude.Outcome.{Result, ok, err, panic, Error}

abbrev pub Method {ℓ κ} : Type ℓ → Type κ → Type (ℓ ⊔ κ)
Method S A = S → Result A × S

module _ {ℓ κ} {S : Type ℓ} {A : Type κ} where
  abbrev pub pure : A → Method S A
  pure a s = (ok a, s)

  abbrev pub raise : Error → Method S A
  raise e s = (err e, s)

  abbrev pub lift : Result A → Method S A
  lift r s = (r, s)

  abbrev pub gets : (S → A) → Method S A
  gets f s = (ok (f s), s)

abbrev pub modify {ℓ} : {S : Type ℓ} → (S → S) → Method S (Unit {0})
modify f s = (ok tt, f s)

module _ {ℓ κ μ} {S : Type ℓ} {A : Type κ} {B : Type μ} where
  abbrev pub proceed : Result A → (A → Method S B) → Method S B
  proceed (ok a) f s = f a s
  proceed (err e) f s = (err e, s)
  proceed panic f s = (panic, s)

  infixl 5 ◌>>=◌ ◌>>◌
  abbrev pub ◌>>=◌ : Method S A → (A → Method S B) → Method S B
  ◌>>=◌ m f s = proceed (m s).0 f (m s).1

  abbrev pub ◌>>◌ : Method S A → Method S B → Method S B
  m >> n = m >>= λ _. n

  -- `if err != nil` with a branch that handles the error
  abbrev pub recover : Result A → (A → Method S B) → (Error → Method S B) → Method S B
  recover (ok a) f g s = f a s
  recover (err e) f g s = g e s
  recover panic f g s = (panic, s)

  -- A call whose error is handled and not passed on.
  abbrev pub attempt : Method S A → (A → Method S B) → (Error → Method S B) → Method S B
  attempt m f g s = recover (m s).0 f g (m s).1

module _ {ℓ κ μ} {S : Type ℓ} {A : Type κ} {B : Type μ} where
  -- A chain that succeeds did so in its first call, and goes on from the state that this left.
  pub >>=-ok :
      (m : Method S A) (f : A → Method S B) (s : S) {b : B}
      → ((m >>= f) s).0 ≡ ok b
      → (a : A) × ((m s).0 ≡ ok a) × ((m >>= f) s ≡ f a (m s).1)
  >>=-ok m f s h = by_result (m s).0 h
    where
      by_result :
          (r : Result A) {b : B}
          → (proceed r f (m s).1).0 ≡ ok b
          → (a : A) × (r ≡ ok a) × (proceed r f (m s).1 ≡ f a (m s).1)
      by_result (ok a) h = (a, refl, refl)
      by_result (err e) h = cc
      by_result panic h = cc

  pub >>=-next :
      (m : Method S A) (f : A → Method S B) (s : S) {b : B}
      → ((m >>= f) s).0 ≡ ok b
      → (a : A) × ((m s).0 ≡ ok a) × ((f a (m s).1).0 ≡ ok b)
  >>=-next m f s h = let (a, e, step) = >>=-ok m f s h in (a, e, ap (λ r. r.0) (sym step) ∙ h)
