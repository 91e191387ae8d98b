-- ===== src/Common/Actions.antt =====
-- Calls that also write, and `@transaction.atomic`.
use mathlib.Core.Path.{◌≡◌, refl}
use rpsd_config.Common.Results.{Result, ok, err}

-- An action on a state: what was written before a raise stays written, unless the call is atomic.
abbrev pub Action {ℓ} : Type ℓ → Type ℓ → Type ℓ → Type ℓ
Action E S A = S → Result E A × S

module _ {ℓ} {E S A : Type ℓ} where
  abbrev pub pure : A → Action E S A
  pure a s = (ok a, s)

  abbrev pub raise : E → Action E S A
  raise e s = (err e, s)

  abbrev pub gets : (S → A) → Action E S A
  gets f s = (ok (f s), s)

  abbrev pub lift : Result E A → Action E S A
  lift r s = (r, s)

  -- a call that only reads
  abbrev pub reads : (S → Result E A) → Action E S A
  reads f s = (f s, s)

  -- `@transaction.atomic`: a raise rolls every write of the block back.
  abbrev rolled_back : S → Result E A × S → Result E A × S
  rolled_back s (ok a, s') = (ok a, s')
  rolled_back s (err e, s') = (err e, s)

  abbrev pub atomic : Action E S A → Action E S A
  atomic m s = rolled_back s (m s)

module _ {ℓ} {E S : Type ℓ} where
  abbrev pub modify : (S → S) → Action E S (Unit {ℓ})
  modify f s = (ok tt, f s)

module _ {ℓ} {E S A B : Type ℓ} where
  abbrev continue : Result E A → (A → Action E S B) → Action E S B
  continue (ok a) f s = f a s
  continue (err e) f s = (err e, s)

  infixl 5 ◌>>=◌ ◌>>◌
  abbrev pub ◌>>=◌ : Action E S A → (A → Action E S B) → Action E S B
  ◌>>=◌ m f s = let (r, s') = m s in continue r f s'

  abbrev pub ◌>>◌ : Action E S A → Action E S B → Action E S B
  m >> n = m >>= λ _. n

module _ {E S A B : Type 0} (f : A → Action E S B) (P : Result E B → S → Type 0) where
  continue-post :
      (r : Result E A) (s : S)
      → ((e : E) → r ≡ err e → P (err e) s)
      → ((a : A) → r ≡ ok a → P (f a s).0 (f a s).1)
      → P (continue r f s).0 (continue r f s).1
  continue-post (ok a) s raised returned = returned a refl
  continue-post (err e) s raised returned = raised e refl

  -- What holds after a block holds where its first action raises, and after the rest where it returns.
  pub >>=-post :
      (m : Action E S A) (s : S)
      → ((e : E) → (m s).0 ≡ err e → P (err e) (m s).1)
      → ((a : A) → (m s).0 ≡ ok a → P (f a (m s).1).0 (f a (m s).1).1)
      → P ((m >>= f) s).0 ((m >>= f) s).1
  >>=-post m s = continue-post (m s).0 (m s).1
