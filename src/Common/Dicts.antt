-- ===== src/Common/Dicts.antt =====
-- Dictionaries as the lists of their values, and sorted lists.
use mathlib.Core.Path.{◌≡◌, refl}
use mathlib.Core.Logic.{◌↔◌, ◌⊎◌, inl, inr}
use mathlib.Core.Bool.{Bool, false}
use mathlib.Core.List.{List, [], ◌∷◌}
use native.Mathlib.Omega.{arith}
use rpsd_config.Common.Tests.{if◌then◌else◌, Bool-cases}
use rpsd_config.Common.Rows.{In}

module _ {ℓ} {A : Type ℓ} where
  -- `d[k] = x`, where `p` holds at the values under `k`: an old value is replaced in its place.
  unfoldable pub put_row : (A → Bool) → A → List A → List A
  put_row p x [] = x ∷ []
  put_row p x (y ∷ ys) = if p y then x ∷ ys else y ∷ put_row p x ys

  -- `sorted` and `order_by`, which are stable.
  unfoldable pub insert_by : (A → A → Bool) → A → List A → List A
  insert_by before x [] = x ∷ []
  insert_by before x (y ∷ ys) = if before y x then y ∷ insert_by before x ys else x ∷ y ∷ ys

  unfoldable pub sort_by : (A → A → Bool) → List A → List A
  unfolding insert_by
  sort_by before [] = []
  sort_by before (x ∷ xs) = insert_by before x (sort_by before xs)

module _ {A : Type 0} where
  pub put_row-In :
      (p : A → Bool) (v : A) (xs : List A) (x : A) → In x (put_row p v xs) → (x ≡ v) ⊎ In x xs
  unfolding put_row
  put_row-In p v [] x m = elim m [ inl e ↦ inl e | inr r ↦ absurd r ]
  put_row-In p v (y ∷ ys) x m = ground (arith, put_row-In p v ys x)

  pub put_row-new : (p : A → Bool) (v : A) (xs : List A) → In v (put_row p v xs)
  unfolding put_row
  put_row-new p v [] = inl refl
  put_row-new p v (y ∷ ys) = elim (Bool-cases (p y)) [
    | inl e ↦ rw e (inl refl)
    | inr e ↦ rw e (inr (put_row-new p v ys))
  ]

  pub In-put_row :
      (p : A → Bool) (v : A) (xs : List A) (x : A) → In x xs → p x ≡ false → In x (put_row p v xs)
  unfolding put_row
  In-put_row p v [] x m h = absurd m
  In-put_row p v (y ∷ ys) x m h = ground (arith, In-put_row p v ys x)

  insert_by-In :
      (before : A → A → Bool) (y : A) (xs : List A) (x : A)
      → In x (insert_by before y xs) ↔ ((x ≡ y) ⊎ In x xs)
  unfolding insert_by
  insert_by-In before y [] x = (λ m. m, λ m. m)
  insert_by-In before y (z ∷ xs) x = ground (arith, insert_by-In before y xs x)

  pub sort_by-In :
      (before : A → A → Bool) (xs : List A) (x : A) → In x (sort_by before xs) ↔ In x xs
  unfolding sort_by
  sort_by-In before [] x = (λ m. m, λ m. m)
  sort_by-In before (y ∷ xs) x =
      ground (arith, insert_by-In before y (sort_by before xs) x, sort_by-In before xs x)
