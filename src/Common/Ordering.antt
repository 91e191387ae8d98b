-- ===== src/Common/Ordering.antt =====
-- `order_by(…).first()`: the row that no other row precedes.
use mathlib.Core.Path.{◌≡◌, refl}
use mathlib.Core.Logic.{◌⊎◌, inl, inr}
use mathlib.Core.Bool.{Bool, true, false}
use mathlib.Core.Option.{Option, none, some}
use mathlib.Core.List.{List, [], ◌∷◌}
use native.Mathlib.Omega.{arith}
use rpsd_config.Common.Tests.{if◌then◌else◌, Bool-cases, Option-cases}
use rpsd_config.Common.Rows.{In}

-- A strict weak order, as the comparison of sort keys is.
pub record IsSortOrder {ℓ} {A : Type ℓ} (before : A → A → Bool) : Type ℓ where
  pub asymm : (x y : A) → before x y ≡ true → before y x ≡ false
  pub cotrans : (x y z : A) → before x y ≡ false → before y z ≡ false → before x z ≡ false

module _ {ℓ} {A : Type ℓ} where
  abbrev pub first_of_two : (A → A → Bool) → A → Option A → A
  first_of_two before x none = x
  first_of_two before x (some y) = if before y x then y else x

  -- The first row in the order of `before`; the table's order decides between equal keys.
  unfoldable pub first_by : (A → A → Bool) → List A → Option A
  first_by before [] = none
  first_by before (x ∷ xs) = some (first_of_two before x (first_by before xs))

  pub first_by-eq-none : (before : A → A → Bool) (xs : List A) → first_by before xs ≡ none → xs ≡ []
  unfolding first_by
  first_by-eq-none before [] e = refl
  first_by-eq-none before (x ∷ xs) e = cc

module _ {A : Type 0} (before : A → A → Bool) where
  pub first_by-In : (xs : List A) {x : A} → first_by before xs ≡ some x → In x xs
  unfolding first_by
  first_by-In [] e = cc
  first_by-In (y ∷ xs) {x} e = elim (Option-cases (first_by before xs)) [
    | inl h ↦ ground (arith, h)
    | inr (z, h) ↦ ground (arith, first_by-In xs h)
  ]

  module _ (order : IsSortOrder before) where
    before_irrefl : (x : A) → before x x ≡ false
    before_irrefl x = ground (arith, order.asymm x x)

    least_of_two :
        (y w z : A)
        → (z ≡ y) ⊎ (before z w ≡ false)
        → before z (first_of_two before y (some w)) ≡ false
    least_of_two y w z h = elim (Bool-cases (before w y)) [
      | inl e ↦ elim h [ inl q ↦ rw e (rw q (order.asymm w y e)) | inr q ↦ rw e q ]
      | inr e ↦ elim h [
        | inl q ↦ rw e (rw q (before_irrefl y))
        | inr q ↦ rw e (order.cotrans z w y q e)
      ]
    ]

    -- No row of the table precedes the row that is found.
    pub first_by-least :
        (xs : List A) {x : A} (z : A) → first_by before xs ≡ some x → In z xs → before z x ≡ false
    unfolding first_by
    first_by-least [] z e m = absurd m
    first_by-least (y ∷ xs) {x} z e m = elim (Option-cases (first_by before xs)) [
      | inl h ↦ ground (arith, h, before_irrefl y, first_by-eq-none before xs h)
      | inr (w, h) ↦ ground (arith, h, least_of_two y w z, first_by-least xs z h)
    ]
