-- ===== src/Common/Rows.antt =====
-- A database table is a list of rows. A queryset's `filter`, `exists`, `get`, `count` and `update`
-- are these functions of a Boolean test on a row.
use Prim.Native.Nat.{ℕ, suc}
use mathlib.Core.Path.{◌≡◌, refl}
use mathlib.Core.Logic.{◌↔◌, ◌⊎◌, inl, inr}
use mathlib.Core.Bool.{Bool, true, false, ◌||◌}
use mathlib.Core.Option.{Option, none, some}
use mathlib.Core.List.{List, [], ◌∷◌, ◌++◌}
use native.Mathlib.Omega.{arith}
use rpsd_config.Common.Tests.{if◌then◌else◌, Bool-cases}

-- Membership by recursion, which computes to a disjunction of equations. (A row is a value of a
-- small type, and so is this disjunction.)
abbrev pub In : {A : Type 0} → A → List A → Type 0
In a [] = ⊥
In a (x ∷ xs) = (a ≡ x) ⊎ In a xs

-- The predicate at every row.
abbrev pub All {ℓ κ} : {A : Type ℓ} → (A → Type κ) → List A → Type κ
All P [] = Unit
All P (x ∷ xs) = P x × All P xs

module _ {ℓ} {A : Type ℓ} where
  abbrev pub select : (A → Bool) → List A → List A
  select p [] = []
  select p (x ∷ xs) = let rest = select p xs in if p x then x ∷ rest else rest

  abbrev pub exists_row : (A → Bool) → List A → Bool
  exists_row p [] = false
  exists_row p (x ∷ xs) = p x || exists_row p xs

  -- `.filter(…).first()` of a query that at most one row answers
  abbrev pub find : (A → Bool) → List A → Option A
  find p [] = none
  find p (x ∷ xs) = if p x then some x else find p xs

  abbrev pub count : (A → Bool) → List A → ℕ
  count p [] = 0
  count p (x ∷ xs) = let rest = count p xs in if p x then suc rest else rest

  -- `.filter(p).update(…)`
  abbrev pub update_rows : (A → Bool) → (A → A) → List A → List A
  update_rows p f [] = []
  update_rows p f (x ∷ xs) = (if p x then f x else x) ∷ update_rows p f xs

module _ {A : Type 0} where
  pub In-select : (p : A → Bool) (xs : List A) (x : A) → In x (select p xs) → In x xs × (p x ≡ true)
  In-select p [] x m = absurd m
  In-select p (y ∷ xs) x m = ground (arith, In-select p xs x)

  pub select-In : (p : A → Bool) (xs : List A) (x : A) → In x xs → p x ≡ true → In x (select p xs)
  select-In p [] x m h = absurd m
  select-In p (y ∷ xs) x m h = ground (arith, select-In p xs x)

  pub find-In : (p : A → Bool) (xs : List A) {x : A} → find p xs ≡ some x → In x xs × (p x ≡ true)
  find-In p [] e = cc
  find-In p (y ∷ xs) {x} e = ground (arith, find-In p xs {x = x})

  pub find-eq-none : (p : A → Bool) (xs : List A) (x : A) → find p xs ≡ none → In x xs → p x ≡ false
  find-eq-none p [] x e m = absurd m
  find-eq-none p (y ∷ xs) x e m = ground (arith, find-eq-none p xs x)

  pub exists_row-In :
      (p : A → Bool) (xs : List A) → exists_row p xs ≡ true → (x : A) × In x xs × (p x ≡ true)
  exists_row-In p [] e = cc
  exists_row-In p (y ∷ xs) e = elim (Bool-cases (p y)) [
    | inl h ↦ (y, inl refl, h)
    | inr h ↦ let (x, m, q) = exists_row-In p xs (ground arith) in (x, inr m, q)
  ]

  pub not-exists_row :
      (p : A → Bool) (xs : List A) (x : A) → exists_row p xs ≡ false → In x xs → p x ≡ false
  not-exists_row p [] x e m = absurd m
  not-exists_row p (y ∷ xs) x e m = ground (arith, not-exists_row p xs x)

  pub All-In {κ} : (P : A → Type κ) (xs : List A) (x : A) → All P xs → In x xs → P x
  All-In P [] x h m = absurd m
  All-In P (y ∷ xs) x h m = elim m [ inl e ↦ rw e h.0 | inr m' ↦ All-In P xs x h.1 m' ]

  pub In-update_rows :
      (p : A → Bool) (f : A → A) (xs : List A) (x : A)
      → In x (update_rows p f xs)
      → (y : A) × In y xs × (x ≡ (if p y then f y else y))
  In-update_rows p f [] x m = absurd m
  In-update_rows p f (y ∷ xs) x m = elim m [
    | inl e ↦ (y, inl refl, e)
    | inr m' ↦ let (z, q, e) = In-update_rows p f xs x m' in (z, inr q, e)
  ]

  pub update_rows-In :
      (p : A → Bool) (f : A → A) (xs : List A) (y : A)
      → In y xs
      → In (if p y then f y else y) (update_rows p f xs)
  update_rows-In p f [] y m = absurd m
  update_rows-In p f (x ∷ xs) y m = elim m [
    | inl e ↦ inl (rw e)
    | inr m' ↦ inr (update_rows-In p f xs y m')
  ]

  pub In-append : (xs ys : List A) (x : A) → In x (xs ++ ys) ↔ (In x xs ⊎ In x ys)
  In-append [] ys x = (inr, λ m. elim m [ inl h ↦ absurd h | inr h ↦ h ])
  In-append (y ∷ xs) ys x = ground (arith, In-append xs ys x)

-- An update of rows that the query does not return, before or after, does not change its result.
pub select-update_rows :
    {A : Type 0} (q p : A → Bool) (f : A → A) (xs : List A)
    → ((x : A) → In x xs → p x ≡ true → (q x ≡ false) × (q (f x) ≡ false))
    → select q (update_rows p f xs) ≡ select q xs
select-update_rows q p f [] h = refl
select-update_rows q p f (x ∷ xs) h =
    ground (arith, h x (inl refl), select-update_rows q p f xs (λ y m. h y (inr m)))

-- A row that an update does not take out of a query is found updated.
pub find-update_rows :
    {A : Type 0} (p : A → Bool) (f : A → A) (xs : List A) (x : A)
    → ((y : A) → p y ≡ true → p (f y) ≡ true)
    → find p xs ≡ some x
    → find p (update_rows p f xs) ≡ some (f x)
find-update_rows p f [] x keeps e = cc
find-update_rows p f (y ∷ xs) x keeps e = elim (Bool-cases (p y)) [
  | inl h ↦ ground (arith, h, keeps y h)
  | inr h ↦ ground (arith, h, find-update_rows p f xs x keeps)
]

pub In-exists_row :
    {A : Type 0} (p : A → Bool) (xs : List A) (x : A)
    → In x xs
    → p x ≡ true
    → exists_row p xs ≡ true
In-exists_row p [] x m h = absurd m
In-exists_row p (y ∷ xs) x m h = ground (arith, In-exists_row p xs x)

pub select-append :
    {A : Type 0} (p : A → Bool) (xs ys : List A) → select p (xs ++ ys) ≡ select p xs ++ select p ys
select-append p [] ys = refl
select-append p (x ∷ xs) ys = ground (arith, select-append p xs ys)

-- An update of other rows does not change what a query finds.
pub find-update_others :
    {A : Type 0} (q p : A → Bool) (f : A → A) (xs : List A)
    → ((x : A) → p x ≡ true → (q x ≡ false) × (q (f x) ≡ false))
    → find q (update_rows p f xs) ≡ find q xs
find-update_others q p f [] h = refl
find-update_others q p f (x ∷ xs) h = ground (arith, h x, find-update_others q p f xs h)

pub find-append_other :
    {A : Type 0} (q : A → Bool) (xs : List A) (x : A)
    → q x ≡ false
    → find q (xs ++ x ∷ []) ≡ find q xs
find-append_other q [] x h = rw h refl
find-append_other q (y ∷ xs) x h = ground (arith, find-append_other q xs x h)

pub find-append_new :
    {A : Type 0} (q : A → Bool) (xs : List A) (x : A)
    → q x ≡ true
    → find q xs ≡ none
    → find q (xs ++ x ∷ []) ≡ some x
find-append_new q [] x h e = rw h refl
find-append_new q (y ∷ xs) x h e = ground (arith, find-append_new q xs x h)
