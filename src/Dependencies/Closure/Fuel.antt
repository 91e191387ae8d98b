-- ===== src/Dependencies/Closure/Fuel.antt =====
-- The visits end before their fuel does.
use rpsd_config.Common.Results.{◌>>=◌, ◌>>◌}
use rpsd_config.Common.{
  ℕ, zero, suc, ◌+◌, ◌≤◌, ◌<◌, String, ◌≡◌, ◌≢◌, refl, Bool, true, false, not, List, [], ◌∷◌, ◌++◌,
  Result, ok, err, raise_if, length, In, count, put_row, str_eq, select, sort_by-In, ◌==◌, arith,
  Bool-cases, inl, inr,
}
use rpsd_config.Models.{IndicatorVersion, DatasetSpecification}
use rpsd_config.Dependencies.Graph.{member}
use rpsd_config.Dependencies.Catalogue.{
  Link, RuleBinding, DatasetInput, Catalogue, ClosureError, unpublished_prerequisite, out_of_fuel,
  links_of, validate_indicator_bindings, add_specifications, required_dataset_specifications,
  check_bindings, check_inputs, bindings_of, inputs_of, specifications_of_bindings,
  specifications_of_inputs,
}
use rpsd_config.Dependencies.Closure.{
  State, empty_state, visit_links, arrive, visit, visit_roots, roots_of, enough,
  resolve_indicator_closure, add_edge,
}

-- The links whose dependent version is not being visited.
abbrev free : List ℕ → List Link → ℕ
free active links = count (λ (l : Link). not (member l.dependent_id active)) links

abbrev of_version : ℕ → Link → Bool
of_version item l = l.dependent_id == item

same_member : (a b : ℕ) (active : List ℕ) → a ≡ b → member a active ≡ member b active
same_member a b active e = rw e

free-cons :
    (item : ℕ) (active : List ℕ) (links : List Link)
    → member item active ≡ false
    → free (item ∷ active) links + length (select (of_version item) links) ≡ free active links
free-cons item active [] h = omega arith
free-cons item active (l ∷ links) h =
    ground (arith, free-cons item active links h, same_member l.dependent_id item active)

free-le : (active : List ℕ) (links : List Link) → free active links ≤ length links
free-le active [] = omega arith
free-le active (l ∷ links) = ground (arith, free-le active links)

length-pos : {A : Type 0} (xs : List A) (x : A) → In x xs → 0 < length xs
length-pos [] x m = absurd m
length-pos (y ∷ xs) x m = omega arith

free-lt :
    (item : ℕ) (active : List ℕ) (links : List Link) (l : Link)
    → member item active ≡ false
    → In l (select (of_version item) links)
    → free (item ∷ active) links < free active links
free-lt item active links l h m =
    omega (arith, free-cons item active links h, length-pos (select (of_version item) links) l m)

-- The fuel of a call did not run out.
abbrev pub Ends : {A : Type 0} → Result ClosureError A → Type 0
Ends r = r ≢ err out_of_fuel

Ends-bind :
    {A B : Type 0} (m : Result ClosureError A) (f : A → Result ClosureError B)
    → Ends m
    → ((a : A) → m ≡ ok a → Ends (f a))
    → Ends (m >>= f)
Ends-bind (ok a) f h k = k a refl
Ends-bind (err e) f h k = λ q. h (ground (arith, q))

Ends-raise_if :
    {B : Type 0} (b : Bool) (e : ClosureError) (n : Result ClosureError B)
    → e ≢ out_of_fuel
    → (b ≡ false → Ends n)
    → Ends (raise_if b e >> n)
Ends-raise_if true e n ne h = λ q. ne (cc)
Ends-raise_if false e n ne h = h refl

check_bindings-Ends :
    (cat : Catalogue) (allow_drafts : Bool) (bindings : List RuleBinding)
    → Ends (check_bindings cat allow_drafts bindings)
unfolding check_bindings
check_bindings-Ends cat allow_drafts [] = λ q. cc
check_bindings-Ends cat allow_drafts (b ∷ bindings) =
    ground (arith, check_bindings-Ends cat allow_drafts bindings)

check_inputs-Ends :
    (cat : Catalogue) (allow_drafts : Bool) (inputs : List DatasetInput)
    → Ends (check_inputs cat allow_drafts inputs)
unfolding check_inputs
check_inputs-Ends cat allow_drafts [] = λ q. cc
check_inputs-Ends cat allow_drafts (i ∷ inputs) =
    ground (arith, check_inputs-Ends cat allow_drafts inputs)

add_specifications-Ends :
    (specs by_category : List DatasetSpecification) → Ends (add_specifications specs by_category)
unfolding add_specifications
add_specifications-Ends [] by_category = λ q. cc
add_specifications-Ends (s ∷ specs) by_category = ground (
  arith,
  add_specifications-Ends specs (put_row (λ x. str_eq x.dataset.code s.dataset.code) s by_category),
)

validate-Ends :
    (cat : Catalogue) (allow_drafts : Bool) (version : IndicatorVersion)
    → Ends (validate_indicator_bindings cat allow_drafts version)
unfolding validate_indicator_bindings
validate-Ends cat allow_drafts version = ground (
  arith,
  check_bindings-Ends cat allow_drafts (bindings_of cat version.pk),
  check_inputs-Ends cat allow_drafts (inputs_of cat version.pk),
)

required-Ends :
    (cat : Catalogue) (version : IndicatorVersion)
    → Ends (required_dataset_specifications cat version)
unfolding required_dataset_specifications
required-Ends cat version = ground (
  arith,
  add_specifications-Ends
      (specifications_of_bindings (bindings_of cat version.pk)
        (specifications_of_inputs (inputs_of cat version.pk) []))
      [],
)

arrive-Ends :
    (cat : Catalogue) (allow_drafts : Bool) (active : List ℕ) (path : List String)
    (version : IndicatorVersion) (st : State)
    → Ends (arrive cat allow_drafts active version path st)
unfolding arrive
arrive-Ends cat allow_drafts active path version st = search (
  Ends-raise_if,
  Ends-bind,
  validate-Ends cat allow_drafts version,
  required-Ends cat version,
  add_specifications-Ends,
  arith,
)

-- A visit that has arrived is not of an active version.
arrive-new :
    (cat : Catalogue) (allow_drafts : Bool) (active : List ℕ) (path : List String)
    (version : IndicatorVersion) (st : State) {st' : State}
    → arrive cat allow_drafts active version path st ≡ ok st'
    → member version.pk active ≡ false
unfolding arrive
arrive-new cat allow_drafts active path version st h =
    elim (Bool-cases (member version.pk active)) [ inl e ↦ let h' = rw e at h in cc | inr e ↦ e ]

visit_links-Ends :
    (allow_drafts : Bool) (go : IndicatorVersion → State → Result ClosureError State)
    (links : List Link) (st : State)
    → ((l : Link) (st : State) → In l links → Ends (go l.prerequisite st))
    → Ends (visit_links allow_drafts go links st)
unfolding visit_links
visit_links-Ends allow_drafts go [] st h = λ q. cc
visit_links-Ends allow_drafts go (l ∷ links) st h =
    Ends-raise_if _ unpublished_prerequisite _ (λ q. cc)
      λ _.
        Ends-bind _ _ (h l (add_edge l st) (inl refl))
          λ st' _. visit_links-Ends allow_drafts go links st' (λ k s m. h k s (inr m))

visit-Ends :
    (cat : Catalogue) (allow_drafts : Bool) (fuel : ℕ) (active : List ℕ) (path : List String)
    (version : IndicatorVersion) (st : State)
    → free active cat.links < fuel
    → Ends (visit cat allow_drafts fuel active path version st)
unfolding visit
visit-Ends cat allow_drafts zero active path version st h = absurd (omega arith)
visit-Ends cat allow_drafts (suc fuel) active path version st h =
    Ends-bind _ _ (arrive-Ends cat allow_drafts active path version st) λ st' e.
      Ends-bind _ _
        (visit_links-Ends allow_drafts _ (links_of cat version.pk) st' λ l s m.
          visit-Ends cat allow_drafts fuel (version.pk ∷ active) (path ++ l.prerequisite.code ∷ [])
            l.prerequisite s
            (let less =
                free-lt version.pk active cat.links l
                  (arrive-new cat allow_drafts active path version st e)
                  ((sort_by-In _ (select (of_version version.pk) cat.links) l).0 m) in
              omega arith))
        λ st'' _ q. cc

visit_roots-Ends :
    (cat : Catalogue) (allow_drafts : Bool) (roots : List IndicatorVersion) (st : State)
    → Ends (visit_roots cat allow_drafts (enough cat) roots st)
unfolding visit_roots
visit_roots-Ends cat allow_drafts [] st = λ q. cc
visit_roots-Ends cat allow_drafts (root ∷ roots) st =
    Ends-bind _ _
      (visit-Ends cat allow_drafts (enough cat) [] (root.code ∷ []) root st
        (omega (arith, free-le [] cat.links)))
      λ st' _. visit_roots-Ends cat allow_drafts roots st'

-- Whatever the links are, cycles included, the visits end: the fuel does not run out.
pub resolve_closure-Ends :
    (cat : Catalogue) (root_ids : List ℕ) (allow_drafts : Bool)
    → Ends (resolve_indicator_closure cat root_ids allow_drafts)
unfolding resolve_indicator_closure
resolve_closure-Ends cat root_ids allow_drafts =
    Ends-bind _ _ (visit_roots-Ends cat allow_drafts (roots_of cat root_ids) empty_state)
      λ st _ q. cc
