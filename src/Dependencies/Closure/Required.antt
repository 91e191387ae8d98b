-- ===== src/Dependencies/Closure/Required.antt =====
-- The specifications that the versions of a closure require.
use rpsd_config.Common.{
  ℕ, ◌≡◌, refl, sym, ◌∙◌, ap, Bool, true, false, not, ◌&&◌, List, [], ◌∷◌, ok, Result-cases, In,
  not-exists_row, select-In, sort_by, sort_by-In, put_row, put_row-In, put_row-new, In-put_row,
  ◌==◌, ==_iff, str_eq, eq_iff, arith, Bool-cases, inl, inr, ◌⊎◌,
}
use mathlib.Core.Path.{subst}
use rpsd_config.Json.Canonical.{text_lt}
use rpsd_config.Models.{IndicatorVersion, DatasetSpecification}
use rpsd_config.Dependencies.Catalogue.{
  Catalogue, DatasetInput, RuleBinding, bindings_of, inputs_of, specifications_of_inputs,
  specifications_of_bindings, conflicts_with, add_specifications, required_dataset_specifications,
}

-- A specification of the list has the key.
abbrev pub Has : List DatasetSpecification → ℕ → Type 0
Has specs k = (s : DatasetSpecification) × In s specs × (s.pk ≡ k)

abbrev pub IsOneEach : List DatasetSpecification → Type 0
IsOneEach specs =
    (s t : DatasetSpecification)
    → In s specs
    → In t specs
    → s.dataset.code ≡ t.dataset.code
    → s.pk ≡ t.pk

-- A value that is put keeps the keys, if what it replaces has its key.
put-Has :
    (p : DatasetSpecification → Bool) (spec : DatasetSpecification)
    (specs : List DatasetSpecification) (k : ℕ)
    → ((s : DatasetSpecification) → In s specs → p s ≡ true → s.pk ≡ spec.pk)
    → Has specs k
    → Has (put_row p spec specs) k
put-Has p spec specs k same (s, m, e) = elim (Bool-cases (p s)) [
  | inl h ↦ (spec, put_row-new p spec specs, sym (same s m h) ∙ e)
  | inr h ↦ (s, In-put_row p spec specs s m h, e)
]

no_conflict :
    (spec : DatasetSpecification) (specs : List DatasetSpecification) (s : DatasetSpecification)
    → conflicts_with spec specs ≡ false
    → In s specs
    → s.dataset.code ≡ spec.dataset.code
    → s.pk ≡ spec.pk
no_conflict spec specs s free m e =
    let h =
      not-exists_row (λ x. str_eq x.dataset.code spec.dataset.code && not (x.pk == spec.pk)) specs s
        free m in
    ground (arith, h, (eq_iff s.dataset.code spec.dataset.code).1 e)

abbrev by_category : DatasetSpecification → DatasetSpecification → Bool
by_category spec s = str_eq s.dataset.code spec.dataset.code

put-IsOneEach :
    (spec : DatasetSpecification) (specs : List DatasetSpecification)
    → conflicts_with spec specs ≡ false
    → IsOneEach specs
    → IsOneEach (put_row (by_category spec) spec specs)
put-IsOneEach spec specs free one s t ms mt e =
    elim (put_row-In (by_category spec) spec specs s ms) [
      | inl es ↦ elim (put_row-In (by_category spec) spec specs t mt) [
        | inl et ↦ ap (λ (x : DatasetSpecification). x.pk) (es ∙ sym et)
        | inr pt ↦
            ap (λ (x : DatasetSpecification). x.pk) es
            ∙ sym (
                no_conflict spec specs t free pt
                  (sym e ∙ ap (λ (x : DatasetSpecification). x.dataset.code) es))
      ]
      | inr ps ↦ elim (put_row-In (by_category spec) spec specs t mt) [
        | inl et ↦
            no_conflict spec specs s free ps
              (e ∙ ap (λ (x : DatasetSpecification). x.dataset.code) et)
            ∙ sym (ap (λ (x : DatasetSpecification). x.pk) et)
        | inr pt ↦ one s t ps pt e
      ]
    ]

-- What `add_specifications` does when it returns.
pub add_specifications_lem :
    (specs old : List DatasetSpecification) {new : List DatasetSpecification}
    → add_specifications specs old ≡ ok new
    → (IsOneEach old → IsOneEach new) × ((k : ℕ) → (Has old k ⊎ Has specs k) → Has new k)
unfolding add_specifications
add_specifications_lem [] old {new} e =
    let same : old ≡ new = ground (arith, e) in
    (
      subst IsOneEach same,
      λ k h. elim h [
        | inl q ↦ subst (λ (x : List DatasetSpecification). Has x k) same q
        | inr (s, m, _) ↦ absurd m
      ],
    )
add_specifications_lem (spec ∷ specs) old {new} e = elim (Bool-cases (conflicts_with spec old)) [
  | inl bad ↦ absurd (let e' = rw bad at e in cc)
  | inr free ↦
      let e' : add_specifications specs (put_row (by_category spec) spec old) ≡ ok new =
        rw free at e in
      let (one, keeps) = add_specifications_lem specs (put_row (by_category spec) spec old) e' in
      (
        λ o. one (put-IsOneEach spec old free o),
        λ k h. elim h [
          | inl q ↦ keeps k (
              inl (
                put-Has (by_category spec) spec old k
                  (λ s m t.
                    no_conflict spec old s free m ((eq_iff s.dataset.code spec.dataset.code).0 t))
                  q))
          | inr (s, m, f) ↦ elim m [
            | inl same ↦ keeps k (
                inl (
                  spec,
                  put_row-new (by_category spec) spec old,
                  sym (ap (λ (x : DatasetSpecification). x.pk) same) ∙ f,
                ))
            | inr r ↦ keeps k (inr (s, r, f))
          ]
        ],
      )
]

abbrev by_key : DatasetSpecification → DatasetSpecification → Bool
by_key spec s = s.pk == spec.pk

key-Has :
    (spec : DatasetSpecification) (specs : List DatasetSpecification) (k : ℕ)
    → Has specs k
    → Has (put_row (by_key spec) spec specs) k
key-Has spec specs k h = put-Has (by_key spec) spec specs k (λ s m t. (==_iff s.pk spec.pk).0 t) h

inputs-Has :
    (inputs : List DatasetInput) (specs : List DatasetSpecification) (k : ℕ)
    → Has specs k ⊎ ((i : DatasetInput) × In i inputs × (i.dataset_specification.pk ≡ k))
    → Has (specifications_of_inputs inputs specs) k
unfolding specifications_of_inputs
inputs-Has [] specs k h = elim h [ inl q ↦ q | inr (i, m, _) ↦ absurd m ]
inputs-Has (j ∷ inputs) specs k h =
    let spec = j.dataset_specification in
    let next = inputs-Has inputs (put_row (by_key spec) spec specs) k in
    elim h [
      | inl q ↦ next (inl (key-Has spec specs k q))
      | inr (i, m, e) ↦ elim m [
        | inl same ↦ next (
            inl (
              spec,
              put_row-new (by_key spec) spec specs,
              sym (ap (λ (x : DatasetInput). x.dataset_specification.pk) same) ∙ e,
            ))
        | inr r ↦ next (inr (i, r, e))
      ]
    ]

bindings-Has :
    (bindings : List RuleBinding) (specs : List DatasetSpecification) (k : ℕ)
    → Has specs k ⊎ ((b : RuleBinding) × In b bindings × (b.dataset_specification.pk ≡ k))
    → Has (specifications_of_bindings bindings specs) k
unfolding specifications_of_bindings
bindings-Has [] specs k h = elim h [ inl q ↦ q | inr (i, m, _) ↦ absurd m ]
bindings-Has (j ∷ bindings) specs k h =
    let spec = j.dataset_specification in
    let next = bindings-Has bindings (put_row (by_key spec) spec specs) k in
    elim h [
      | inl q ↦ next (inl (key-Has spec specs k q))
      | inr (b, m, e) ↦ elim m [
        | inl same ↦ next (
            inl (
              spec,
              put_row-new (by_key spec) spec specs,
              sym (ap (λ (x : RuleBinding). x.dataset_specification.pk) same) ∙ e,
            ))
        | inr r ↦ next (inr (b, r, e))
      ]
    ]

-- A version needs the specification: by an input, or by a rule.
pub data Needs (cat : Catalogue) (version_id : ℕ) : ℕ → Type 0 where
  by_input :
      (i : DatasetInput)
      → In i cat.dataset_inputs
      → i.indicator_version_id ≡ version_id
      → Needs cat version_id i.dataset_specification.pk
  by_rule :
      (b : RuleBinding)
      → In b cat.rule_bindings
      → b.indicator_version_id ≡ version_id
      → Needs cat version_id b.dataset_specification.pk

required-Has :
    (cat : Catalogue) (version : IndicatorVersion) (k : ℕ) {required : List DatasetSpecification}
    → required_dataset_specifications cat version ≡ ok required
    → Has
        (specifications_of_bindings
          (bindings_of cat version.pk)
          (specifications_of_inputs (inputs_of cat version.pk) []))
        k
    → Has required k
unfolding required_dataset_specifications
required-Has cat version k {required} e (s, m, f) =
    let specs =
      specifications_of_bindings (bindings_of cat version.pk)
        (specifications_of_inputs (inputs_of cat version.pk) []) in
    let sorted = sort_by (λ (a b : DatasetSpecification). text_lt a.code b.code) specs in
    elim (Result-cases (add_specifications specs [])) [
      | inr (x, h) ↦ absurd (ground (arith, e, h))
      | inl (c, h) ↦
          let same : sorted ≡ required = ground (arith, e, h) in
          (s, subst (In s) same ((sort_by-In (λ a b. text_lt a.code b.code) specs s).1 m), f)
    ]

-- What a version needs is required.
pub Needs-Has :
    (cat : Catalogue) (version : IndicatorVersion) {k : ℕ} {required : List DatasetSpecification}
    → required_dataset_specifications cat version ≡ ok required
    → Needs cat version.pk k
    → Has required k
Needs-Has cat version e (by_input i m own) = required-Has cat version i.dataset_specification.pk e (
    bindings-Has (bindings_of cat version.pk) _ i.dataset_specification.pk (
      inl (
        inputs-Has (inputs_of cat version.pk) [] i.dataset_specification.pk (
          inr (
            i,
            select-In _ cat.dataset_inputs i m ((==_iff i.indicator_version_id version.pk).1 own),
            refl,
          )))))
Needs-Has cat version e (by_rule b m own) = required-Has cat version b.dataset_specification.pk e (
    bindings-Has (bindings_of cat version.pk) _ b.dataset_specification.pk (
      inr (
        b,
        select-In _ cat.rule_bindings b m ((==_iff b.indicator_version_id version.pk).1 own),
        refl,
      )))
