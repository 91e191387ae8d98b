-- ===== src/Profiles/Coverage.antt =====
-- What the coverage of inputs ensures.
use rpsd_config.Common.{
  ℕ, ◌≡◌, refl, sym, ◌∙◌, ap, true, not, ◌&&◌, List, [], ◌∷◌, ok, Result-cases, map, In, select,
  In-select, exists_row, not-exists_row, put_row, put_row-new, In-put_row, ◌==◌, arith, Bool-cases,
  inl, inr, ◌⊎◌,
}
use mathlib.Core.Path.{subst}
use rpsd_config.Models.{DatasetSpecification, IndicatorVersion, ProfileInput, Profile}
use rpsd_config.Dependencies.Catalogue.{Catalogue, required_dataset_specifications}
use rpsd_config.Dependencies.Closure.Required.{Has, Needs, Needs-Has}
use rpsd_config.Profiles.{
  add_required, required_of, supplied, is_only, check_supply, validate_profile_input_coverage,
}

-- What the loops over required specifications keep: the keys that were put.
pub add_required-Has :
    (specs old : List DatasetSpecification) (k : ℕ) {new : List DatasetSpecification}
    → add_required specs old ≡ ok new
    → Has old k ⊎ Has specs k
    → Has new k
unfolding add_required
add_required-Has [] old k {new} e h =
    let same : old ≡ new = ground (arith, e) in
    elim h [
      | inl q ↦ subst (λ (x : List DatasetSpecification). Has x k) same q
      | inr (s, m, _) ↦ absurd m
    ]
add_required-Has (spec ∷ specs) old k {new} e h =
    let clash =
      λ (s : DatasetSpecification). s.dataset.pk == spec.dataset.pk && not (s.pk == spec.pk) in
    let of_dataset = λ (s : DatasetSpecification). s.dataset.pk == spec.dataset.pk in
    elim (Bool-cases (exists_row clash old)) [
      | inl bad ↦ absurd (let e' = rw bad at e in cc)
      | inr free ↦
          let e' : add_required specs (put_row of_dataset spec old) ≡ ok new = rw free at e in
          elim h [
            | inl (s, m, f) ↦ elim (Bool-cases (of_dataset s)) [
              | inl hit ↦
                  let calm = not-exists_row clash old s free m in
                  let same : s.pk ≡ spec.pk = ground (arith, calm, hit) in
                  add_required-Has specs (put_row of_dataset spec old) k e'
                    (inl (spec, put_row-new of_dataset spec old, sym same ∙ f))
              | inr miss ↦
                  add_required-Has specs (put_row of_dataset spec old) k e'
                    (inl (s, In-put_row of_dataset spec old s m miss, f))
            ]
            | inr (s, m, f) ↦ elim m [
              | inl same ↦ add_required-Has specs (put_row of_dataset spec old) k e' (
                  inl (
                    spec,
                    put_row-new of_dataset spec old,
                    sym (ap (λ (x : DatasetSpecification). x.pk) same) ∙ f,
                  ))
              | inr r ↦ add_required-Has specs (put_row of_dataset spec old) k e' (inr (s, r, f))
            ]
          ]
    ]

pub required_of-Has :
    (cat : Catalogue) (versions : List IndicatorVersion) (old : List DatasetSpecification) (k : ℕ)
    {new : List DatasetSpecification}
    → required_of cat versions old ≡ ok new
    → Has old k ⊎ ((v : IndicatorVersion) × In v versions × Needs cat v.pk k)
    → Has new k
unfolding required_of
required_of-Has cat [] old k {new} e h =
    let same : old ≡ new = ground (arith, e) in
    elim h [
      | inl q ↦ subst (λ (x : List DatasetSpecification). Has x k) same q
      | inr (v, m, _) ↦ absurd m
    ]
required_of-Has cat (v ∷ versions) old k {new} e h =
    elim (Result-cases (required_dataset_specifications cat v)) [
      | inr (x, q) ↦ absurd (let e' = rw q at e in cc)
      | inl (specs, q) ↦
          let e1 = rw q at e in
          elim (Result-cases (add_required specs old)) [
            | inr (x, r) ↦ absurd (let e2 = rw r at e1 in cc)
            | inl (mid, r) ↦
                let e2 : required_of cat versions mid ≡ ok new = rw r at e1 in
                required_of-Has cat versions mid k e2 (elim h [
                  | inl old_has ↦ inl (add_required-Has specs old k r (inl old_has))
                  | inr (w, m, n) ↦ elim m [
                    | inl same ↦ inl (
                        add_required-Has specs old k r (
                          inr (
                            Needs-Has cat v q
                              (subst (λ (x : IndicatorVersion). Needs cat x.pk k) same n))))
                    | inr later ↦ inr (w, later, n)
                  ]
                ])
          ]
    ]

pub map-In :
    (f : ProfileInput → ℕ) (links : List ProfileInput) (k : ℕ)
    → In k (map f links)
    → (i : ProfileInput) × In i links × (f i ≡ k)
map-In f [] k m = absurd m
map-In f (l ∷ links) k m = elim m [
  | inl e ↦ (l, inl refl, sym e)
  | inr r ↦ let (i, q, h) = map-In f links k r in (i, inr q, h)
]

pub is_only-In : (k : ℕ) (ks : List ℕ) → is_only k ks ≡ true → In k ks
is_only-In k [] e = cc
is_only-In k (j ∷ []) e = inl (ground (arith, e))
is_only-In k (j ∷ i ∷ ks) e = cc

-- Some input of the profile serves the specification.
abbrev pub IsServed : List ProfileInput → ℕ → Type 0
IsServed links k =
    (i : ProfileInput) × In i links × (i.input_flow_version.dataset_specification.pk ≡ k)

pub check_supply-IsServed :
    (links : List ProfileInput) (specs : List DatasetSpecification) (s : DatasetSpecification)
    → check_supply links specs ≡ ok tt
    → In s specs
    → IsServed links s.pk
unfolding check_supply
check_supply-IsServed links [] s e m = absurd m
check_supply-IsServed links (t ∷ specs) s e m =
    elim (Bool-cases (is_only t.pk (supplied links t.dataset.pk))) [
      | inr no_input ↦ absurd (let e' = rw no_input at e in cc)
      | inl only ↦ elim m [
        | inr r ↦ check_supply-IsServed links specs s (rw only at e) r
        | inl same ↦
            let of_dataset = λ (l : ProfileInput). l.dataset.pk == t.dataset.pk in
            let (i, q, h) =
              map-In (λ l. l.input_flow_version.dataset_specification.pk) (select of_dataset links)
                t.pk (is_only-In t.pk (supplied links t.dataset.pk) only) in
            (
              i,
              (In-select of_dataset links i q).0,
              h ∙ sym (ap (λ (x : DatasetSpecification). x.pk) same),
            )
      ]
    ]

pub coverage-IsServed :
    (cat : Catalogue) (profile : Profile) (versions : List IndicatorVersion) (v : IndicatorVersion)
    (k : ℕ)
    → validate_profile_input_coverage cat profile versions ≡ ok tt
    → In v versions
    → Needs cat v.pk k
    → IsServed profile.input_flow_links k
unfolding validate_profile_input_coverage
coverage-IsServed cat profile versions v k e m n =
    elim (Result-cases (required_of cat versions [])) [
      | inr (x, q) ↦ absurd (let e' = rw q at e in cc)
      | inl (required, q) ↦
          let e' : check_supply profile.input_flow_links required ≡ ok tt = rw q at e in
          let (s, ms, h) = required_of-Has cat versions [] k q (inr (v, m, n)) in
          let (i, mi, f) = check_supply-IsServed profile.input_flow_links required s e' ms in
          (i, mi, f ∙ h)
    ]
