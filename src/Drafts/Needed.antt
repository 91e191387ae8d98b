-- ===== src/Drafts/Needed.antt =====
-- The two loops of a resolution: the specifications that are required, and their inputs.
use rpsd_config.Common.{
  ℕ, ◌≡◌, ◌≢◌, refl, sym, ◌∙◌, ap, false, List, [], ◌∷◌, ◌++◌, ok, Result-cases, In, select,
  In-select, ◌==◌, ==_iff, arith, Bool-cases, inl, inr, ◌⊎◌,
}
use mathlib.Core.Path.{subst}
use rpsd_config.Models.{DatasetSpecification, ProfileInput, ProfileIndicator, Profile}
use rpsd_config.Revisions.{Issue}
use rpsd_config.Dependencies.Graph.{member}
use rpsd_config.Dependencies.Catalogue.{Catalogue}
use rpsd_config.Dependencies.Closure.{IndicatorClosure, resolve_indicator_closure}
use rpsd_config.Drafts.Inputs.{
  serves, add_id, add_ids, Required, with_issue, with_closure, require_inputs, Mandatory,
  choose_input, choose_inputs,
}

pub add_id-In : (k : ℕ) (ids : List ℕ) (x : ℕ) → (x ≡ k) ⊎ In x ids → In x (add_id k ids)
unfolding add_id
add_id-In k [] x h = elim h [ inl e ↦ inl e | inr m ↦ absurd m ]
add_id-In k (j ∷ js) x h = ground (arith, h, add_id-In k js x)

pub add_ids-In :
    (specs : List DatasetSpecification) (ids : List ℕ) (x : ℕ)
    → In x ids ⊎ ((s : DatasetSpecification) × In s specs × (x ≡ s.pk))
    → In x (add_ids specs ids)
unfolding add_ids
add_ids-In [] ids x h = elim h [ inl m ↦ m | inr (s, m, _) ↦ absurd m ]
add_ids-In (t ∷ specs) ids x h = elim h [
  | inl m ↦ add_ids-In specs (add_id t.pk ids) x (inl (add_id-In t.pk ids x (inr m)))
  | inr (s, m, e) ↦ elim m [
    | inl same ↦
        add_ids-In specs (add_id t.pk ids) x
          (inl (add_id-In t.pk ids x (inl (e ∙ ap (λ (y : DatasetSpecification). y.pk) same))))
    | inr q ↦ add_ids-In specs (add_id t.pk ids) x (inr (s, q, e))
  ]
]

pub append-ne-nil : {A : Type 0} (xs : List A) (x : A) → (xs ++ x ∷ []) ≢ []
append-ne-nil [] x e = cc
append-ne-nil (y ∷ xs) x e = cc

pub nil-of-append : {A : Type 0} (xs ys : List A) → xs ++ ys ≡ [] → (xs ≡ []) × (ys ≡ [])
nil-of-append [] ys e = (refl, e)
nil-of-append (x ∷ xs) ys e = cc

-- The closure of one chosen indicator, all of whose specifications are required.
abbrev pub IsRequired : Catalogue → ProfileIndicator → List ℕ → Type 0
IsRequired cat link ids =
    (c : IndicatorClosure) × (resolve_indicator_closure cat (link.indicator_version.pk ∷ []) false
      ≡ ok c)
    × ((s : DatasetSpecification) → In s c.specifications → In s.pk ids)

abbrev pub Keeps : Catalogue → List ProfileIndicator → Required → Required → Type 0
Keeps cat links r r' =
    (r.issues ≡ [])
    × ((k : ℕ) → In k r.specification_ids → In k r'.specification_ids)
    × ((link : ProfileIndicator) → In link links → IsRequired cat link r'.specification_ids)

pub require_step :
    (cat : Catalogue) (profile : Profile) (link : ProfileIndicator) (links : List ProfileIndicator)
    (logical : List ℕ) (r : Required) {r' : Required}
    → require_inputs cat profile (link ∷ links) logical r ≡ ok r'
    → ((issue : Issue) × (require_inputs cat profile links logical (with_issue issue r) ≡ ok r'))
      ⊎ ((c : IndicatorClosure) × (resolve_indicator_closure cat
              (link.indicator_version.pk ∷ [])
              false
            ≡ ok c)
          × (require_inputs cat profile links
                (link.indicator_version.indicator.pk ∷ logical)
                (with_closure c r)
              ≡ ok r'))
unfolding require_inputs
require_step cat profile link links logical r e =
    elim (Bool-cases (link.processing_profile_version_id == profile.pk)) [
      | inr h ↦ inl (_, rw (h, require_inputs) at e)
      | inl h ↦
          let e1 = rw (h, require_inputs) at e in
          elim (Bool-cases (member link.indicator_version.indicator.pk logical)) [
            | inl m ↦ inl (_, rw (m, require_inputs) at e1)
            | inr m ↦
                let e2 = rw (m, require_inputs) at e1 in
                elim (Result-cases
                  (resolve_indicator_closure cat (link.indicator_version.pk ∷ []) false)) [
                    | inr (x, q) ↦ absurd (let e3 = rw (q, require_inputs) at e2 in cc)
                    | inl (c, q) ↦ let e3 = rw (q, require_inputs) at e2 in inr (c, q, e3)
                  ]
          ]
    ]

pub require_inputs-Keeps :
    (cat : Catalogue) (profile : Profile) (links : List ProfileIndicator) (logical : List ℕ)
    (r : Required) {r' : Required}
    → require_inputs cat profile links logical r ≡ ok r'
    → r'.issues ≡ []
    → Keeps cat links r r'
unfolding require_inputs
require_inputs-Keeps cat profile [] logical r {r'} e none_left =
    let same : r ≡ r' = ground (arith, e) in
    subst (λ (q : Required). Keeps cat [] r q) same
      (ap (λ (q : Required). q.issues) same ∙ none_left, λ k m. m, λ l m. absurd m)
require_inputs-Keeps cat profile (link ∷ links) logical r {r'} e none_left =
    elim (require_step cat profile link links logical r e) [
      | inl (issue, q) ↦ absurd (
          append-ne-nil r.issues issue
            (require_inputs-Keeps cat profile links logical (with_issue issue r) q none_left).0)
      | inr (c, found, q) ↦
          let (quiet, kept, all) =
            require_inputs-Keeps cat profile links (link.indicator_version.indicator.pk ∷ logical)
              (with_closure c r) q none_left in
          (
            quiet,
            λ k m. kept k (add_ids-In c.specifications r.specification_ids k (inl m)),
            λ l m. elim m [
              | inl same ↦
                  subst (λ (x : ProfileIndicator). IsRequired cat x r'.specification_ids) (sym same)
                    (
                      c,
                      found,
                      λ s ms. kept s.pk (
                          add_ids-In c.specifications r.specification_ids s.pk (inr (s, ms, refl))),
                    )
              | inr old ↦ all l old
            ],
          )
    ]

-- The second loop, when it has no issue.
pub choose_step :
    (candidates : List ProfileInput) (m : Mandatory)
    → (choose_input candidates m).issues ≡ []
    → (m.issues ≡ [])
      × ((i : ProfileInput) × In i candidates × ((choose_input candidates m).inputs ≡ i ∷ m.inputs))
choose_step [] m e = cc
choose_step (i ∷ []) m e = (e, (i, inl refl, refl))
choose_step (i ∷ j ∷ is) m e = cc

pub choose_inputs_lem :
    (inputs : List ProfileInput) (ids : List ℕ)
    → (choose_inputs inputs ids).issues ≡ []
    → ((k : ℕ)
        → In k ids
        → (i : ProfileInput) × In i (choose_inputs inputs ids).inputs × (serves i ≡ k))
      × ((i : ProfileInput) → In i (choose_inputs inputs ids).inputs → In i inputs)
unfolding choose_inputs
choose_inputs_lem inputs [] e = (λ k m. absurd m, λ i m. absurd m)
choose_inputs_lem inputs (k ∷ ids) e =
    let before = choose_inputs inputs ids in
    let (quiet, (i, m, put)) = choose_step (select (λ x. serves x == k) inputs) before e in
    let (all, part) = choose_inputs_lem inputs ids quiet in
    let (present, right) = In-select (λ x. serves x == k) inputs i m in
    (
      λ j mj. elim mj [
        | inl same ↦ (i, rw put (inl refl), (==_iff (serves i) k).0 right ∙ sym same)
        | inr old ↦ let (x, mx, ex) = all j old in (x, rw put (inr mx), ex)
      ],
      λ x mx. elim (rw put at mx) [
        | inl same ↦ subst (λ (y : ProfileInput). In y inputs) (sym same) present
        | inr old ↦ part x old
      ],
    )
