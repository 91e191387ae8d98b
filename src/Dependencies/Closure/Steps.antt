-- ===== src/Dependencies/Closure/Steps.antt =====
-- What a call that returns has passed, step by step.
use rpsd_config.Common.{
  ℕ, zero, suc, String, ◌≡◌, Bool, false, List, [], ◌∷◌, ◌++◌, Result, ok, Result-cases, put_row,
  sort_by, ◌==◌, arith, inl, inr,
}
use mathlib.Core.Path.{subst, sym}
use rpsd_config.Json.Canonical.{text_lt}
use rpsd_config.Models.{IndicatorVersion, DatasetSpecification}
use rpsd_config.Dependencies.Catalogue.{
  Link, Catalogue, ClosureError, links_of, required_dataset_specifications, add_specifications,
}
use rpsd_config.Dependencies.Closure.{
  State, empty_state, enter, finish, IndicatorClosure, is_other_version, visit_links, arrive, visit,
  visit_roots, roots_of, enough, resolve_indicator_closure, add_edge,
}

pub links_step :
    (allow_drafts : Bool) (go : IndicatorVersion → State → Result ClosureError State) (l : Link)
    (links : List Link) (st : State) {st' : State}
    → visit_links allow_drafts go (l ∷ links) st ≡ ok st'
    → (s : State) × (go l.prerequisite (add_edge l st) ≡ ok s)
      × (visit_links allow_drafts go links s ≡ ok st')
unfolding visit_links
links_step allow_drafts go l links st e = elim (Result-cases (go l.prerequisite (add_edge l st))) [
  | inl (s, h) ↦ (s, h, ground (arith, e, h))
  | inr (x, h) ↦ absurd (ground (arith, e, h))
]

-- The state in which the loop of a visit starts.
pub arrive-eq-ok :
    (cat : Catalogue) (allow_drafts : Bool) (active : List ℕ) (path : List String)
    (version : IndicatorVersion) (st : State) {st' : State}
    → arrive cat allow_drafts active version path st ≡ ok st'
    → (st'.execution_order ≡ st.execution_order)
      × (st'.versions ≡ put_row (λ v. v.pk == version.pk) version st.versions)
unfolding arrive enter
arrive-eq-ok cat allow_drafts active path version st {st'} h = ground (arith, h)

pub visit_step :
    (cat : Catalogue) (allow_drafts : Bool) (fuel : ℕ) (active : List ℕ) (path : List String)
    (version : IndicatorVersion) (st : State) {st' : State}
    → visit cat allow_drafts (suc fuel) active path version st ≡ ok st'
    → (s1 : State) × (s2 : State) × (arrive cat allow_drafts active version path st ≡ ok s1)
      × (visit_links allow_drafts
            (λ v. visit cat allow_drafts fuel (version.pk ∷ active) (path ++ v.code ∷ []) v)
            (links_of cat version.pk)
            s1
          ≡ ok s2)
      × (st' ≡ finish version s2)
unfolding visit
visit_step cat allow_drafts fuel active path version st {st'} e =
    elim (Result-cases (arrive cat allow_drafts active version path st)) [
      | inr (x, h) ↦ absurd (let e' = rw h at e in cc)
      | inl (s1, h) ↦
          let e' = rw h at e in
          elim (Result-cases (
            visit_links allow_drafts
              (λ v. visit cat allow_drafts fuel (version.pk ∷ active) (path ++ v.code ∷ []) v)
              (links_of cat version.pk) s1)) [
                | inr (x, k) ↦ absurd (let e2 = rw k at e' in cc)
                | inl (s2, k) ↦ let e2 = rw k at e' in (s1, s2, h, k, cc)
              ]
    ]

pub resolve_step :
    (cat : Catalogue) (root_ids : List ℕ) (allow_drafts : Bool) {c : IndicatorClosure}
    → resolve_indicator_closure cat root_ids allow_drafts ≡ ok c
    → (st : State) × (visit_roots cat allow_drafts (enough cat) (roots_of cat root_ids) empty_state
        ≡ ok st)
      × (c.execution_order ≡ st.execution_order)
      × (c.versions ≡ sort_by (λ a b. text_lt a.code b.code) st.versions)
      × (c.specifications ≡ sort_by (λ a b. text_lt a.code b.code) st.specs)
unfolding resolve_indicator_closure
resolve_step cat root_ids allow_drafts e =
    elim (Result-cases
      (visit_roots cat allow_drafts (enough cat) (roots_of cat root_ids) empty_state)) [
        | inr (x, h) ↦ absurd (let e' = rw h at e in cc)
        | inl (st, h) ↦
            let e' = rw h at e in
            (st, h, ground (arith, e'), ground (arith, e'), ground (arith, e'))
      ]

-- What an arrival has found, besides.
pub arrive-checked :
    (cat : Catalogue) (allow_drafts : Bool) (active : List ℕ) (path : List String)
    (version : IndicatorVersion) (st : State) {st' : State}
    → arrive cat allow_drafts active version path st ≡ ok st'
    → (required : List DatasetSpecification) × (required_dataset_specifications cat version
        ≡ ok required)
      × (add_specifications required st.specs ≡ ok st'.specs)
      × (is_other_version version st.logical ≡ false)
      × (st'.logical
          ≡ put_row
              (λ e. e.0 == version.indicator.pk)
              (version.indicator.pk, version.pk)
              st.logical)
unfolding arrive enter
arrive-checked cat allow_drafts active path version st {st'} h =
    elim (Result-cases (required_dataset_specifications cat version)) [
      | inr (x, r) ↦ absurd (ground (arith, h, r))
      | inl (required, r) ↦ elim (Result-cases (add_specifications required st.specs)) [
        | inr (x, a) ↦ absurd (ground (arith, h, r, a))
        | inl (specs, a) ↦
            let same : st'.specs ≡ specs = ground (arith, h, r, a) in
            (required, r, ground (arith, a, same), ground (arith, h), ground (arith, h, r, a))
      ]
    ]

-- An invariant that the parts of a visit keep is kept.
module _ (cat : Catalogue) (allow_drafts : Bool) (P : State → Type 0)
    (arriving : (active : List ℕ) (path : List String) (version : IndicatorVersion) (st st' : State)
      → arrive cat allow_drafts active version path st ≡ ok st'
      → P st
      → P st')
    (linking : (l : Link) (st : State) → P st → P (add_edge l st))
    (finishing : (version : IndicatorVersion) (st : State) → P st → P (finish version st)) where
  visit_links_inv :
      (go : IndicatorVersion → State → Result ClosureError State) (links : List Link) (st : State)
      {st' : State}
      → ((l : Link) (s s' : State) → go l.prerequisite s ≡ ok s' → P s → P s')
      → visit_links allow_drafts go links st ≡ ok st'
      → P st
      → P st'
  unfolding visit_links
  visit_links_inv go [] st {st'} h e p = let same : st ≡ st' = ground (arith, e) in subst P same p
  visit_links_inv go (l ∷ links) st h e p =
      let (s, e2, e3) = links_step allow_drafts go l links st e in
      visit_links_inv go links s h e3 (h l (add_edge l st) s e2 (linking l st p))

  visit_inv :
      (fuel : ℕ) (active : List ℕ) (path : List String) (version : IndicatorVersion) (st : State)
      {st' : State}
      → visit cat allow_drafts fuel active path version st ≡ ok st'
      → P st
      → P st'
  unfolding visit
  visit_inv zero active path version st e p = cc
  visit_inv (suc fuel) active path version st e p =
      let (s1, s2, arrived, looped, ended) =
        visit_step cat allow_drafts fuel active path version st e in
      subst P (sym ended) (
        finishing version s2 (
          visit_links_inv _ (links_of cat version.pk) s1
            (λ l s s' q r.
              visit_inv fuel (version.pk ∷ active) (path ++ l.prerequisite.code ∷ []) l.prerequisite
                s q r)
            looped (arriving active path version st s1 arrived p)))

  pub visit_roots_inv :
      (fuel : ℕ) (roots : List IndicatorVersion) (st : State) {st' : State}
      → visit_roots cat allow_drafts fuel roots st ≡ ok st'
      → P st
      → P st'
  unfolding visit_roots
  visit_roots_inv fuel [] st {st'} e p = let same : st ≡ st' = ground (arith, e) in subst P same p
  visit_roots_inv fuel (root ∷ roots) st e p =
      elim (Result-cases (visit cat allow_drafts fuel [] (root.code ∷ []) root st)) [
        | inr (x, h) ↦ absurd (let e' = rw h at e in cc)
        | inl (s, h) ↦
            let e' = rw h at e in
            visit_roots_inv fuel roots s e' (visit_inv fuel [] (root.code ∷ []) root st h p)
      ]
