-- ===== src/Dependencies/Closure/Conflicts.antt =====
-- A closure has one version of an indicator and one specification of a dataset, and the specifications
-- of all required inputs.
use rpsd_config.Common.{
  ℕ, String, ◌≡◌, sym, Bool, false, not, ◌&&◌, List, ok, In, not-exists_row, sort_by-In, put_row,
  put_row-In, put_row-new, In-put_row, ◌==◌, ==_iff, arith, Bool-cases, inl, inr,
}
use mathlib.Core.Path.{subst}
use rpsd_config.Json.Canonical.{text_lt}
use rpsd_config.Models.{IndicatorVersion, DatasetSpecification}
use rpsd_config.Dependencies.Catalogue.{Catalogue}
use rpsd_config.Dependencies.Closure.Steps.{
  arrive-eq-ok, arrive-checked, resolve_step, visit_roots_inv,
}
use rpsd_config.Dependencies.Closure.{
  State, empty_state, IndicatorClosure, is_other_version, arrive, finish, roots_of, enough,
  resolve_indicator_closure,
}
use rpsd_config.Dependencies.Closure.Required.{
  Has, IsOneEach, add_specifications_lem, Needs, Needs-Has,
}

-- One version of every indicator is recorded.
abbrev IsLogical : List (ℕ × ℕ) → Type 0
IsLogical logical = (a b : ℕ × ℕ) → In a logical → In b logical → a.0 ≡ b.0 → a.1 ≡ b.1

-- The invariant of the visits.
record IsClosed (cat : Catalogue) (versions : List IndicatorVersion) (logical : List (ℕ × ℕ))
    (specs : List DatasetSpecification) : Type 0 where
  logical_ok : IsLogical logical
  recorded : (v : IndicatorVersion) → In v versions → In (v.indicator.pk, v.pk) logical
  specs_ok : IsOneEach specs
  supplied : (v : IndicatorVersion) (k : ℕ) → In v versions → Needs cat v.pk k → Has specs k

abbrev of_indicator : ℕ → ℕ × ℕ → Bool
of_indicator i e = e.0 == i

known_version :
    (version : IndicatorVersion) (logical : List (ℕ × ℕ)) (e : ℕ × ℕ)
    → is_other_version version logical ≡ false
    → In e logical
    → e.0 ≡ version.indicator.pk
    → e.1 ≡ version.pk
unfolding is_other_version
known_version version logical e free m same =
    let h =
      not-exists_row (λ x. x.0 == version.indicator.pk && not (x.1 == version.pk)) logical e free
        m in
    ground (arith, h)

put-IsLogical :
    (version : IndicatorVersion) (logical : List (ℕ × ℕ))
    → is_other_version version logical ≡ false
    → IsLogical logical
    → IsLogical
        (put_row (of_indicator version.indicator.pk) (version.indicator.pk, version.pk) logical)
put-IsLogical version logical free ok' a b ma mb e =
    let new : ℕ × ℕ = (version.indicator.pk, version.pk) in
    let split = λ (x : ℕ × ℕ) (m : In x (put_row (of_indicator version.indicator.pk) new logical)).
      put_row-In (of_indicator version.indicator.pk) new logical x m in
    elim (split a ma) [
      | inl ea ↦ elim (split b mb) [
        | inl eb ↦ ground (arith, ea, eb)
        | inr pb ↦ ground (arith, ea, known_version version logical b free pb)
      ]
      | inr pa ↦ elim (split b mb) [
        | inl eb ↦ ground (arith, eb, known_version version logical a free pa)
        | inr pb ↦ ok' a b pa pb e
      ]
    ]

put-recorded :
    (version : IndicatorVersion) (logical : List (ℕ × ℕ)) (e : ℕ × ℕ)
    → is_other_version version logical ≡ false
    → In e logical
    → In e (put_row (of_indicator version.indicator.pk) (version.indicator.pk, version.pk) logical)
put-recorded version logical e free m = elim (Bool-cases (e.0 == version.indicator.pk)) [
  | inl h ↦
      let new : ℕ × ℕ = (version.indicator.pk, version.pk) in
      let own : e.0 ≡ version.indicator.pk = (==_iff e.0 version.indicator.pk).0 h in
      let same : e ≡ new = ground (arith, own, known_version version logical e free m own) in
      subst (λ (x : ℕ × ℕ). In x (put_row (of_indicator version.indicator.pk) new logical))
        (sym same) (put_row-new (of_indicator version.indicator.pk) new logical)
  | inr h ↦
      In-put_row (of_indicator version.indicator.pk) (version.indicator.pk, version.pk) logical e m
        h
]

abbrev Inv : Catalogue → State → Type 0
Inv cat st = IsClosed cat st.versions st.logical st.specs

arrive-Inv :
    (cat : Catalogue) (allow_drafts : Bool) (active : List ℕ) (path : List String)
    (version : IndicatorVersion) (st st' : State)
    → arrive cat allow_drafts active version path st ≡ ok st'
    → Inv cat st
    → Inv cat st'
arrive-Inv cat allow_drafts active path version st st' e inv =
    let (_, put) = arrive-eq-ok cat allow_drafts active path version st e in
    let (required, r, added, free, log) =
      arrive-checked cat allow_drafts active path version st e in
    let (one, keeps) = add_specifications_lem required st.specs added in
    let split = λ (v : IndicatorVersion) (m : In v st'.versions).
      put_row-In (λ (x : IndicatorVersion). x.pk == version.pk) version st.versions v
        (subst (λ (rows : List IndicatorVersion). In v rows) put m) in
    record {
      logical_ok = subst IsLogical (sym log) (put-IsLogical version st.logical free inv.logical_ok);
      recorded = λ v m.
          subst (λ (l : List (ℕ × ℕ)). In (v.indicator.pk, v.pk) l) (sym log)
            (elim (split v m) [
              | inl same ↦
                  subst
                    (λ (x : IndicatorVersion).
                      In (x.indicator.pk, x.pk)
                        (put_row (of_indicator version.indicator.pk)
                          (version.indicator.pk, version.pk) st.logical))
                    (sym same)
                    (put_row-new (of_indicator version.indicator.pk)
                      (version.indicator.pk, version.pk) st.logical)
              | inr old ↦
                  put-recorded version st.logical (v.indicator.pk, v.pk) free (inv.recorded v old)
            ]);
      specs_ok = one inv.specs_ok;
      supplied = λ v k m n. keeps k (elim (split v m) [
        | inl same ↦
            inr
              (Needs-Has cat version r (subst (λ (x : IndicatorVersion). Needs cat x.pk k) same n))
        | inr old ↦ inl (inv.supplied v k old n)
      ]);
    }

-- What a closure promises to a calculation: one version of every indicator, one specification of every
-- dataset, and a specification for each need of each version.
pub record IsConsistentClosure (cat : Catalogue) (c : IndicatorClosure) : Type 0 where
  pub one_version :
      (v w : IndicatorVersion)
      → In v c.versions
      → In w c.versions
      → v.indicator.pk ≡ w.indicator.pk
      → v.pk ≡ w.pk
  pub one_specification :
      (s t : DatasetSpecification)
      → In s c.specifications
      → In t c.specifications
      → s.dataset.code ≡ t.dataset.code
      → s.pk ≡ t.pk
  pub supplied :
      (v : IndicatorVersion) (k : ℕ) → In v c.versions → Needs cat v.pk k → Has c.specifications k

-- A closure that is returned has at most one version of an indicator, at most one specification of a
-- dataset, and every specification that a version of it needs by an input or by a rule.
pub resolve_closure-IsConsistentClosure :
    (cat : Catalogue) (root_ids : List ℕ) (allow_drafts : Bool) (c : IndicatorClosure)
    → resolve_indicator_closure cat root_ids allow_drafts ≡ ok c
    → IsConsistentClosure cat c
unfolding finish
resolve_closure-IsConsistentClosure cat root_ids allow_drafts c e =
    let (st, visited, _, put, specs) = resolve_step cat root_ids allow_drafts e in
    let empty : Inv cat empty_state = record {
      logical_ok = λ a b m. absurd m;
      recorded = λ v m. absurd m;
      specs_ok = λ s t m. absurd m;
      supplied = λ v k m. absurd m;
    } in
    let inv =
      visit_roots_inv cat allow_drafts (Inv cat) (arrive-Inv cat allow_drafts) (λ l s p. p)
        (λ v s p. p) (enough cat) (roots_of cat root_ids) empty_state visited empty in
    let seen = λ (v : IndicatorVersion) (m : In v c.versions).
      (sort_by-In (λ (a b : IndicatorVersion). text_lt a.code b.code) st.versions v).0
        (subst (λ (rows : List IndicatorVersion). In v rows) put m) in
    let given = λ (s : DatasetSpecification).
      sort_by-In (λ (a b : DatasetSpecification). text_lt a.code b.code) st.specs s in
    record {
      one_version = λ v w mv mw same.
          inv.logical_ok (v.indicator.pk, v.pk) (w.indicator.pk, w.pk) (inv.recorded v (seen v mv))
            (inv.recorded w (seen w mw)) same;
      one_specification = λ s t ms mt same.
          inv.specs_ok s t
            ((given s).0 (subst (λ (rows : List DatasetSpecification). In s rows) specs ms))
            ((given t).0 (subst (λ (rows : List DatasetSpecification). In t rows) specs mt)) same;
      supplied = λ v k m n.
          let (s, q, f) = inv.supplied v k (seen v m) n in
          (
            s,
            subst (λ (rows : List DatasetSpecification). In s rows) (sym specs) ((given s).1 q),
            f,
          );
    }
