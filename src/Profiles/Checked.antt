-- ===== src/Profiles/Checked.antt =====
-- What the validation of a profile ensures.
use rpsd_config.Common.{
  ℕ, ◌≡◌, true, false, [], ok, Result-cases, is_nil, In, sort_by, sort_by-In, arith, inl, inr,
}
use rpsd_config.Models.{is_published, IndicatorVersion, ProfileInput, ProfileIndicator, Profile}
use rpsd_config.Dependencies.Catalogue.{Catalogue}
use rpsd_config.Dependencies.Closure.{IndicatorClosure, resolve_indicator_closure}
use rpsd_config.Dependencies.Closure.Required.{Needs}
use rpsd_config.Profiles.{
  check_input_links, check_indicator_links, validate_profile_input_coverage, version_ids,
  validate_processing_profile_for_publication,
}
use rpsd_config.Profiles.Coverage.{IsServed, coverage-IsServed}
use rpsd_config.Profiles.Links.{
  IsUsableInput, check_input_links-All, IsUsableVersion, check_indicator_links-All,
}

-- A profile that can be published.
pub record IsPublishable (cat : Catalogue) (profile : Profile) : Type 0 where
  pub flow : is_published profile.orchestration_flow_version.status ≡ true
  pub some_input : is_nil profile.input_flow_links ≡ false
  pub inputs : (i : ProfileInput) → In i profile.input_flow_links → IsUsableInput i
  pub some_indicator : is_nil profile.indicator_version_links ≡ false
  pub indicators : (l : ProfileIndicator) → In l profile.indicator_version_links → IsUsableVersion l
  pub one_version :
      (a b : ProfileIndicator)
      → In a profile.indicator_version_links
      → In b profile.indicator_version_links
      → a.indicator_version.indicator.pk ≡ b.indicator_version.indicator.pk
      → a ≡ b
  pub served :
      (c : IndicatorClosure) × (resolve_indicator_closure cat (version_ids profile) false ≡ ok c)
      × ((v : IndicatorVersion) (k : ℕ)
          → In v c.versions
          → Needs cat v.pk k
          → IsServed profile.input_flow_links k)

validate_step :
    (cat : Catalogue) (profile : Profile)
    → validate_processing_profile_for_publication cat profile ≡ ok tt
    → (is_published profile.orchestration_flow_version.status ≡ true)
      × (is_nil profile.input_flow_links ≡ false)
      × (check_input_links
            (sort_by (λ a b. cat.precedes a.dataset.code b.dataset.code) profile.input_flow_links)
          ≡ ok tt)
      × (is_nil profile.indicator_version_links ≡ false)
      × (check_indicator_links profile.indicator_version_links [] ≡ ok tt)
      × ((c : IndicatorClosure) × (resolve_indicator_closure cat (version_ids profile) false ≡ ok c)
          × (validate_profile_input_coverage cat profile c.versions ≡ ok tt))
unfolding validate_processing_profile_for_publication
validate_step cat profile e =
    let sorted =
      sort_by (λ (a b : ProfileInput). cat.precedes a.dataset.code b.dataset.code)
        profile.input_flow_links in
    elim (Result-cases (check_input_links sorted)) [
      | inr (x, h) ↦ absurd (ground (arith, e, h))
      | inl (done, h) ↦
          elim (Result-cases (check_indicator_links profile.indicator_version_links [])) [
            | inr (x, g) ↦ absurd (ground (arith, e, h, g))
            | inl (done, g) ↦
                elim (Result-cases (resolve_indicator_closure cat (version_ids profile) false)) [
                  | inr (x, q) ↦ absurd (ground (arith, e, h, g, q))
                  | inl (c, q) ↦ (
                    ground (arith, e),
                    ground (arith, e),
                    h,
                    ground (arith, e, h),
                    g,
                    (c, q, ground (arith, e, h, g, q)),
                  )
                ]
          ]
    ]

pub validate_profile-IsPublishable :
    (cat : Catalogue) (profile : Profile)
    → validate_processing_profile_for_publication cat profile ≡ ok tt
    → IsPublishable cat profile
validate_profile-IsPublishable cat profile e =
    let (flow, some_input, inputs, some_indicator, indicators, (c, q, covered)) =
      validate_step cat profile e in
    let (usable, unique) =
      check_indicator_links-All profile.indicator_version_links [] indicators in
    record {
      flow = flow;
      some_input = some_input;
      inputs = λ i m. check_input_links-All _ i inputs (
          (sort_by-In (λ (a b : ProfileInput). cat.precedes a.dataset.code b.dataset.code)
              profile.input_flow_links i).1
            m);
      some_indicator = some_indicator;
      indicators = λ l m. (usable l m).0;
      one_version = unique;
      served = (c, q, λ v k m n. coverage-IsServed cat profile c.versions v k covered m n);
    }
