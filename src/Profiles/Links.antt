-- ===== src/Profiles/Links.antt =====
-- What the checks of the inputs and indicators of a profile ensure.
use rpsd_config.Common.{
  ℕ, ◌≡◌, ◌≢◌, sym, ◌∙◌, ap, true, false, List, [], ◌∷◌, ok, Result-cases, In, arith, inl, inr,
}
use mathlib.Core.Path.{subst}
use rpsd_config.Models.{is_published, is_active, ProfileInput, ProfileIndicator}
use rpsd_config.Dependencies.Graph.{member}
use rpsd_config.Profiles.{check_input_link, check_input_links, check_indicator_links}

-- An input of a published profile.
pub record IsUsableInput (link : ProfileInput) : Type 0 where
  pub of_dataset : link.dataset.pk ≡ link.input_flow_version.dataset_specification.dataset.pk
  pub active : is_active link.dataset.status ≡ true
  pub flow : is_published link.input_flow_version.status ≡ true
  pub specification : is_published link.input_flow_version.dataset_specification.status ≡ true

pub check_input_link-IsUsableInput :
    (link : ProfileInput) → check_input_link link ≡ ok tt → IsUsableInput link
unfolding check_input_link
check_input_link-IsUsableInput link e = ground (arith, e)

pub check_input_links-All :
    (links : List ProfileInput) (link : ProfileInput)
    → check_input_links links ≡ ok tt
    → In link links
    → IsUsableInput link
unfolding check_input_links
check_input_links-All [] link e m = absurd m
check_input_links-All (l ∷ links) link e m = elim (Result-cases (check_input_link l)) [
  | inr (x, h) ↦ absurd (let e' = rw h at e in cc)
  | inl (done, h) ↦ elim m [
    | inl same ↦ subst IsUsableInput (sym same) (check_input_link-IsUsableInput l h)
    | inr r ↦ check_input_links-All links link (rw h at e) r
  ]
]

pub record IsUsableVersion (link : ProfileIndicator) : Type 0 where
  pub published : is_published link.indicator_version.status ≡ true
  pub active : is_active link.indicator_version.indicator.status ≡ true

abbrev pub indicator_of : ProfileIndicator → ℕ
indicator_of link = link.indicator_version.indicator.pk

pub indicator_step :
    (l : ProfileIndicator) (links : List ProfileIndicator) (logical : List ℕ)
    → check_indicator_links (l ∷ links) logical ≡ ok tt
    → (member (indicator_of l) logical ≡ false)
      × IsUsableVersion l
      × (check_indicator_links links (indicator_of l ∷ logical) ≡ ok tt)
unfolding check_indicator_links
indicator_step l links logical e = (ground (arith, e), ground (arith, e), ground (arith, e))

pub member-cons :
    (k j : ℕ) (logical : List ℕ)
    → member k (j ∷ logical) ≡ false
    → (k ≢ j) × (member k logical ≡ false)
member-cons k j logical e = (λ q. ground (arith, e, q), ground (arith, e))

-- Every link is usable, of an indicator that was not seen before and that no other link has.
pub check_indicator_links-All :
    (links : List ProfileIndicator) (logical : List ℕ)
    → check_indicator_links links logical ≡ ok tt
    → ((l : ProfileIndicator)
        → In l links
        → IsUsableVersion l × (member (indicator_of l) logical ≡ false))
      × ((a b : ProfileIndicator)
          → In a links
          → In b links
          → indicator_of a ≡ indicator_of b
          → a ≡ b)
unfolding check_indicator_links
check_indicator_links-All [] logical e = (λ l m. absurd m, λ a b m. absurd m)
check_indicator_links-All (l ∷ links) logical e =
    let (new, usable, rest) = indicator_step l links logical e in
    let (all, unique) = check_indicator_links-All links (indicator_of l ∷ logical) rest in
    let apart = λ (x : ProfileIndicator) (m : In x links).
      (member-cons (indicator_of x) (indicator_of l) logical (all x m).1).0 in
    (
      λ x m. elim m [
        | inl same ↦
            subst
              (λ (y : ProfileIndicator).
                IsUsableVersion y × (member (indicator_of y) logical ≡ false))
              (sym same) (usable, new)
        | inr r ↦
            let (u, h) = all x r in (u, (member-cons (indicator_of x) (indicator_of l) logical h).1)
      ],
      λ a b ma mb e. elim ma [
        | inl pa ↦ elim mb [
          | inl pb ↦ pa ∙ sym pb
          | inr qb ↦ absurd (apart b qb (sym e ∙ ap indicator_of pa))
        ]
        | inr qa ↦ elim mb [
          | inl pb ↦ absurd (apart a qa (e ∙ ap indicator_of pb))
          | inr qb ↦ unique a b qa qb e
        ]
      ],
    )
