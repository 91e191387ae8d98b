-- ===== src/Profiles/Published.antt =====
-- What a transition does to the stored profiles.
use rpsd_config.Common.{
  ℕ, ◌≡◌, sym, ◌∙◌, ap, true, Option, some, List, ok, Result-cases, Option-cases, In,
  In-update_rows, find, find-In, ◌==◌, ==_iff, arith, Bool-cases, inl, inr, ◌⊎◌,
}
use mathlib.Core.Path.{subst}
use rpsd_config.Models.{
  CatalogStatus, draft, published, deprecated, withdrawn, is_published, Profile,
}
use rpsd_config.Dependencies.Catalogue.{Catalogue}
use rpsd_config.Profiles.{
  is_allowed, ProfileTables, check_publication, check_transition, with_status, write_transition,
  transition_processing_profile, is_clean_profile,
}
use rpsd_config.Profiles.Checked.{IsPublishable, validate_profile-IsPublishable}

abbrev pub HasUniqueKeys : List Profile → Type 0
HasUniqueKeys rows = (p q : Profile) → In p rows → In q rows → p.pk ≡ q.pk → p ≡ q

-- A row after a transition to `target`: its composition is the old one, and the transition is allowed.
pub record IsTransition (cat : Catalogue) (now : ℕ) (target : CatalogStatus) (actor_id : Option ℕ)
    (p q : Profile) : Type 0 where
  pub row : q ≡ with_status now target actor_id p
  pub allowed : is_allowed p.status target ≡ true
  pub publishable : is_published target ≡ true → IsPublishable cat p

transition_step :
    (cat : Catalogue) (profile : Profile) (target : CatalogStatus) (tables : ProfileTables)
    (locked : Profile)
    → check_transition cat profile target tables ≡ ok locked
    → (find (λ p. p.pk == profile.pk) tables.profiles ≡ some locked)
      × (is_allowed locked.status target ≡ true)
      × (check_publication cat target locked ≡ ok tt)
unfolding check_transition
transition_step cat profile target tables locked e =
    elim (Option-cases (find (λ p. p.pk == profile.pk) tables.profiles)) [
      | inl h ↦ absurd (ground (arith, e, h))
      | inr (p, h) ↦ elim (Bool-cases (is_allowed p.status target)) [
        | inr bad ↦ absurd (ground (arith, e, h, bad))
        | inl allowed ↦ elim (Result-cases (check_publication cat target p)) [
          | inr (x, c) ↦ absurd (ground (arith, e, h, allowed, c))
          | inl (done, c) ↦
              let same : p ≡ locked = ground (arith, e, h, allowed, c) in
              (
                h ∙ ap some same,
                subst (λ (q : Profile). is_allowed q.status target ≡ true) same allowed,
                subst (λ (q : Profile). check_publication cat target q ≡ ok tt) same c,
              )
        ]
      ]
    ]

publication-IsPublishable :
    (cat : Catalogue) (target : CatalogStatus) (locked : Profile)
    → check_publication cat target locked ≡ ok tt
    → is_published target ≡ true
    → IsPublishable cat locked
unfolding check_publication
publication-IsPublishable cat published locked e h =
    validate_profile-IsPublishable cat locked (elim (Bool-cases (is_clean_profile locked)) [
      | inl clean ↦ ground (arith, e, clean)
      | inr bad ↦ absurd (ground (arith, e, bad))
    ])
publication-IsPublishable cat draft locked e h = cc
publication-IsPublishable cat deprecated locked e h = cc
publication-IsPublishable cat withdrawn locked e h = cc

-- Whatever transition is called, every profile that is stored afterwards was stored as it is, or it is
-- a stored profile after an allowed transition to the target, with its composition as it was; and then
-- a published one had passed the validation: its flow, inputs and indicators are published and active,
-- it has one version of an indicator, and an input for every need of every version of the closure of
-- its indicators. Keys are unique.
pub transition_processing_profile-Changes :
    (cat : Catalogue) (now : ℕ) (profile : Profile) (target : CatalogStatus) (actor_id : Option ℕ)
    (tables : ProfileTables) (q : Profile)
    → HasUniqueKeys tables.profiles
    → In q (transition_processing_profile cat now profile target actor_id tables).1.profiles
    → In q tables.profiles
      ⊎ ((p : Profile) × In p tables.profiles × IsTransition cat now target actor_id p q)
unfolding transition_processing_profile write_transition
transition_processing_profile-Changes cat now profile target actor_id tables q unique m =
    elim (Result-cases (check_transition cat profile target tables)) [
      | inr (x, e) ↦ inl (rw e at m)
      | inl (locked, e) ↦
          let (found, allowed, checked) = transition_step cat profile target tables locked e in
          let (stored, _) = find-In (λ p. p.pk == profile.pk) tables.profiles found in
          let hit = λ (p : Profile). p.pk == locked.pk in
          let (p, mp, row) =
            In-update_rows hit (with_status now target actor_id) tables.profiles q (rw e at m) in
          elim (Bool-cases (hit p)) [
            | inr miss ↦
                let same : q ≡ p = rw miss at row in
                inl (subst (λ (r : Profile). In r tables.profiles) (sym same) mp)
            | inl chosen ↦
                let same : p ≡ locked =
                  unique p locked mp stored ((==_iff p.pk locked.pk).0 chosen) in
                let changed : q ≡ with_status now target actor_id p = rw chosen at row in
                inr (
                  p,
                  mp,
                  record {
                    row = changed;
                    allowed =
                        subst (λ (r : Profile). is_allowed r.status target ≡ true) (sym same)
                          allowed;
                    publishable = λ h.
                        subst (IsPublishable cat) (sym same)
                          (publication-IsPublishable cat target locked checked h);
                  },
                )
          ]
    ]
