-- ===== src/Tests/Revisions.antt =====
-- Resolution by date on two approved revisions of the sample contract.
use rpsd_config.Common.{
  ℕ, ◌≤◌, ◌<◌, ◌≡◌, refl, sym, ◌∙◌, true, some, List, [], ◌∷◌, In, inl, inr, ◌⊎◌, Result, ok, arith,
}
use rpsd_config.Models
use rpsd_config.Models.{Revision, is_active_today}
use rpsd_config.Revisions.{
  candidate, successor, later, current_revision, next_revision, resolve_current_contract_revision,
  revision_effective_period, revision_temporal_state, active,
}
use rpsd_config.Revisions.Periods.{HasUniqueDates, active-resolve, resolve-active, periods_disjoint}
use rpsd_config.Tests.Samples.{contract, first, revision_of, stored_snapshot}

abbrev follower : Revision
follower = revision_of 2 2 200 Models.RevisionRows.approved stored_snapshot

abbrev both : List Revision
both = first ∷ follower ∷ []

both_cases : (x : Revision) → In x both → (x ≡ first) ⊎ (x ≡ follower)
both_cases x (inl e) = inl e
both_cases x (inr (inl e)) = inr e
both_cases x (inr (inr m)) = absurd m

both-HasUniqueDates : HasUniqueDates both
both-HasUniqueDates x y mx my ax ay own d = elim (both_cases x mx) [
  | inl e ↦ elim (both_cases y my) [ inl f ↦ e ∙ sym f | inr f ↦ absurd (ground (arith, e, f, d)) ]
  | inr e ↦ elim (both_cases y my) [ inl f ↦ absurd (ground (arith, e, f, d)) | inr f ↦ e ∙ sym f ]
]

effective : is_active_today contract 250 ≡ true
unfolding is_active_today
effective = refl

resolved : resolve_current_contract_revision 250 both contract ≡ ok follower
unfolding resolve_current_contract_revision is_active_today current_revision candidate
    rpsd_config.Common.first_by later
resolved = refl

follower_active : revision_temporal_state 250 both contract follower ≡ ok active
unfolding revision_temporal_state revision_effective_period next_revision successor
    rpsd_config.Common.first_by later
follower_active = refl

-- The first revision ends the day before the second one starts, the second with the contract.
periods :
    (revision_effective_period both contract first ≡ ok (100, some 199))
    × (revision_effective_period both contract follower ≡ ok (200, some 500))
unfolding revision_effective_period next_revision successor rpsd_config.Common.first_by later
periods = (refl, refl)

active-resolve_example : resolve_current_contract_revision 250 both contract ≡ ok follower
active-resolve_example =
    active-resolve 250 both contract follower both-HasUniqueDates effective (inr (inl refl)) refl
      follower_active

resolve-active_example : revision_temporal_state 250 both contract follower ≡ ok active
resolve-active_example = resolve-active 250 both contract follower resolved

periods_disjoint_example :
    (t : ℕ) × (revision_effective_period both contract first ≡ ok (100, some t))
    × (100 ≤ t)
    × (t < 200)
periods_disjoint_example =
    periods_disjoint both contract first follower 100 200 (inr (inl refl)) refl refl refl refl refl
      (omega arith)
