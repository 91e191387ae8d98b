-- ===== src/Invitations/Accepted.antt =====
-- What an acceptance does to the invitations and to the roles.
use rpsd_config.Common.{
  ℕ, String, ◌<◌, ◌≡◌, refl, true, false, Option, none, some, Result, ok, err, find, leb, str_eq,
  eq_iff, arith, Bool-cases, Option-cases, Result-cases, inl, inr, ◌⊎◌, is_nil,
}
use rpsd_config.Texts.{lower, is_empty}
use rpsd_config.Models.{AgencyMembership}
use rpsd_config.Memberships.Provider.{KeycloakAdminService}
use rpsd_config.Memberships.Enrolment.{DirectoryUser}
use rpsd_config.Memberships.Changes.{assign_agency_membership}
use rpsd_config.Memberships.Calls.{assignment, Implements}
use rpsd_config.Memberships.Refined.{assign-Implements}
use rpsd_config.Invitations.{Invitation, is_pending, invitation_issues, replace_row, as_expired}
use rpsd_config.Invitations.Accept.{
  AcceptError, Office, check_email, as_accepted, request_of, save_invitation, expire_if_over,
  assign_invited, accept_found, accept_agency_invitation_for_user,
}

-- The invitation is open, or it was sent to this email, whatever the case of its letters.
abbrev pub IsFor : Option String → String → Type 0
IsFor none user_email = Unit
IsFor (some email) user_email = (is_empty email ≡ true) ⊎ (lower user_email ≡ lower email)

-- What an acceptance that returns has done.
pub record IsAccepted {K : Type 0} (now : ℕ) (user : DirectoryUser) (i saved : Invitation)
    (m : AgencyMembership) (before after : Office K) : Type 0 where
  pub was_pending : is_pending i.status ≡ true
  pub was_open : now < i.expires_at
  pub is_for : IsFor i.email user.email
  pub is_accepted : saved ≡ as_accepted now user i
  pub stored : after.invitations ≡ replace_row saved before.invitations
  pub given :
      Implements
        (assignment now (request_of i user))
        before.world.memberships
        (ok m)
        after.world.memberships

-- A call that raises leaves the tables as they were.
abbrev pub Outcome :
    {K : Type 0}
    → ℕ
    → String
    → DirectoryUser
    → Office K
    → Result AcceptError (Invitation × AgencyMembership)
    → Office K
    → Type 0
Outcome now token user before (err e) after =
    (after.invitations ≡ before.invitations) × (after.world.memberships ≡ before.world.memberships)
Outcome now token user before (ok (saved, m)) after =
    (i : Invitation) × (find (λ x. str_eq x.token token) before.invitations ≡ some i)
    × IsAccepted now user i saved m before after

abbrev Found :
    {K : Type 0}
    → ℕ
    → DirectoryUser
    → Invitation
    → Office K
    → Result AcceptError (Invitation × AgencyMembership)
    → Office K
    → Type 0
Found now user i before (err e) after = Unit
Found now user i before (ok (saved, m)) after = IsAccepted now user i saved m before after

check_email-IsFor :
    (email : Option String) (user_email : String)
    → check_email email user_email ≡ ok tt
    → IsFor email user_email
unfolding check_email
check_email-IsFor none user_email h = tt
check_email-IsFor (some email) user_email h = elim (Bool-cases (is_empty email)) [
  | inl e ↦ inl e
  | inr e ↦ inr ((eq_iff (lower user_email) (lower email)).0 (ground (arith, e)))
]

module _ {K : Type 0} (kc : KeycloakAdminService K) (social_uid : ℕ → String) (root : String) where
  over-raises :
      (now : ℕ) (i : Invitation) (o : Office K)
      → leb i.expires_at now ≡ true
      → (e : AcceptError) × ((expire_if_over now i o).0 ≡ err e)
  unfolding expire_if_over save_invitation
  over-raises now i o q = elim (Bool-cases (is_nil (invitation_issues now (as_expired now i)))) [
    | inl c ↦ rw (q, expire_if_over) (rw c (_, refl))
    | inr c ↦ rw (q, expire_if_over) (rw c (_, refl))
  ]

  open-passes :
      (now : ℕ) (i : Invitation) (o : Office K)
      → leb i.expires_at now ≡ false
      → expire_if_over now i o ≡ (ok tt, o)
  unfolding expire_if_over
  open-passes now i o q = rw (q, expire_if_over) refl

  accept_found-Found :
      (now : ℕ) (i : Invitation) (user : DirectoryUser) (o : Office K)
      → Found now user i o
          (accept_found kc social_uid root now i user o).0
          (accept_found kc social_uid root now i user o).1
  unfolding accept_found assign_invited save_invitation
  accept_found-Found now i user o = elim (Bool-cases (is_pending i.status)) [
    | inr p ↦ rw (p, accept_found) tt
    | inl p ↦ elim (Bool-cases (leb i.expires_at now)) [
      | inl q ↦ let (e, raised) = over-raises now i o q in rw (p, accept_found) (rw raised tt)
      | inr q ↦
          let passes = open-passes now i o q in
          let after = assign_agency_membership kc social_uid root now (request_of i user) o.world in
          let issues = invitation_issues now (as_accepted now user i) in
          elim (Result-cases (check_email i.email user.email)) [
            | inr (e, c) ↦ rw (p, accept_found) (rw passes (rw c tt))
            | inl (tt, c) ↦ elim (Result-cases after.0) [
              | inr (e, d) ↦ rw (p, accept_found) (rw passes (rw c (rw d tt)))
              | inl (m, d) ↦ elim (Bool-cases (is_nil issues)) [
                | inr n ↦ rw (p, accept_found) (rw passes (rw c (rw d (rw n tt))))
                | inl n ↦
                    let given : Implements (assignment now (request_of i user)) o.world.memberships
                        (ok m) after.1.memberships =
                      rw d at
                        (assign-Implements kc social_uid root now (request_of i user) o.world) in
                    rw (p, accept_found)
                      (rw passes (
                        rw c (
                          rw d (
                            rw n (record {
                              was_pending = p;
                              was_open = ground arith;
                              is_for = check_email-IsFor i.email user.email c;
                              is_accepted = refl;
                              stored = refl;
                              given = given;
                            })))))
              ]
            ]
          ]
    ]
  ]

  -- An acceptance that returns is of a pending invitation with the token that is not over and was sent
  -- to the user or is open. It stores the invitation as accepted by the user, and in the table of roles
  -- it gives the user the higher one of the role of the invitation and the role that is stored. A call
  -- that raises leaves the invitations and the memberships as they were: also an invitation that is
  -- over stays pending.
  pub accept-IsAccepted :
      (now : ℕ) (token : String) (user : DirectoryUser) (o : Office K)
      → Outcome now token user o
          (accept_agency_invitation_for_user kc social_uid root now token user o).0
          (accept_agency_invitation_for_user kc social_uid root now token user o).1
  unfolding accept_agency_invitation_for_user
  accept-IsAccepted now token user o =
      elim (Option-cases (find (λ i. str_eq i.token token) o.invitations)) [
        | inl e ↦ rw (e, accept_agency_invitation_for_user) (refl, refl)
        | inr (i, e) ↦
            let found = accept_found-Found now i user o in
            elim (Result-cases (accept_found kc social_uid root now i user o).0) [
              | inr (raised, c) ↦ rw (e, accept_agency_invitation_for_user) (rw c (refl, refl))
              | inl ((saved, m), c) ↦
                  let done = rw c at found in
                  rw (e, accept_agency_invitation_for_user) (rw c (i, e, done))
            ]
      ]
