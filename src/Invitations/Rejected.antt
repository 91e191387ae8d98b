-- ===== src/Invitations/Rejected.antt =====
-- What a rejection does to the stored invitations.
use rpsd_config.Common.{
  ℕ, String, ◌≤◌, ◌<◌, ◌≡◌, refl, true, some, List, ok, In, find, find-In, update_rows-In, leb,
  ◌==◌, str_eq, eq_iff, arith, Bool-cases, Option-cases, Result-cases, inl, inr, is_nil,
}
use rpsd_config.Texts.{strip, lower}
use rpsd_config.Invitations.{
  Invitation, Account, is_pending, invitation_issues, validate_reject_actor_email, replace_row,
  as_expired, as_rejected, expire, check_rejection, reject_found, reject_agency_invitation_for_user,
}

-- What may become of an invitation in a call: nothing; a pending one that is over is expired; a
-- pending one that is not over is rejected by the user it was sent to.
pub data Changes (now : ℕ) (actor : Account) (x : Invitation) : Invitation → Type 0 where
  same : Changes now actor x x
  expires : is_pending x.status ≡ true → x.expires_at ≤ now → Changes now actor x (as_expired now x)
  rejects :
      (email : String)
      → is_pending x.status ≡ true
      → now < x.expires_at
      → x.email ≡ some email
      → lower (strip actor.email) ≡ lower email
      → Changes now actor x (as_rejected now actor x)

-- Replacing the row of a stored invitation changes that invitation alone.
replace_row-Changes :
    (now : ℕ) (actor : Account) (rows : List Invitation) (i saved x : Invitation)
    → ((a b : Invitation) → In a rows → In b rows → a.pk ≡ b.pk → a ≡ b)
    → In i rows
    → saved.pk ≡ i.pk
    → Changes now actor i saved
    → In x rows
    → (y : Invitation) × In y (replace_row saved rows) × Changes now actor x y
replace_row-Changes now actor rows i saved x unique mi key change mx =
    let hit = λ (o : Invitation). o.pk == saved.pk in
    let there = update_rows-In hit (λ _. saved) rows x mx in
    elim (Bool-cases (hit x)) [
      | inr p ↦ (x, rw p at there, same)
      | inl p ↦
          let one : i ≡ x = unique i x mi mx (ground (arith, key)) in
          (saved, rw p at there, rw (← one) change)
    ]

email_matches :
    (now : ℕ) (actor : Account) (i : Invitation)
    → check_rejection now actor i ≡ ok tt
    → (email : String) × (i.email ≡ some email) × (lower (strip actor.email) ≡ lower email)
unfolding check_rejection validate_reject_actor_email
email_matches now actor i h = elim (Option-cases i.email) [
  | inl e ↦ absurd (ground (arith, e))
  | inr (email, e) ↦
      (email, e, (eq_iff (lower (strip actor.email)) (lower email)).0 (ground (arith, e)))
]

reject_found-Changes :
    (now : ℕ) (actor : Account) (rows : List Invitation) (i x : Invitation)
    → ((a b : Invitation) → In a rows → In b rows → a.pk ≡ b.pk → a ≡ b)
    → In i rows
    → In x rows
    → (y : Invitation) × In y (reject_found now actor i rows).1 × Changes now actor x y
unfolding reject_found expire
reject_found-Changes now actor rows i x unique mi mx = elim (Bool-cases (is_pending i.status)) [
  | inr p ↦ rw p (x, mx, same)
  | inl p ↦ elim (Bool-cases (leb i.expires_at now)) [
    | inl q ↦ elim (Bool-cases (is_nil (invitation_issues now (as_expired now i)))) [
      | inr c ↦ rw p (rw q (rw c (x, mx, same)))
      | inl c ↦ rw p (
          rw q (
            rw c (
              replace_row-Changes now actor rows i (as_expired now i) x unique mi refl
                (expires p (ground arith)) mx)))
    ]
    | inr q ↦ elim (Result-cases (check_rejection now actor i)) [
      | inr (e, c) ↦ rw p (rw q (rw c (x, mx, same)))
      | inl (tt, c) ↦
          let (email, e, m) = email_matches now actor i c in
          rw p (
            rw q (
              rw c (
                replace_row-Changes now actor rows i (as_rejected now actor i) x unique mi refl
                  (rejects email p (ground arith) e m) mx)))
    ]
  ]
]

-- Whatever token and user a rejection is called with, every stored invitation is as it was, or it
-- was pending and over and is expired, or it was pending and not over and is rejected by the user it
-- was sent to, when primary keys are unique.
pub reject-Changes :
    (now : ℕ) (token : String) (actor : Account) (rows : List Invitation) (x : Invitation)
    → ((a b : Invitation) → In a rows → In b rows → a.pk ≡ b.pk → a ≡ b)
    → In x rows
    → (y : Invitation) × In y (reject_agency_invitation_for_user now token actor rows).1
      × Changes now actor x y
unfolding reject_agency_invitation_for_user
reject-Changes now token actor rows x unique mx =
    elim (Option-cases (find (λ i. str_eq i.token token) rows)) [
      | inl e ↦ rw (e, reject_agency_invitation_for_user) (x, mx, same)
      | inr (i, e) ↦
          rw (e, reject_agency_invitation_for_user)
            (reject_found-Changes now actor rows i x unique
              (find-In (λ (o : Invitation). str_eq o.token token) rows e).0 mx)
    ]
