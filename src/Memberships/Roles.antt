-- ===== src/Memberships/Roles.antt =====
-- The abstract view of the memberships, who has which role in which agency, and what the calls of
-- `Memberships.Changes` do to it.
use rpsd_config.Common.{
  ℕ, ◌≡◌, refl, true, false, ◌&&◌, Option, none, some, List, [], ◌∷◌, ◌++◌, exists_row, find,
  update_rows, find-update_others, find-append_other, find-append_new, ◌==◌, if◌then◌else◌, arith,
  Bool-cases, inl, inr,
}
use rpsd_config.Models.{AgencyRole, AgencyMembership, is_active_membership}
use rpsd_config.Memberships.{of_user}

-- Revoked memberships and those whose synchronisation failed give no role.
abbrev pub RoleTable : Type 0
RoleTable = ℕ → ℕ → Option AgencyRole

abbrev pub role_of : Option AgencyMembership → Option AgencyRole
role_of none = none
role_of (some m) = if is_active_membership m.status then some m.role else none

unfoldable pub holds : List AgencyMembership → RoleTable
holds rows agency_id user_id = role_of (find (of_user agency_id user_id) rows)

-- The role of one user in one agency is set, or taken away.
abbrev pub put_role : ℕ → ℕ → Option AgencyRole → RoleTable → RoleTable
put_role agency_id user_id role table a u =
    if a == agency_id && u == user_id then role else table a u

update-role :
    (agency_id user_id : ℕ) (f : AgencyMembership → AgencyMembership) (role : Option AgencyRole)
    (rows : List AgencyMembership)
    → ((y : AgencyMembership) → (f y).agency_id ≡ y.agency_id)
    → ((y : AgencyMembership) → (f y).user_id ≡ y.user_id)
    → ((y : AgencyMembership) → role_of (some (f y)) ≡ role)
    → exists_row (of_user agency_id user_id) rows ≡ true
    → role_of (find (of_user agency_id user_id) (update_rows (of_user agency_id user_id) f rows))
      ≡ role
update-role agency_id user_id f role [] a u r e = cc
update-role agency_id user_id f role (y ∷ rows) a u r e =
    elim (Bool-cases (of_user agency_id user_id y)) [
      | inl h ↦
          let h' : of_user agency_id user_id (f y) ≡ true = rw (a y) (rw (u y) h) in
          rw h (rw h' (r y))
      | inr h ↦
          let e' : exists_row (of_user agency_id user_id) rows ≡ true = rw h at e in
          rw h (rw h (update-role agency_id user_id f role rows a u r e'))
    ]

-- An update of the row of a user and an agency sets the role that the updated row gives.
pub update-put_role :
    (agency_id user_id : ℕ) (f : AgencyMembership → AgencyMembership) (role : Option AgencyRole)
    (rows : List AgencyMembership)
    → ((y : AgencyMembership) → (f y).agency_id ≡ y.agency_id)
    → ((y : AgencyMembership) → (f y).user_id ≡ y.user_id)
    → ((y : AgencyMembership) → role_of (some (f y)) ≡ role)
    → exists_row (of_user agency_id user_id) rows ≡ true
    → (a u : ℕ)
    → holds (update_rows (of_user agency_id user_id) f rows) a u
      ≡ put_role agency_id user_id role (holds rows) a u
unfolding holds
update-put_role agency_id user_id f role rows fa fu fr e a u =
    elim (Bool-cases (a == agency_id && u == user_id)) [
      | inl h ↦
          let same_agency : a ≡ agency_id = ground arith in
          let same_user : u ≡ user_id = ground arith in
          rw h
            (rw same_agency (rw same_user (update-role agency_id user_id f role rows fa fu fr e)))
      | inr h ↦
          let others = find-update_others (of_user a u) (of_user agency_id user_id) f rows (λ y p.
            let ea = fa y in let eu = fu y in (ground arith, rw ea (rw eu (ground arith)))) in
          rw h (rw others refl)
    ]

-- A first membership adds the role that it gives.
pub append-put_role :
    (agency_id user_id : ℕ) (m : AgencyMembership) (rows : List AgencyMembership)
    → m.agency_id ≡ agency_id
    → m.user_id ≡ user_id
    → find (of_user agency_id user_id) rows ≡ none
    → (a u : ℕ)
    → holds (rows ++ m ∷ []) a u ≡ put_role agency_id user_id (role_of (some m)) (holds rows) a u
unfolding holds
append-put_role agency_id user_id m rows ea eu e a u =
    elim (Bool-cases (a == agency_id && u == user_id)) [
      | inl h ↦
          let same_agency : a ≡ agency_id = ground arith in
          let same_user : u ≡ user_id = ground arith in
          let mine : of_user agency_id user_id m ≡ true = ground arith in
          let found = find-append_new (of_user agency_id user_id) rows m mine e in
          rw h (rw same_agency (rw same_user (rw found refl)))
      | inr h ↦
          let other : of_user a u m ≡ false = ground arith in
          let found = find-append_other (of_user a u) rows m other in rw h (rw found refl)
    ]
