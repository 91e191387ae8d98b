-- ===== src/Memberships/Synced.antt =====
-- What a synchronisation leaves.
use rpsd_config.Common.{
  ℕ, String, ◌≡◌, refl, sym, ◌∙◌, ap, true, false, some, List, [], ◌∷◌, In, exists_row,
  exists_row-In, find-In, In-update_rows, ◌==◌, str_eq, eq_iff, arith, Bool-cases, Option-cases,
  inl, inr, ◌⊎◌,
}
use rpsd_config.Models.{Agency, AgencyRole, AgencyMembership, is_active_membership}
use rpsd_config.Rbac.{Assignment, match_group, iter_agency_group_assignments}
use rpsd_config.Memberships.{
  keep_highest, grouped_by_agency, Sync, touch, agency_of, touch_all, is_stale, as_revoked,
  revoke_stale, sync_agency_memberships_from_groups,
}

keep_highest-In :
    (a : Assignment) (bs : List Assignment) (x : Assignment)
    → In x (keep_highest a bs)
    → (x ≡ a) ⊎ In x bs
unfolding keep_highest
keep_highest-In a [] x m = elim m [ inl e ↦ inl e | inr r ↦ absurd r ]
keep_highest-In a (b ∷ bs) x m = ground (arith, keep_highest-In a bs x)

grouped-In :
    (assignments grouped : List Assignment) (x : Assignment)
    → In x (grouped_by_agency assignments grouped)
    → In x assignments ⊎ In x grouped
unfolding grouped_by_agency
grouped-In [] grouped x m = inr m
grouped-In (a ∷ assignments) grouped x m =
    elim (grouped-In assignments (keep_highest a grouped) x m) [
      | inl r ↦ inl (inr r)
      | inr r ↦ elim (keep_highest-In a grouped x r) [ inl e ↦ inl (inl e) | inr q ↦ inr q ]
    ]

-- Every assignment is what a group was read as.
assignment-group :
    (root : String) (groups : List String) (a : Assignment)
    → In a (iter_agency_group_assignments root groups)
    → (group : String) × In group groups × (match_group root group ≡ some (a.agency_key, a.role))
unfolding iter_agency_group_assignments
assignment-group root [] a m = absurd m
assignment-group root (group ∷ groups) a m = elim (Option-cases (match_group root group)) [
  | inl e ↦
      let rest : In a (iter_agency_group_assignments root groups) = rw e at m in
      let (g, q, h) = assignment-group root groups a rest in (g, inr q, h)
  | inr ((key, role), e) ↦
      let first = rw e at m in
      elim first [
        | inl same ↦ (
          group,
          inl refl,
          e
              ∙ (ap (λ (k : String). some (k, role))
                    (sym (ap (λ (x : Assignment). x.agency_key) same))
                  ∙ ap (λ (r : AgencyRole). some (a.agency_key, r))
                      (sym (ap (λ (x : Assignment). x.role) same))),
        )
        | inr rest ↦ let (g, q, h) = assignment-group root groups a rest in (g, inr q, h)
      ]
]

seen-In :
    (sync : Sync) (agencies : List Agency) (grouped : List Assignment)
    (rows : List AgencyMembership) (seen : List ℕ) (k : ℕ)
    → In k (touch_all sync agencies grouped rows seen).1
    → In k seen
      ⊎ ((a : Assignment) × (g : Agency) × In a grouped
          × (agency_of agencies a ≡ some g)
          × (k ≡ g.pk))
unfolding touch_all
seen-In sync agencies [] rows seen k m = inl m
seen-In sync agencies (a ∷ grouped) rows seen k m = elim (Option-cases (agency_of agencies a)) [
  | inl e ↦ elim (seen-In sync agencies grouped rows seen k (rw (e, touch_all) at m)) [
    | inl q ↦ inl q
    | inr (b, g, q, f, h) ↦ inr (b, g, inr q, f, h)
  ]
  | inr (g, e) ↦
      elim (seen-In sync agencies grouped (touch sync g.pk a rows) (g.pk ∷ seen) k
        (rw (e, touch_all) at m)) [
          | inl q ↦ elim q [ inl same ↦ inr (a, g, inl refl, e, same) | inr r ↦ inl r ]
          | inr (b, g', q, f, h) ↦ inr (b, g', inr q, f, h)
        ]
]

-- What vouches for the membership: an agency of the table, and a group that gives a role in it.
unfoldable pub IsVouchedFor : String → List Agency → List String → AgencyMembership → Type 0
IsVouchedFor root agencies groups m =
    (g : Agency) × (group : String) × (role : AgencyRole) × In g agencies
    × In group groups
    × (g.pk ≡ m.agency_id)
    × (match_group root group ≡ some (g.agency_key, role))

seen-IsVouchedFor :
    (root : String) (sync : Sync) (agencies : List Agency) (groups : List String)
    (rows : List AgencyMembership) (m : AgencyMembership)
    → In m.agency_id
        (touch_all sync agencies
          (grouped_by_agency (iter_agency_group_assignments root groups) [])
          rows
          []).1
    → IsVouchedFor root agencies groups m
unfolding IsVouchedFor
seen-IsVouchedFor root sync agencies groups rows m q =
    elim (seen-In sync agencies (grouped_by_agency (iter_agency_group_assignments root groups) [])
      rows [] m.agency_id q) [
        | inl absent ↦ absurd absent
        | inr (a, g, r, e, same) ↦
            let from : In a (iter_agency_group_assignments root groups) =
              elim (grouped-In (iter_agency_group_assignments root groups) [] a r) [
                | inl h ↦ h
                | inr h ↦ absurd h
              ] in
            let (group, present, reads) = assignment-group root groups a from in
            let (found, keys) = find-In (λ x. str_eq x.agency_key a.agency_key) agencies e in
            let key : g.agency_key ≡ a.agency_key = (eq_iff g.agency_key a.agency_key).0 keys in
            (
              g,
              group,
              a.role,
              found,
              present,
              sym same,
              reads ∙ ap (λ (k : String). some (k, a.role)) (sym key),
            )
      ]

-- An active row of the user that is not stale has an agency that was seen.
fresh-seen :
    (user_id : ℕ) (seen : List ℕ) (m : AgencyMembership)
    → is_stale user_id seen m ≡ false
    → m.user_id ≡ user_id
    → is_active_membership m.status ≡ true
    → In m.agency_id seen
unfolding is_stale
fresh-seen user_id seen m fresh own live =
    elim (Bool-cases (exists_row (λ k. k == m.agency_id) seen)) [
      | inl found ↦
          let (k, t, h) = exists_row-In (λ k. k == m.agency_id) seen found in
          let same : k ≡ m.agency_id = ground (arith, h) in rw same at t
      | inr lost ↦ absurd (ground (arith, fresh, own, live, lost))
    ]

kept-seen :
    (sync : Sync) (rows : List AgencyMembership) (seen : List ℕ) (m : AgencyMembership)
    → In m (revoke_stale true sync (rows, seen))
    → m.user_id ≡ sync.user_id
    → is_active_membership m.status ≡ true
    → In m.agency_id seen
unfolding revoke_stale
kept-seen sync rows seen m q own live =
    let (y, r, e) = In-update_rows (is_stale sync.user_id seen) (as_revoked sync) rows m q in
    elim (Bool-cases (is_stale sync.user_id seen y)) [
      | inl stale ↦
          let gone : m ≡ as_revoked sync y = ground (arith, e, stale) in
          let dead : is_active_membership m.status ≡ false =
            ap (λ (x : AgencyMembership). is_active_membership x.status) gone in
          absurd (ground (arith, live, dead))
      | inr fresh ↦
          let same : m ≡ y = ground (arith, e, fresh) in
          fresh-seen sync.user_id seen m (ap (is_stale sync.user_id seen) same ∙ fresh) own live
    ]

-- After an authoritative synchronisation, every active membership of the user is vouched for: its
-- agency is stored, and one of the groups gives a role in it.
pub authoritative-IsVouchedFor :
    (root : String) (sync : Sync) (agencies : List Agency) (groups : List String)
    (rows : List AgencyMembership) (m : AgencyMembership)
    → In m (sync_agency_memberships_from_groups root true sync agencies groups rows)
    → m.user_id ≡ sync.user_id
    → is_active_membership m.status ≡ true
    → IsVouchedFor root agencies groups m
unfolding sync_agency_memberships_from_groups
authoritative-IsVouchedFor root sync agencies groups rows m q own live =
    let after =
      touch_all sync agencies (grouped_by_agency (iter_agency_group_assignments root groups) [])
        rows [] in
    seen-IsVouchedFor root sync agencies groups rows m (kept-seen sync after.0 after.1 m q own live)
