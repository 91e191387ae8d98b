-- ===== src/Memberships/Others.antt =====
-- The memberships of the other users.
use rpsd_config.Common.{
  ℕ, String, ◌≡◌, ◌≢◌, Bool, true, false, List, [], ◌∷◌, In, In-append, exists_row, update_rows,
  update_rows-In, arith, Bool-cases, Option-cases, inl, inr,
}
use rpsd_config.Models.{Agency, AgencyMembership}
use rpsd_config.Rbac.{Assignment, iter_agency_group_assignments}
use rpsd_config.Memberships.{
  grouped_by_agency, Sync, of_user, new_membership, updated, touch, agency_of, touch_all, is_stale,
  as_revoked, revoke_stale, sync_agency_memberships_from_groups,
}

-- An update of other rows keeps a row.
update-keeps :
    {A : Type 0} (p : A → Bool) (f : A → A) (xs : List A) (x : A)
    → p x ≡ false
    → In x xs
    → In x (update_rows p f xs)
update-keeps p f xs x e m = let r = update_rows-In p f xs x m in rw e at r

touch-keeps :
    (sync : Sync) (agency_id : ℕ) (a : Assignment) (rows : List AgencyMembership)
    (m : AgencyMembership)
    → m.user_id ≢ sync.user_id
    → In m rows
    → In m (touch sync agency_id a rows)
unfolding touch
touch-keeps sync agency_id a rows m ne q =
    elim (Bool-cases (exists_row (of_user agency_id sync.user_id) rows)) [
      | inl e ↦
          let r =
            update-keeps (of_user agency_id sync.user_id) (updated sync a) rows m
              (ground (arith, ne)) q in
          rw e r
      | inr e ↦
          let r = (In-append rows (new_membership sync agency_id a ∷ []) m).1 (inl q) in rw e r
    ]

touch_all-keeps :
    (sync : Sync) (agencies : List Agency) (grouped : List Assignment)
    (rows : List AgencyMembership) (seen : List ℕ) (m : AgencyMembership)
    → m.user_id ≢ sync.user_id
    → In m rows
    → In m (touch_all sync agencies grouped rows seen).0
unfolding touch_all
touch_all-keeps sync agencies [] rows seen m ne q = q
touch_all-keeps sync agencies (a ∷ grouped) rows seen m ne q =
    elim (Option-cases (agency_of agencies a)) [
      | inl e ↦
          let r = touch_all-keeps sync agencies grouped rows seen m ne q in rw (e, touch_all) r
      | inr (g, e) ↦
          let r =
            touch_all-keeps sync agencies grouped (touch sync g.pk a rows) (g.pk ∷ seen) m ne
              (touch-keeps sync g.pk a rows m ne q) in
          rw (e, touch_all) r
    ]

revoke-keeps :
    (authoritative : Bool) (sync : Sync) (rows : List AgencyMembership) (seen : List ℕ)
    (m : AgencyMembership)
    → m.user_id ≢ sync.user_id
    → In m rows
    → In m (revoke_stale authoritative sync (rows, seen))
unfolding revoke_stale is_stale
revoke-keeps true sync rows seen m ne q =
    update-keeps (is_stale sync.user_id seen) (as_revoked sync) rows m (ground (arith, ne)) q
revoke-keeps false sync rows seen m ne q = q

-- A synchronisation of a user, authoritative or not, leaves every membership of another user as it was.
pub sync-keeps_others :
    (root : String) (authoritative : Bool) (sync : Sync) (agencies : List Agency)
    (groups : List String) (rows : List AgencyMembership) (m : AgencyMembership)
    → m.user_id ≢ sync.user_id
    → In m rows
    → In m (sync_agency_memberships_from_groups root authoritative sync agencies groups rows)
unfolding sync_agency_memberships_from_groups
sync-keeps_others root authoritative sync agencies groups rows m ne q =
    let grouped = grouped_by_agency (iter_agency_group_assignments root groups) [] in
    let after = touch_all sync agencies grouped rows [] in
    revoke-keeps authoritative sync after.0 after.1 m ne
      (touch_all-keeps sync agencies grouped rows [] m ne q)
