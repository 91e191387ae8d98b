-- ===== src/Drafts/Kept.antt =====
-- Drafts and the invariant of the stored revisions.
use rpsd_config.Common.{
  String, ◌≡◌, ◌≢◌, refl, sym, ◌∙◌, ap, true, false, List, [], ◌∷◌, ◌++◌, In, In-append,
  update_rows, Result-cases, ◌==◌, arith, inl, inr, ◌⊎◌,
}
use rpsd_config.Json.{Json}
use rpsd_config.Models.{Db, Revision, draft, is_draft, is_approved, ProfileInput}
use rpsd_config.Rbac.{User}
use rpsd_config.Lifecycle.{Runtime}
use rpsd_config.Lifecycle.History.{HasUniquePks}
use rpsd_config.Lifecycle.Invariant.{IsConsistent, updated_row, update_rows-HasUniquePks}
use rpsd_config.Lifecycle.Evolution.{Evolves-refl, evolve_update, RowsEvolve}
use rpsd_config.Drafts.Create.{Library, DraftRequest, check_draft, create_revision_draft}
use rpsd_config.Drafts.Created.{check_draft-IsCreated}
use rpsd_config.Drafts.Replace.{
  Chosen, IndicatorConfig, with_composition, check_replacement, write_replacement,
  replace_draft_configuration,
}
use rpsd_config.Drafts.Replaced.{check_replacement-IsReplaced}

-- A draft that is appended under a new key.
append-IsConsistent :
    (hexdigest : Json → String) (rows : List Revision) (row : Revision)
    → ((r : Revision) → In r rows → r.pk ≢ row.pk)
    → row.status ≡ draft
    → IsConsistent hexdigest rows
    → IsConsistent hexdigest (rows ++ row ∷ [])
append-IsConsistent hexdigest rows row fresh drafted c =
    let split = λ (x : Revision) (m : In x (rows ++ row ∷ [])).
      let r : In x rows ⊎ (x ≡ row) = elim ((In-append rows (row ∷ []) x).0 m) [
        | inl old ↦ inl old
        | inr new ↦ elim new [ inl e ↦ inr e | inr r ↦ absurd r ]
      ] in
      r in
    let not_approved = λ (x : Revision) (e : x ≡ row) (a : is_approved x.status ≡ true).
      let status : x.status ≡ draft = ap (λ (y : Revision). y.status) e ∙ drafted in
      let none_such : ⊥ = ground (arith, status, a) in none_such in
    record {
      unique_pks = λ x y mx my e. elim (split x mx) [
        | inl px ↦ elim (split y my) [
          | inl py ↦ c.unique_pks x y px py e
          | inr ey ↦ absurd (fresh x px (e ∙ ap (λ (r : Revision). r.pk) ey))
        ]
        | inr ex ↦ elim (split y my) [
          | inl py ↦ absurd (fresh y py (sym e ∙ ap (λ (r : Revision). r.pk) ex))
          | inr ey ↦ ex ∙ sym ey
        ]
      ];
      unique_dates = λ x y mx my ax ay own e. elim (split x mx) [
        | inr ex ↦ absurd (not_approved x ex ax)
        | inl px ↦ elim (split y my) [
          | inr ey ↦ absurd (not_approved y ey ay)
          | inl py ↦ c.unique_dates x y px py ax ay own e
        ]
      ];
      sound = λ x mx ax. elim (split x mx) [
        | inr ex ↦ absurd (not_approved x ex ax)
        | inl px ↦ c.sound x px ax
      ];
    }

pub create-IsConsistent :
    (hexdigest : Json → String) (rt : Runtime) (lib : Library) (request : DraftRequest)
    (actor : User) (db : Db)
    → ((r : Revision) → In r db.revisions → r.pk ≢ request.new_pk)
    → IsConsistent hexdigest db.revisions
    → IsConsistent hexdigest (create_revision_draft rt lib request actor db).1.revisions
unfolding create_revision_draft
create-IsConsistent hexdigest rt lib request actor db fresh c =
    elim (Result-cases (check_draft rt lib request actor db)) [
      | inr (x, h) ↦ rw h c
      | inl (row, h) ↦
          let facts = (check_draft-IsCreated rt lib request actor db h).is_new in
          rw h (
            append-IsConsistent hexdigest db.revisions row (λ r m e. fresh r m (e ∙ facts.key))
              facts.drafted c)
    ]

pub create-RowsEvolve :
    (rt : Runtime) (lib : Library) (request : DraftRequest) (actor : User) (db : Db)
    → RowsEvolve db (create_revision_draft rt lib request actor db).1
unfolding create_revision_draft
create-RowsEvolve rt lib request actor db =
    elim (Result-cases (check_draft rt lib request actor db)) [
      | inr (x, h) ↦ rw h (λ r m. (r, m, Evolves-refl r))
      | inl (row, h) ↦
          rw h (λ r m. (r, (In-append db.revisions (row ∷ []) r).1 (inl m), Evolves-refl r))
    ]

-- An update of a draft that keeps it a draft under its key.
update-IsConsistent :
    (hexdigest : Json → String) (rows : List Revision) (locked : Revision) (f : Revision → Revision)
    → In locked rows
    → (f locked).pk ≡ locked.pk
    → is_approved (f locked).status ≡ false
    → IsConsistent hexdigest rows
    → IsConsistent hexdigest (update_rows (λ r. r.pk == locked.pk) f rows)
update-IsConsistent hexdigest rows locked f stored key drafted c =
    let row = λ (z : Revision). updated_row rows locked f z c.unique_pks stored in
    let changed = λ (x : Revision) (e : x ≡ f locked) (a : is_approved x.status ≡ true).
      let status : is_approved x.status ≡ false =
        ap (λ (y : Revision). is_approved y.status) e ∙ drafted in
      let none_such : ⊥ = ground (arith, status, a) in none_such in
    record {
      unique_pks = update_rows-HasUniquePks rows locked f c.unique_pks stored key;
      unique_dates = λ x y mx my ax ay own e. elim (row x mx) [
        | inl ex ↦ absurd (changed x ex ax)
        | inr (px, _) ↦ elim (row y my) [
          | inl ey ↦ absurd (changed y ey ay)
          | inr (py, _) ↦ c.unique_dates x y px py ax ay own e
        ]
      ];
      sound = λ x mx ax. elim (row x mx) [
        | inl ex ↦ absurd (changed x ex ax)
        | inr (px, _) ↦ c.sound x px ax
      ];
    }

pub replace-IsConsistent :
    (hexdigest : Json → String) (rt : Runtime) (lib : Library) (revision : Revision)
    (selections : List (Chosen ProfileInput)) (items : List IndicatorConfig) (actor : User)
    (db : Db)
    → IsConsistent hexdigest db.revisions
    → IsConsistent hexdigest
        (replace_draft_configuration rt lib revision selections items actor db).1.revisions
unfolding replace_draft_configuration write_replacement
replace-IsConsistent hexdigest rt lib revision selections items actor db c =
    elim (Result-cases (check_replacement rt lib revision selections items actor db)) [
      | inr (x, h) ↦ rw h c
      | inl ((locked, new), h) ↦
          let facts =
            (check_replacement-IsReplaced rt lib revision selections items actor db locked new
              h).0 in
          let drafted : is_approved locked.status ≡ false = ground (arith, facts.drafted) in
          rw h (
            update-IsConsistent hexdigest db.revisions locked (with_composition new) facts.stored
              refl drafted c)
    ]

pub replace-RowsEvolve :
    (rt : Runtime) (lib : Library) (revision : Revision) (selections : List (Chosen ProfileInput))
    (items : List IndicatorConfig) (actor : User) (db : Db)
    → HasUniquePks db.revisions
    → RowsEvolve db (replace_draft_configuration rt lib revision selections items actor db).1
unfolding replace_draft_configuration write_replacement
replace-RowsEvolve rt lib revision selections items actor db unique =
    elim (Result-cases (check_replacement rt lib revision selections items actor db)) [
      | inr (x, h) ↦ rw h (λ r m. (r, m, Evolves-refl r))
      | inl ((locked, new), h) ↦
          let facts =
            (check_replacement-IsReplaced rt lib revision selections items actor db locked new
              h).0 in
          rw h (
            evolve_update db.revisions locked (with_composition new) (λ x m key.
              let same : x ≡ locked = unique x locked m facts.stored key in
              let drafted : is_draft x.status ≡ true =
                ap (λ (y : Revision). is_draft y.status) same ∙ facts.drafted in
              record {
                pk = refl;
                contract = refl;
                number = refl;
                date = refl;
                status = (Evolves-refl x).status;
                schema_version = λ _. refl;
                snapshot = λ _. refl;
                checksum = λ _. refl;
                inputs = λ n. ground (arith, n, drafted);
                configurations = λ n. ground (arith, n, drafted);
              }))
    ]
