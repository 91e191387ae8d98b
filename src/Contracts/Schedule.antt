-- ===== src/Contracts/Schedule.antt =====
-- The contracts of a lot never overlap, and no version of a pair is given twice.
use rpsd_config.Common.{
  ℕ, ◌<◌, ◌≡◌, ◌≢◌, refl, sym, ◌∙◌, ap, true, false, ◌&&◌, Option, none, some, List, [], ◌∷◌, In,
  In-append, In-update_rows, not-exists_row, leb, ◌==◌, arith, Bool-cases, Option-cases,
  Result-cases, inl, inr, ◌⊎◌,
}
use rpsd_config.Models.Contracts.{Contract}
use rpsd_config.Contracts.{
  overlaps, end_of, same_pair, other_row, same_id, check_save, save_contract, with_version,
  check_new, create_contract,
}
use rpsd_config.Contracts.Checks.{IsClean, check_save-IsSave, check_new-IsCreation}

-- The period of one ends before the other starts.
abbrev pub Precedes : Contract → Contract → Type 0
Precedes x y = (d : ℕ) × (x.end_date ≡ some d) × (d < y.start_date)

abbrev pub Disjoint : Contract → Contract → Type 0
Disjoint x y = Precedes x y ⊎ Precedes y x

-- Different contracts of one lot have disjoint periods, and different contracts of one pair have
-- different versions.
pub record IsSchedule (rows : List Contract) : Type 0 where
  pub disjoint :
      (x y : Contract) → In x rows → In y rows → x.pk ≢ y.pk → x.lot.pk ≡ y.lot.pk → Disjoint x y
  pub versions :
      (x y : Contract)
      → In x rows
      → In y rows
      → x.pk ≢ y.pk
      → same_pair x y ≡ true
      → x.version ≢ y.version

Disjoint-sym : (x y : Contract) → Disjoint x y → Disjoint y x
Disjoint-sym x y h = elim h [ inl p ↦ inr p | inr p ↦ inl p ]

-- A checked contract is disjoint from every other row of the lot.
clean-Disjoint :
    (rows : List Contract) (own_pk : Option ℕ) (c y : Contract) (d : ℕ)
    → IsClean rows own_pk c d
    → In y rows
    → same_id (some y.pk) own_pk ≡ false
    → c.lot.pk ≡ y.lot.pk
    → Disjoint c y
unfolding overlaps
clean-Disjoint rows own_pk c y d h m other lot =
    let free : overlaps c.lot.pk c.start_date d own_pk y ≡ false =
      not-exists_row (overlaps c.lot.pk c.start_date d own_pk) rows y h.alone m in
    elim (Bool-cases (leb y.start_date d)) [
      | inr late ↦ inl (d, h.ends, ground arith)
      | inl early ↦ elim (Option-cases y.end_date) [
        | inl e ↦ absurd (ground (arith, e))
        | inr (f, e) ↦ inr (f, e, ground (arith, e))
      ]
    ]

clean-version :
    (rows : List Contract) (own_pk : Option ℕ) (c y : Contract) (d : ℕ)
    → IsClean rows own_pk c d
    → In y rows
    → same_id (some y.pk) own_pk ≡ false
    → same_pair c y ≡ true
    → c.version ≢ y.version
clean-version rows own_pk c y d h m other pair e =
    let free =
      not-exists_row
        (λ (o : Contract). other_row own_pk o && (same_pair c o && o.version == c.version)) rows y
        h.new_version m in
    absurd (ground (arith, free))

same_pair-sym : (x y : Contract) → same_pair x y ≡ true → same_pair y x ≡ true
same_pair-sym x y h = ground arith

-- A table whose rows are old ones and a checked contract.
insert-IsSchedule :
    (rows rows' : List Contract) (own_pk : Option ℕ) (n : Contract) (d : ℕ)
    → IsClean rows own_pk n d
    → ((y : Contract) → y.pk ≢ n.pk → same_id (some y.pk) own_pk ≡ false)
    → ((x : Contract) → In x rows' → (x ≡ n) ⊎ In x rows)
    → IsSchedule rows
    → IsSchedule rows'
insert-IsSchedule rows rows' own_pk n d clean other split old =
    let disjoint_from = λ (y : Contract) (m : In y rows) (ne : n.pk ≢ y.pk).
      clean-Disjoint rows own_pk n y d clean m (other y (λ e. ne (sym e))) in
    let version_of = λ (y : Contract) (m : In y rows) (ne : n.pk ≢ y.pk).
      clean-version rows own_pk n y d clean m (other y (λ e. ne (sym e))) in
    record {
      disjoint = λ x y mx my ne lot. elim (split x mx) [
        | inl ex ↦ elim (split y my) [
          | inl ey ↦ absurd (ne (ap (λ (c : Contract). c.pk) (ex ∙ sym ey)))
          | inr qy ↦ rw ex (disjoint_from y qy (rw ex at ne) (rw ex at lot))
        ]
        | inr qx ↦ elim (split y my) [
          | inl ey ↦ rw ey (
              Disjoint-sym n x
                (disjoint_from x qx (λ e. (rw ey at ne) (sym e)) (sym (rw ey at lot))))
          | inr qy ↦ old.disjoint x y qx qy ne lot
        ]
      ];
      versions = λ x y mx my ne pair. elim (split x mx) [
        | inl ex ↦ elim (split y my) [
          | inl ey ↦ absurd (ne (ap (λ (c : Contract). c.pk) (ex ∙ sym ey)))
          | inr qy ↦ rw ex (version_of y qy (rw ex at ne) (rw ex at pair))
        ]
        | inr qx ↦ elim (split y my) [
          | inl ey ↦
              let differ : n.version ≢ x.version =
                version_of x qx (λ e. (rw ey at ne) (sym e)) (same_pair-sym x n (rw ey at pair)) in
              rw ey (λ e. differ (sym e))
          | inr qy ↦ old.versions x y qx qy ne pair
        ]
      ];
    }

touched-IsClean :
    (rows : List Contract) (own_pk : Option ℕ) (c : Contract) (d now : ℕ)
    → IsClean rows own_pk c d
    → IsClean rows own_pk (record c { updated_at = now }) d
touched-IsClean rows own_pk c d now h = record {
  ends = h.ends;
  in_order = h.in_order;
  alone = h.alone;
  new_version = h.new_version;
}

-- Saving a stored contract keeps the contracts of every lot disjoint and the versions of every
-- pair distinct, whether it returns or raises.
pub save_contract-IsSchedule :
    (six_years_after : ℕ → ℕ) (now : ℕ) (c : Contract) (rows : List Contract)
    → IsSchedule rows
    → IsSchedule (save_contract six_years_after now c rows).1
unfolding save_contract
save_contract-IsSchedule six_years_after now c rows old =
    elim (Result-cases (check_save six_years_after rows c)) [
      | inr (x, e) ↦ rw e old
      | inl (filled, e) ↦
          let facts = check_save-IsSave six_years_after rows c filled e in
          let saved = record filled { updated_at = now } in
          let key : filled.pk ≡ c.pk = ap (λ (o : Contract). o.pk) facts.is_filled in
          rw e (
            insert-IsSchedule rows _ (some c.pk) saved (end_of six_years_after c)
              (touched-IsClean rows (some c.pk) filled (end_of six_years_after c) now facts.clean)
              (λ y ne. ground (arith, key))
              (λ x m.
                let (y, my, q) =
                  In-update_rows (λ (o : Contract). o.pk == filled.pk) (λ _. saved) rows x m in
                elim (Bool-cases (y.pk == filled.pk)) [
                  | inl p ↦ inl (rw p at q)
                  | inr p ↦ let same : x ≡ y = rw p at q in inr (rw same my)
                ])
              old)
    ]

-- Creating a contract keeps the contracts of every lot disjoint and the versions of every pair
-- distinct, whether it returns or raises.
pub create_contract-IsSchedule :
    (six_years_after : ℕ → ℕ) (now : ℕ) (c : Contract) (rows : List Contract)
    → IsSchedule rows
    → IsSchedule (create_contract six_years_after now c rows).1
unfolding create_contract
create_contract-IsSchedule six_years_after now c rows old =
    elim (Result-cases (check_new six_years_after rows c)) [
      | inr (x, e) ↦ rw e old
      | inl (filled, e) ↦
          let facts = check_new-IsCreation six_years_after rows c filled e in
          let saved = record filled { updated_at = now } in
          let d = end_of six_years_after (with_version rows c) in
          rw e (
            insert-IsSchedule rows _ none saved d
              (touched-IsClean rows none filled d now facts.clean) (λ y ne. refl)
              (λ x m. elim ((In-append rows (saved ∷ []) x).0 m) [
                | inl q ↦ inr q
                | inr q ↦ elim q [ inl p ↦ inl p | inr r ↦ absurd r ]
              ])
              old)
    ]
