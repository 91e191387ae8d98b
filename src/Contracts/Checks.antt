-- ===== src/Contracts/Checks.antt =====
-- What a save that returns has checked.
use rpsd_config.Common.{
  ℕ, ◌≤◌, ◌≡◌, refl, true, false, ◌&&◌, Option, none, some, List, ok, find, find-In, In, exists_row,
  ◌==◌, arith, Option-cases, inl, inr,
}
use rpsd_config.Models.Contracts.{Contract, is_closed_status}
use rpsd_config.Contracts.{
  overlaps, end_of, closing_issues, clean_issues, same_pair, other_row, full_clean, with_end_date,
  same_protected, same_type, check_save, check_new, with_version,
}

-- The period is in order, no other contract of the lot overlaps it, and the code and the version
-- are free.
pub record IsClean (rows : List Contract) (own_pk : Option ℕ) (c : Contract) (end_date : ℕ)
    : Type 0 where
  pub ends : c.end_date ≡ some end_date
  pub in_order : c.start_date ≤ end_date
  pub alone : exists_row (overlaps c.lot.pk c.start_date end_date own_pk) rows ≡ false
  pub new_version :
      exists_row
        (λ (o : Contract). other_row own_pk o && (same_pair c o && o.version == c.version))
        rows
      ≡ false

full_clean-IsClean :
    (six_years_after : ℕ → ℕ) (rows : List Contract) (own_pk : Option ℕ) (c : Contract) (d : ℕ)
    → c.end_date ≡ some d
    → full_clean six_years_after rows own_pk c ≡ ok tt
    → IsClean rows own_pk c d
unfolding full_clean clean_issues closing_issues
full_clean-IsClean six_years_after rows own_pk c d e h = record {
  ends = e;
  in_order = ground arith;
  alone = ground arith;
  new_version = ground arith;
}

-- What the save of a stored contract has checked.
pub record IsSave (six_years_after : ℕ → ℕ) (rows : List Contract) (c filled : Contract)
    : Type 0 where
  pub is_filled : filled ≡ with_end_date six_years_after c
  pub original : Contract
  pub stored : In original rows
  pub same_pk : original.pk ≡ c.pk
  pub same_version : filled.version ≡ original.version
  pub same_kind : same_type filled.contract_type original.contract_type ≡ true
  pub closed : is_closed_status original.status ≡ true → same_protected filled original ≡ true
  pub clean : IsClean rows (some c.pk) filled (end_of six_years_after c)

pub check_save-IsSave :
    (six_years_after : ℕ → ℕ) (rows : List Contract) (c filled : Contract)
    → check_save six_years_after rows c ≡ ok filled
    → IsSave six_years_after rows c filled
unfolding check_save
check_save-IsSave six_years_after rows c filled h =
    let hit = λ (o : Contract). o.pk == c.pk in
    elim (Option-cases (find hit rows)) [
      | inl e ↦ absurd (ground (arith, e))
      | inr (original, e) ↦
          let (m, key) = find-In hit rows e in
          let made : filled ≡ with_end_date six_years_after c = ground (arith, e) in
          let clean : full_clean six_years_after rows (some c.pk) (with_end_date six_years_after c)
              ≡ ok tt =
            ground (arith, e) in
          record {
            is_filled = made;
            original = original;
            stored = m;
            same_pk = ground (arith, key);
            same_version = ground (arith, e);
            same_kind = ground (arith, e);
            closed = λ p. ground (arith, e);
            clean = rw made (
                full_clean-IsClean six_years_after rows (some c.pk)
                  (with_end_date six_years_after c) (end_of six_years_after c) refl clean);
          }
    ]

-- What the save of a new contract has checked.
pub record IsCreation (six_years_after : ℕ → ℕ) (rows : List Contract) (c filled : Contract)
    : Type 0 where
  pub is_filled : filled ≡ with_end_date six_years_after (with_version rows c)
  pub clean : IsClean rows none filled (end_of six_years_after (with_version rows c))

pub check_new-IsCreation :
    (six_years_after : ℕ → ℕ) (rows : List Contract) (c filled : Contract)
    → check_new six_years_after rows c ≡ ok filled
    → IsCreation six_years_after rows c filled
unfolding check_new
check_new-IsCreation six_years_after rows c filled h =
    let numbered = with_version rows c in
    let made : filled ≡ with_end_date six_years_after numbered = ground arith in
    record {
      is_filled = made;
      clean = rw made (
          full_clean-IsClean six_years_after rows none (with_end_date six_years_after numbered)
            (end_of six_years_after numbered) refl (ground arith));
    }
