-- ===== src/Revisions/Periods.antt =====
-- The current revision and the effective periods say the same thing about today.
use rpsd_config.Common.{
  ℕ, ◌-◌, ◌≤◌, ◌<◌, ◌≡◌, refl, true, false, Option, none, some, List, ok, In, sym, ap, ◌∙◌, ltb,
  arith, Bool-cases, Option-cases, inl, inr,
}
use rpsd_config.Models.{Contract, is_active_today, not_ended, Revision, is_approved}
use rpsd_config.Revisions.{
  later, candidate, current_revision, successor, next_revision, resolve_current_contract_revision,
  revision_effective_period, revision_temporal_state, active, effective_to, ended_before,
}
use rpsd_config.Revisions.Current.{
  IsCurrent, current_revision-IsCurrent, current_revision-eq-none, next_revision-IsNext,
  next_revision-eq-none, candidate-date, successor-date,
}

-- What a resolution that succeeds tells: the contract is effective and the revision current.
pub resolve-eq-ok :
    (today : ℕ) (rows : List Revision) (c : Contract) (r : Revision)
    → resolve_current_contract_revision today rows c ≡ ok r
    → (is_active_today c today ≡ true) × (current_revision c.pk today rows ≡ some r)
unfolding resolve_current_contract_revision
resolve-eq-ok today rows c r e = ground arith

-- The revision after the current one starts after today.
next_starts_later :
    (id today : ℕ) (rows : List Revision) (r n : Revision) (d : ℕ)
    → IsCurrent id today rows r
    → r.valid_from ≡ some d
    → next_revision id d rows ≡ some n
    → (e : ℕ) × (n.valid_from ≡ some e) × (today < e)
unfolding candidate later
next_starts_later id today rows r n d h q p =
    let next = next_revision-IsNext id d rows n p in
    let (e, ne, gt, own, appr) = successor-date id d n next.fits in
    (e, ne, ground (arith, h.latest n next.stored))

not_ended-ended_before :
    (end_date : Option ℕ) (day : ℕ)
    → not_ended end_date day ≡ true
    → ended_before day end_date ≡ false
not_ended-ended_before none day h = refl
not_ended-ended_before (some e) day h = ground arith

not_expired :
    (id today : ℕ) (rows : List Revision) (r : Revision) (d : ℕ) (end_date : Option ℕ)
    → IsCurrent id today rows r
    → r.valid_from ≡ some d
    → not_ended end_date today ≡ true
    → ended_before today (effective_to (next_revision id d rows) end_date) ≡ false
not_expired id today rows r d end_date h q p = elim (Option-cases (next_revision id d rows)) [
  | inl e ↦ rw e (not_ended-ended_before end_date today p)
  | inr (n, e) ↦
      let (f, nf, gt) = next_starts_later id today rows r n d h q e in rw e (rw nf (ground arith))
]

-- The revision that is resolved today is in state `active`.
pub resolve-active :
    (today : ℕ) (rows : List Revision) (c : Contract) (r : Revision)
    → resolve_current_contract_revision today rows c ≡ ok r
    → revision_temporal_state today rows c r ≡ ok active
unfolding revision_temporal_state is_active_today
resolve-active today rows c r e =
    let (effective, found) = resolve-eq-ok today rows c r e in
    let current = current_revision-IsCurrent c.pk today rows r found in
    let (d, q, by, own, appr) = candidate-date c.pk today r current.fits in
    ground (arith, not_expired c.pk today rows r d c.end_date current q)

-- Two approved revisions of one contract never start on the same day, as the constraint
-- `unique_approved_contract_revision_date` has it.
abbrev pub HasUniqueDates : List Revision → Type 0
HasUniqueDates rows =
    (x y : Revision)
    → In x rows
    → In y rows
    → is_approved x.status ≡ true
    → is_approved y.status ≡ true
    → x.contract_id ≡ y.contract_id
    → x.valid_from ≡ y.valid_from
    → x ≡ y

-- A later approved revision of the contract ends the period of an earlier one before it starts.
pub period_ends_before :
    (rows : List Revision) (id d e : ℕ) (y : Revision) (end_date : Option ℕ)
    → In y rows
    → y.contract_id ≡ id
    → is_approved y.status ≡ true
    → y.valid_from ≡ some e
    → d < e
    → (t : ℕ) × (effective_to (next_revision id d rows) end_date ≡ some t) × (d ≤ t) × (t < e)
unfolding successor later
period_ends_before rows id d e y end_date m own appr q gt =
    let fits : successor id d y ≡ true = ground arith in
    elim (Option-cases (next_revision id d rows)) [
      | inl p ↦ let no : successor id d y ≡ false = next_revision-eq-none id d rows y p m in cc
      | inr (n, p) ↦
          let next = next_revision-IsNext id d rows n p in
          let (g, ng, dg, own', appr') = successor-date id d n next.fits in
          let before : later n y ≡ false = next.earliest y m fits in
          (g - 1, rw p (rw ng), omega arith, ground arith)
    ]

-- The periods of two approved revisions of one contract do not overlap: the one that starts first
-- ends before the other starts.
pub periods_disjoint :
    (rows : List Revision) (c : Contract) (x y : Revision) (d e : ℕ)
    → In y rows
    → is_approved x.status ≡ true
    → is_approved y.status ≡ true
    → x.contract_id ≡ y.contract_id
    → x.valid_from ≡ some d
    → y.valid_from ≡ some e
    → d < e
    → (t : ℕ) × (revision_effective_period rows c x ≡ ok (d, some t)) × (d ≤ t) × (t < e)
unfolding revision_effective_period
periods_disjoint rows c x y d e m ax ay same qx qy lt =
    let (t, p, from, to) =
      period_ends_before rows x.contract_id d e y c.end_date m (sym same) ay qy lt in
    (t, rw ax (rw qx (rw p)), from, to)

-- What the state `active` says of a revision.
active-period :
    (today : ℕ) (rows : List Revision) (c : Contract) (s : Revision)
    → revision_temporal_state today rows c s ≡ ok active
    → (d : ℕ) × (is_approved s.status ≡ true)
      × (s.valid_from ≡ some d)
      × (d ≤ today)
      × (ended_before today (effective_to (next_revision s.contract_id d rows) c.end_date) ≡ false)
unfolding revision_temporal_state
active-period today rows c s h = elim (Option-cases s.valid_from) [
  | inl e ↦ ground arith
  | inr (d, e) ↦ (d, ground arith, e, ground arith, ground arith)
]

-- No approved revision that has started starts later than one in state `active`.
active-is_latest :
    (today : ℕ) (rows : List Revision) (c : Contract) (s r : Revision) (d f : ℕ)
    → ended_before today (effective_to (next_revision s.contract_id d rows) c.end_date) ≡ false
    → In r rows
    → r.contract_id ≡ s.contract_id
    → is_approved r.status ≡ true
    → r.valid_from ≡ some f
    → f ≤ today
    → f ≤ d
active-is_latest today rows c s r d f open_ m own appr q by = elim (Bool-cases (ltb d f)) [
  | inl lt ↦
      let (t, p, from, to) =
        period_ends_before rows s.contract_id d f r c.end_date m own appr q (ground arith) in
      let late : ended_before today (some t) ≡ false = rw p at open_ in absurd (ground arith)
  | inr ge ↦ ground arith
]

-- For an effective contract whose approved revisions have distinct dates, a stored revision of the
-- contract in state `active` is the one that is resolved.
pub active-resolve :
    (today : ℕ) (rows : List Revision) (c : Contract) (s : Revision)
    → HasUniqueDates rows
    → is_active_today c today ≡ true
    → In s rows
    → s.contract_id ≡ c.pk
    → revision_temporal_state today rows c s ≡ ok active
    → resolve_current_contract_revision today rows c ≡ ok s
unfolding resolve_current_contract_revision candidate later
active-resolve today rows c s unique effective m own h =
    let (d, appr, q, by, open_) = active-period today rows c s h in
    let fits : candidate c.pk today s ≡ true = ground arith in
    elim (Option-cases (current_revision c.pk today rows)) [
      | inl e ↦
          let no : candidate c.pk today s ≡ false =
            current_revision-eq-none c.pk today rows s e m in
          cc
      | inr (r, e) ↦
          let current = current_revision-IsCurrent c.pk today rows r e in
          let (f, qf, fby, fown, fappr) = candidate-date c.pk today r current.fits in
          let same_contract : r.contract_id ≡ s.contract_id = fown ∙ sym own in
          let upper =
            active-is_latest today rows c s r d f open_ current.stored same_contract fappr qf fby in
          let order : later s r ≡ false = current.latest s m fits in
          let lower : d ≤ f = ground arith in
          let same_date : d ≡ f = omega arith in
          let same : r ≡ s =
            unique r s current.stored m fappr appr same_contract
              (qf ∙ (ap some (sym same_date) ∙ sym q)) in
          rw effective (rw e (rw same))
    ]
