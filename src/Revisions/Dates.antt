-- ===== src/Revisions/Dates.antt =====
-- Comparisons of dates in a query, where a missing date (NULL) fits no comparison, and the order
-- `-valid_from, -revision_number`, in which PostgreSQL puts missing dates first.
use rpsd_config.Common.{
  ℕ, ◌≡◌, Bool, true, false, Option, none, some, ltb, leb, if◌then◌else◌, IsSortOrder, arith, refl,
}
use rpsd_config.Models.{Revision}

abbrev pub starts_by : ℕ → Option ℕ → Bool
starts_by day none = false
starts_by day (some d) = leb d day

abbrev pub starts_after : ℕ → Option ℕ → Bool
starts_after day none = false
starts_after day (some d) = ltb day d

abbrev pub later_key : Option ℕ → ℕ → Option ℕ → ℕ → Bool
later_key none m none n = ltb n m
later_key none m (some e) n = true
later_key (some d) m none n = false
later_key (some d) m (some e) n = if ltb e d then true else if ltb d e then false else ltb n m

unfoldable pub later : Revision → Revision → Bool
later x y = later_key x.valid_from x.revision_number y.valid_from y.revision_number

later_key_asymm :
    (a : Option ℕ) (m : ℕ) (b : Option ℕ) (n : ℕ)
    → later_key a m b n ≡ true
    → later_key b n a m ≡ false
later_key_asymm none m none n h = ground arith
later_key_asymm none m (some e) n h = refl
later_key_asymm (some d) m none n h = ground arith
later_key_asymm (some d) m (some e) n h = ground arith

later_key_cotrans :
    (a : Option ℕ) (m : ℕ) (b : Option ℕ) (n : ℕ) (c : Option ℕ) (k : ℕ)
    → later_key a m b n ≡ false
    → later_key b n c k ≡ false
    → later_key a m c k ≡ false
later_key_cotrans none m none n none k h p = ground arith
later_key_cotrans none m none n (some e) k h p = ground arith
later_key_cotrans none m (some b) n c k h p = ground arith
later_key_cotrans (some d) m b n none k h p = ground arith
later_key_cotrans (some d) m none n (some e) k h p = ground arith
later_key_cotrans (some d) m (some b) n (some e) k h p = ground arith

pub later-IsSortOrder : IsSortOrder later
unfolding later
later-IsSortOrder = record {
  asymm = λ x y. later_key_asymm x.valid_from x.revision_number y.valid_from y.revision_number;
  cotrans = λ x y z.
      later_key_cotrans x.valid_from x.revision_number y.valid_from y.revision_number z.valid_from
        z.revision_number;
}

-- The opposite order, as `valid_from, revision_number` sorts dates that are there.
pub earlier-IsSortOrder : IsSortOrder (λ x y. later y x)
earlier-IsSortOrder = record {
  asymm = λ x y. later-IsSortOrder.asymm y x;
  cotrans = λ x y z h p. later-IsSortOrder.cotrans z y x p h;
}
