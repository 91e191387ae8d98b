-- ===== src/Json.antt =====
-- The Python values that snapshots are made of, as `_canonical_value` of
-- exchange_agreement/services/contract_revisions.py tells them apart.
pub mod Canonical
pub mod Access
pub mod Checksum
use rpsd_config.Common.{ℕ, String, Bool}

-- `negsuc n` is -(n + 1).
pub data ℤ : Type 0 where
  pos : ℕ → ℤ
  negsuc : ℕ → ℤ

-- A float matters only in whether it is finite: every float is refused.
pub data FloatKind : Type 0 where
  finite not_finite : FloatKind

-- A dict key is a text or something else, which is refused.
pub data Key : Type 0 where
  text_key : String → Key
  other_key : Key

mutual
  -- `decimal` and `iso_date` hold `str(value)` and `value.isoformat()`; `unsupported` is a value of
  -- any type that the function does not name.
  pub data Json : Type 0 where
    null : Json
    bool : Bool → Json
    int : ℤ → Json
    str : String → Json
    decimal : String → Json
    iso_date : String → Json
    float : FloatKind → Json
    arr : Items → Json
    obj : Fields → Json
    unsupported : Json

  pub data Items : Type 0 where
    nil : Items
    cons : Json → Items → Items

  pub data Fields : Type 0 where
    end : Fields
    field : Key → Json → Fields → Fields
