-- ===== src/Json/Checksum.antt =====
-- `canonical_json_bytes` and `canonical_snapshot_checksum` of
-- exchange_agreement/services/contract_revisions.py. `hexdigest` stands for the hash of the encoded
-- text of a canonical value: `hashlib.sha256(json.dumps(…).encode("utf-8")).hexdigest()`.
use Prim.Native.String.{◌++◌}
use rpsd_config.Common.{String, ◌≡◌, Result, ok, err}
use rpsd_config.Json.{Json}
use rpsd_config.Json.Canonical.{CanonicalError, canonical_value}
use rpsd_config.Json.Canonical.Idempotent.{canonical_value_idem}

abbrev digest_of : (Json → String) → Result CanonicalError Json → Result CanonicalError String
digest_of hexdigest (ok normalized) = ok ("sha256:" ++ hexdigest normalized)
digest_of hexdigest (err e) = err e

unfoldable pub canonical_snapshot_checksum : (Json → String) → Json → Result CanonicalError String
canonical_snapshot_checksum hexdigest payload = digest_of hexdigest (canonical_value payload)

-- The checksum of a payload is the checksum of its canonical value, which is what is stored.
pub checksum-canonical_value :
    (hexdigest : Json → String) (payload stored : Json)
    → canonical_value payload ≡ ok stored
    → canonical_snapshot_checksum hexdigest stored ≡ canonical_snapshot_checksum hexdigest payload
unfolding canonical_snapshot_checksum
checksum-canonical_value hexdigest payload stored e =
    rw e (rw (canonical_value_idem payload stored e))
