-- ===== src/Merkle/Payload.antt =====
-- internal/merkle/tree.go: the canonical payload of a record and its leaf hash. Go's JSON encoding,
-- its time format and SHA-256 are parameters.
use logs_tracker.Prelude.{ℕ, String, Option, none, some}
use logs_tracker.Errors.{Result, ok, err, failure}
use logs_tracker.Merkle.{Bytes, hash_leaf}

-- Raw JSON is text; no image is "".
pub record RecordCanonicalPayload : Type 0 where
  pub id : String
  pub batch_id : String
  pub table_name : String
  pub primary_key : String
  pub event_type : String
  pub before_image : String
  pub after_image : String
  pub actor_user_id : Option String
  pub actor_type : String
  pub transaction_id : String
  pub schema_version : String
  pub committed_at : String
  pub merkle_leaf_index : ℕ

-- What the code takes from Go's library: SHA-256, `json.Marshal` of a payload (which fails on raw
-- JSON that is malformed), `time.Parse` and `Format` with RFC3339Nano over nanoseconds in UTC.
pub record Runtime : Type 0 where
  pub sha256 : Bytes → Bytes
  pub marshal_payload : RecordCanonicalPayload → Option Bytes
  pub parse_time : String → Option ℕ
  pub format_time : ℕ → String

module _ (rt : Runtime) where
  -- A time that does not parse is kept.
  unfoldable pub normalize : RecordCanonicalPayload → RecordCanonicalPayload
  normalize p = elim (rt.parse_time p.committed_at) [
    | some t ↦ record p { committed_at = rt.format_time t }
    | none ↦ p
  ]

  unfoldable pub compute_record_leaf_hash : RecordCanonicalPayload → Result Bytes
  unfolding normalize
  compute_record_leaf_hash p = elim (rt.marshal_payload (normalize p)) [
    | some d ↦ ok (hash_leaf rt.sha256 d)
    | none ↦ err (failure "failed to marshal canonical payload")
  ]
