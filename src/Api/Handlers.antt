-- ===== src/Api/Handlers.antt =====
-- internal/api/handlers.go: the other handlers. A handler is a function of the parts of the request
-- that it reads; an answer is data that the code renders as JSON.
use logs_tracker.Prelude.{
  ℕ, zero, suc, String, append, Bool, true, false, ◌||◌, Option, none, some, List, ◌∷◌, map, str_eq,
  if◌then◌else◌,
}
use logs_tracker.Prelude.Int.{ℤ, pos, negsuc}
use logs_tracker.Prelude.Hex.{hex_encode}
use logs_tracker.Prelude.Text.{starts_with, split_slashes, trim_slashes}
use logs_tracker.Errors.{GoError, is_not_found, Result, ok, err}
use logs_tracker.Merkle.{Bytes}
use logs_tracker.Merkle.Verifier.{VerificationResult}
use logs_tracker.Config.{TableConfig}
use logs_tracker.Store.{Batch, Record}
use logs_tracker.Alerting.{MemorySink, acknowledge}
use logs_tracker.Api.{Access, Answer}
use logs_tracker.Api.Detail.{Detail}

pub record PublicRootEntry : Type 0 where
  pub batch_id : String
  pub started_at : String
  pub closed_at : String
  pub event_count : ℕ
  pub merkle_root_hex : String
  pub signature_hex : String
  pub key_version : String

pub record BatchView : Type 0 where
  pub id : String
  pub started_at : String
  pub closed_at : String
  pub event_count : ℕ
  pub merkle_root : String
  pub signature : String
  pub key_version : String
  pub binlog_file : String
  pub binlog_position : ℕ
  pub status : String
  pub worm_object_key : Option String
  pub is_bootstrap : Bool

-- What the server answers.
pub data Response : Type 0 where
  health_ok : String → Response
  portal page_not_found post_required : Response
  redirected : String → Response
  denied : Access → Response
  proof_checked : Answer → Response
  key_failed : Response
  active_key : String → String → Response
  roots_failed : GoError → Response
  roots_page : List PublicRootEntry → ℕ → ℤ → Response
  parameters_required id_required : Response
  records_failed : GoError → Response
  records_page : List Record → ℕ → ℤ → Response
  record_detail : Detail → Response
  verification_failed : GoError → Response
  verification : VerificationResult → Response
  batch_not_found : Response
  batch_failed : GoError → Response
  batch_shown : BatchView → Response
  configs_page : List TableConfig → Response
  alert_not_found : Response
  acknowledged : String → Response

-- The parts of a path.
unfoldable pub path_parts : String → List String
path_parts path = split_slashes (trim_slashes path)

-- The third part of a path.
unfoldable pub path_id : List String → Option String
path_id (a ∷ b ∷ id ∷ rest) = some id
path_id parts = none

-- A limit that is not positive becomes the default.
unfoldable pub positive_or : ℕ → ℤ → ℕ
positive_or default (pos zero) = default
positive_or default (pos (suc n)) = suc n
positive_or default (negsuc n) = default

-- A key that is no JSON object is taken for an id.
unfoldable pub key_json : String → String
key_json key = if starts_with key "{" then key else append "{\"id\":\"" (append key "\"}")

unfoldable pub records_answer : ℕ → ℤ → Result (List Record) → Response
records_answer limit offset (err e) = records_failed e
records_answer limit offset (ok rs) = records_page rs limit offset

-- GetRecordsHandler, for the parameters table, primary_key, limit and offset.
unfoldable pub get_records :
    (String → String → ℕ → ℤ → Result (List Record)) → String → String → ℤ → ℤ → Response
get_records query table key limit offset =
    if str_eq table "" || str_eq key ""
    then parameters_required
    else records_answer (positive_or 50 limit) offset
        (query table (key_json key) (positive_or 50 limit) offset)

unfoldable pub verification_answer : VerificationResult × Option GoError → Response
verification_answer (r, some e) = verification_failed e
verification_answer (r, none) = verification r

-- VerifyRecordHandler
unfoldable pub verify_record_by_id :
    (String → VerificationResult × Option GoError) → Option String → Response
verify_record_by_id verify none = id_required
verify_record_by_id verify (some id) = verification_answer (verify id)

unfoldable pub batch_view : (ℕ → String) → Batch → BatchView
batch_view rfc3339 b = record {
  id = b.id;
  started_at = rfc3339 b.started_at;
  closed_at = rfc3339 b.closed_at;
  event_count = b.event_count;
  merkle_root = hex_encode b.merkle_root;
  signature = hex_encode b.signature;
  key_version = b.key_version;
  binlog_file = b.binlog_file;
  binlog_position = b.binlog_position;
  status = b.status;
  worm_object_key = b.worm_object_key;
  is_bootstrap = b.is_bootstrap;
}

unfoldable pub batch_answer : (ℕ → String) → Result Batch → Response
batch_answer rfc3339 (err e) = if is_not_found e then batch_not_found else batch_failed e
batch_answer rfc3339 (ok b) = batch_shown (batch_view rfc3339 b)

-- GetBatchHandler
unfoldable pub get_batch_by_id : (ℕ → String) → (String → Result Batch) → Option String → Response
get_batch_by_id rfc3339 find none = id_required
get_batch_by_id rfc3339 find (some id) = batch_answer rfc3339 (find id)

unfoldable pub acknowledged_in : String → MemorySink × Bool → Option MemorySink × Response
acknowledged_in id (sink, true) = (some sink, acknowledged id)
acknowledged_in id (sink, false) = (some sink, alert_not_found)

-- AcknowledgeAlertHandler; the sink may be nil.
unfoldable pub acknowledge_alert : Option MemorySink → Option String → Option MemorySink × Response
acknowledge_alert sink none = (sink, id_required)
acknowledge_alert none (some id) = (none, alert_not_found)
acknowledge_alert (some sink) (some id) = acknowledged_in id (acknowledge id sink)

-- PublicKeysHandler, for the signer's key of no version.
unfoldable pub public_keys : (Bytes → String) → Result Bytes → Response
public_keys base64_encode (err e) = key_failed
public_keys base64_encode (ok key) = active_key (base64_encode key) (hex_encode key)

unfoldable pub root_entry : (ℕ → String) → Batch → PublicRootEntry
root_entry rfc3339 b = record {
  batch_id = b.id;
  started_at = rfc3339 b.started_at;
  closed_at = rfc3339 b.closed_at;
  event_count = b.event_count;
  merkle_root_hex = hex_encode b.merkle_root;
  signature_hex = hex_encode b.signature;
  key_version = b.key_version;
}

unfoldable pub roots_answer : (ℕ → String) → ℕ → ℤ → Result (List Batch) → Response
roots_answer rfc3339 limit offset (err e) = roots_failed e
roots_answer rfc3339 limit offset (ok batches) =
    roots_page (map (root_entry rfc3339) batches) limit offset

-- PublicRootsHandler
unfoldable pub public_roots : (ℕ → String) → (ℕ → ℤ → Result (List Batch)) → ℤ → ℤ → Response
public_roots rfc3339 list limit offset =
    roots_answer rfc3339 (positive_or 100 limit) offset (list (positive_or 100 limit) offset)
