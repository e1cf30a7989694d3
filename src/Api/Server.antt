-- ===== src/Api/Server.antt =====
-- internal/api/server.go: which handler a path reaches, and behind which permission.
-- `ServeMux` takes the longest pattern that fits; one that ends in a slash fits what is below it.
pub mod Guarded
use logs_tracker.Prelude.{
  ℕ, String, append, Bool, true, false, not, ◌&&◌, ◌||◌, Option, none, some, List, [], ◌∷◌, str_eq,
  if◌then◌else◌,
}
use logs_tracker.Prelude.Int.{ℤ}
use logs_tracker.Prelude.Text.{starts_with, ends_with}
use logs_tracker.Errors.{GoError, Result}
use logs_tracker.Merkle.{Bytes}
use logs_tracker.Merkle.Verifier.{VerificationResult}
use logs_tracker.Merkle.Payload.{Runtime}
use logs_tracker.Config.{TableConfig}
use logs_tracker.Store.{Batch, Record}
use logs_tracker.Alerting.{MemorySink}
use logs_tracker.Api.{
  Permission, record_read, batch_read, verification_read, config_read, alert_ack, Access,
  unauthorized, invalid_token, missing_permission, served, rbac_middleware, VerifyRequest, Decoders,
  public_verify_proof,
}
use logs_tracker.Api.Detail.{Opener, get_record_detail}
use logs_tracker.Api.Handlers.{
  Response, health_ok, portal, page_not_found, post_required, redirected, denied, proof_checked,
  record_detail, configs_page, path_parts, path_id, get_records, verify_record_by_id,
  get_batch_by_id, acknowledge_alert, public_keys, public_roots,
}

pub record Request : Type 0 where
  pub method : String
  pub path : String
  pub authorization : String
  pub table : String
  pub primary_key : String
  pub limit : ℤ
  pub offset : ℤ
  pub decrypt : String
  pub body : Option VerifyRequest

-- What the handlers call, and `path.Clean` as the multiplexer applies it.
pub record Backend : Type 0 where
  pub runtime : Runtime
  pub decoders : Decoders
  pub clean_path : String → String
  pub trim_space : String → String
  pub validate : String → Option (String × List Permission)
  pub now : String
  pub rfc3339 : ℕ → String
  pub base64_encode : Bytes → String
  pub public_key : String → Result Bytes
  pub opener : Option Opener
  pub records_by_key : String → String → ℕ → ℤ → Result (List Record)
  pub find_record : String → Result Record
  pub verify_record : String → VerificationResult × Option GoError
  pub find_batch : String → Result Batch
  pub list_batches : ℕ → ℤ → Result (List Batch)
  pub all_configs : List TableConfig

pub data Route : Type 0 where
  health verify_portal root keys roots verify_proof records record_below batches config alerts :
      Route

unfoldable pub find_route : String → Route
find_route path =
    if str_eq path "/health"
    then health
    else (if str_eq path "/verify"
        then verify_portal
        else (if str_eq path "/public/verification/keys"
            then keys
            else (if str_eq path "/public/verification/roots"
                then roots
                else (if str_eq path "/public/verification/verify"
                    then verify_proof
                    else (if str_eq path "/audit/records"
                        then records
                        else (if starts_with path "/audit/records/"
                            then record_below
                            else (if starts_with path "/audit/batches/"
                                then batches
                                else (if str_eq path "/audit/config"
                                    then config
                                    else (if starts_with path "/audit/alerts/"
                                        then alerts
                                        else root)))))))))

-- A path that is not clean, or lacks the slash of a pattern, is redirected.
unfoldable pub lacks_slash : String → Bool
lacks_slash path = str_eq path "/audit/batches" || str_eq path "/audit/alerts"

-- The middleware, then the handler.
unfoldable pub guarded :
    Option MemorySink → Option MemorySink × Response → Access → Option MemorySink × Response
guarded sink handled (served caller perms) = handled
guarded sink handled unauthorized = (sink, denied unauthorized)
guarded sink handled invalid_token = (sink, denied invalid_token)
guarded sink handled (missing_permission p) = (sink, denied (missing_permission p))

module _ (s : Backend) (q : Request) (sink : Option MemorySink) where
  -- `wrapRBAC`
  unfoldable pub wrap_rbac :
      Permission → Option MemorySink × Response → Option MemorySink × Response
  wrap_rbac p handled =
      guarded sink handled (rbac_middleware s.trim_space s.validate p q.authorization)

  unfoldable pub record_route : Option MemorySink × Response
  record_route =
      if ends_with q.path "/verify"
      then wrap_rbac verification_read
          (sink, verify_record_by_id s.verify_record (path_id (path_parts q.path)))
      else wrap_rbac record_read (
        sink,
        record_detail (
            get_record_detail s.find_record s.opener (str_eq q.decrypt "true") (path_parts q.path)),
      )

  unfoldable pub handle : Route → Option MemorySink × Response
  handle health = (sink, health_ok s.now)
  handle verify_portal = (sink, portal)
  handle root = (sink, if str_eq q.path "/" then portal else page_not_found)
  handle keys = (sink, public_keys s.base64_encode (s.public_key ""))
  handle roots = (sink, public_roots s.rfc3339 s.list_batches q.limit q.offset)
  handle verify_proof = (
    sink,
    if str_eq q.method "POST"
        then proof_checked (public_verify_proof s.runtime s.decoders s.public_key q.body)
        else post_required,
  )
  handle records =
      wrap_rbac record_read
        (sink, get_records s.records_by_key q.table q.primary_key q.limit q.offset)
  handle record_below = record_route
  handle batches =
      wrap_rbac batch_read
        (sink, get_batch_by_id s.rfc3339 s.find_batch (path_id (path_parts q.path)))
  handle config = wrap_rbac config_read (sink, configs_page s.all_configs)
  handle alerts = wrap_rbac alert_ack (acknowledge_alert sink (path_id (path_parts q.path)))

  unfoldable pub serve : Option MemorySink × Response
  serve =
      if not (str_eq q.method "CONNECT") && not (str_eq (s.clean_path q.path) q.path)
      then (sink, redirected (s.clean_path q.path))
      else (if lacks_slash q.path
          then (sink, redirected (append q.path "/"))
          else handle (find_route q.path))
