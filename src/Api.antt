-- ===== src/Api.antt =====
-- internal/api/rbac.go: who may call which endpoint; and PublicVerifyProofHandler of
-- internal/api/handlers.go. `strings.TrimSpace`, decoders and Ed25519 are parameters.
pub mod Detail
pub mod Handlers
pub mod Permissions
pub mod Server
pub mod Proofs
use Prim.Native.String
use text.Mathlib.Text.{starts_with}
use logs_tracker.Prelude.{
  ℕ, String, append, Bool, true, false, ◌==◌, Option, none, some, List, [], ◌∷◌, length, str_eq,
  if◌then◌else◌,
}
use logs_tracker.Prelude.Dict.{Dict, get}
use logs_tracker.Errors.{failure, Result, ok, err}
use logs_tracker.Merkle.{Bytes, ProofNode, verify_proof}
use logs_tracker.Merkle.Payload.{RecordCanonicalPayload, Runtime, compute_record_leaf_hash}

abbrev pub Permission : Type 0
Permission = String

abbrev pub record_read : Permission
record_read = "record:read"

abbrev pub record_search : Permission
record_search = "record:search"

abbrev pub batch_read : Permission
batch_read = "batch:read"

abbrev pub verification_read : Permission
verification_read = "verification:read"

abbrev pub config_read : Permission
config_read = "config:read"

abbrev pub alert_ack : Permission
alert_ack = "alert:acknowledge"

unfoldable pub role_permissions : Dict (List Permission)
role_permissions =
    (
      "admin",
      record_read ∷ record_search ∷ batch_read ∷ verification_read ∷ config_read ∷ alert_ack ∷ [],
    )
    ∷ ("app_service", record_read ∷ record_search ∷ verification_read ∷ [])
    ∷ ("auditor", record_read ∷ record_search ∷ batch_read ∷ verification_read ∷ config_read ∷ [])
    ∷ ("verifier", verification_read ∷ [])
    ∷ []

unfoldable pub has_permission : List Permission → Permission → Bool
has_permission [] required = false
has_permission (p ∷ perms) required =
    let later = has_permission perms required in if str_eq p required then true else later

-- `StaticTokenValidator.ValidateToken`
unfoldable pub validate_token : Dict (List Permission) → String → Option (String × List Permission)
validate_token tokens token = elim (get token tokens) [
  | none ↦ none
  | some perms ↦ some ("service", perms)
]

-- What is left of the second text after the characters of the first.
unfoldable pub text_after : String → String → String
text_after String.[] s = s
text_after (String.◌∷◌ c p) String.[] = String.[]
text_after (String.◌∷◌ c p) (String.◌∷◌ d s) = text_after p s

-- `strings.TrimPrefix`
unfoldable pub trim_prefix : String → String → String
trim_prefix s prefix = if starts_with s prefix then text_after prefix s else s

-- The answer of the middleware: an error, or the call of the handler for a caller.
pub data Access : Type 0 where
  unauthorized : Access
  invalid_token : Access
  missing_permission : Permission → Access
  served : String → List Permission → Access

unfoldable pub check_permission : Permission → Option (String × List Permission) → Access
check_permission required none = invalid_token
check_permission required (some (caller, perms)) =
    if has_permission perms required then served caller perms else missing_permission required

-- `RBACMiddleware`, for a validator and the Authorization header.
unfoldable pub rbac_middleware :
    (String → String) → (String → Option (String × List Permission)) → Permission → String → Access
rbac_middleware trim_space validate required header =
    if str_eq header ""
    then unauthorized
    else check_permission required (validate (trim_space (trim_prefix header "Bearer ")))

-- The body of a verification request that decodes.
pub record VerifyRequest : Type 0 where
  pub record_canonical : RecordCanonicalPayload
  pub proof : List ProofNode
  pub merkle_root_hex : String
  pub signature_hex : String
  pub key_version : String
  pub public_key_base64 : String

-- `panics` is what `ed25519.Verify` does on a key whose length is not 32.
pub data Answer : Type 0 where
  bad_request : String → Answer
  invalid : String → Answer
  valid : Answer
  panics : Answer

pub record Decoders : Type 0 where
  pub hex_decode : String → Option Bytes
  pub base64_decode : String → Option Bytes
  pub ed25519_verify : Bytes → Bytes → Bytes → Bool

module _ (rt : Runtime) (dec : Decoders) (public_key : String → Result Bytes) where
  unfoldable pub proof_answer : VerifyRequest → Bytes → Result Bytes → Answer
  proof_answer q root (err e) = invalid "failed to compute leaf hash"
  proof_answer q root (ok leaf) =
      if verify_proof rt.sha256 leaf q.proof root
      then valid
      else invalid "merkle proof does not match expected root"

  unfoldable pub signature_answer : VerifyRequest → Bytes → Bytes → Bytes → Answer
  signature_answer q root signature key =
      if length key == 32
      then (if dec.ed25519_verify key root signature
          then proof_answer q root (compute_record_leaf_hash rt q.record_canonical)
          else invalid "invalid digital signature")
      else panics

  -- The caller's key, or else the signer's for the version.
  unfoldable pub request_key : VerifyRequest → Result Bytes
  request_key q =
      if str_eq q.public_key_base64 ""
      then public_key q.key_version
      else elim (dec.base64_decode q.public_key_base64) [
        | none ↦ err (failure "Invalid public_key_base64")
        | some key ↦ ok key
      ]

  unfoldable pub key_answer : VerifyRequest → Bytes → Bytes → Result Bytes → Answer
  key_answer q root signature (err e) = bad_request (
      if str_eq q.public_key_base64 ""
      then append "Public key not found for version: " q.key_version
      else "Invalid public_key_base64")
  key_answer q root signature (ok key) = signature_answer q root signature key

  unfoldable pub decoded_answer : VerifyRequest → Option Bytes → Option Bytes → Answer
  decoded_answer q none signature = bad_request "Invalid merkle_root_hex"
  decoded_answer q (some root) none = bad_request "Invalid signature_hex"
  decoded_answer q (some root) (some signature) = key_answer q root signature (request_key q)

  -- A body that does not decode is refused.
  unfoldable pub public_verify_proof : Option VerifyRequest → Answer
  public_verify_proof none = bad_request "Invalid json payload"
  public_verify_proof (some q) =
      decoded_answer q (dec.hex_decode q.merkle_root_hex) (dec.hex_decode q.signature_hex)
