-- ===== src/Examples/Server.antt =====
-- The theorems on internal/api at one request each.
use logs_tracker.Prelude.{
  false, String, ◌≡◌, ◌⊎◌, refl, true, none, some, List, [], ◌∷◌, Occurs, Option,
}
use logs_tracker.Prelude.Int.{pos}
use logs_tracker.Errors.{not_found, Result, ok, err}
use logs_tracker.Merkle.{Bytes, verify_proof, climb, hash_leaf, hash_interior, equal_bytes}
use logs_tracker.Merkle.Payload.{normalize, compute_record_leaf_hash}
use logs_tracker.Merkle.Collisions.{Collision}
use logs_tracker.Merkle.Verifier.{unverified}
use logs_tracker.Alerting.{MemorySink, Alert}
use logs_tracker.Api.{
  Permission, Decoders, VerifyRequest, valid, alert_ack, validate_token, proof_answer,
  signature_answer, request_key, key_answer, decoded_answer, public_verify_proof,
}
use logs_tracker.Api.Proofs.{public_verify_proof_sound}
use logs_tracker.Api.Server.{Request, Backend, serve}
use logs_tracker.Api.Server.Guarded.{Outcome, serve_lem}
use logs_tracker.Examples.Batches
use logs_tracker.Examples.Trees

abbrev key_32 : Bytes
key_32 = 1 ∷ Batches.zeros 31

abbrev pub decoders : Decoders
decoders = record {
  hex_decode = λ s. some Trees.three_tree.root;
  base64_decode = λ s. none;
  ed25519_verify = λ key digest signature. true;
}

abbrev signer_key : String → Result Bytes
signer_key v = ok key_32

abbrev proof_request : VerifyRequest
proof_request = record {
  record_canonical = Trees.payload;
  proof = Trees.second_proof;
  merkle_root_hex = "22";
  signature_hex = "22";
  key_version = "v1";
  public_key_base64 = "";
}

request-valid : public_verify_proof Trees.runtime decoders signer_key (some proof_request) ≡ valid
unfolding public_verify_proof decoded_answer key_answer request_key signature_answer proof_answer
    compute_record_leaf_hash normalize verify_proof climb hash_leaf hash_interior equal_bytes
request-valid = refl

public_verify_proof_sound_example :
    ((key : Bytes) × (signature : Bytes) × (decoders.hex_decode proof_request.signature_hex
        ≡ some signature)
      × (request_key Trees.runtime decoders signer_key proof_request ≡ ok key)
      × (decoders.ed25519_verify key Trees.three_tree.root signature ≡ true))
    × ((d : Bytes) × (Trees.runtime.marshal_payload
            (normalize Trees.runtime proof_request.record_canonical)
          ≡ some d)
        × (Occurs d Trees.three ⊎ Collision Trees.runtime.sha256))
public_verify_proof_sound_example =
    public_verify_proof_sound Trees.runtime decoders signer_key Trees.digest-length proof_request
      Trees.three Trees.three_tree Trees.three_tree-built refl request-valid

-- A token that may acknowledge alerts.
abbrev acknowledger_tokens : String → Option (String × List Permission)
acknowledger_tokens token = validate_token (("t1", alert_ack ∷ []) ∷ []) token

abbrev pub untouched : String → String
untouched s = s

abbrev backend : Backend
backend = record {
  runtime = Trees.runtime;
  decoders = decoders;
  clean_path = untouched;
  trim_space = untouched;
  validate = acknowledger_tokens;
  now = "";
  rfc3339 = λ t. "";
  base64_encode = λ b. "";
  public_key = signer_key;
  opener = none;
  records_by_key = λ table key limit offset. ok [];
  find_record = λ id. err not_found;
  verify_record = λ id. (unverified 1 id, some not_found);
  find_batch = λ id. err not_found;
  list_batches = λ limit offset. ok [];
  all_configs = [];
}

abbrev alert_request : Request
alert_request = record {
  method = "POST";
  path = "/audit/alerts/a1/acknowledge";
  authorization = "Bearer t1";
  table = "";
  primary_key = "";
  limit = pos 0;
  offset = pos 0;
  decrypt = "";
  body = none;
}

abbrev alert : Alert
alert = record {
  id = "a1";
  severity = "high";
  trigger = "unattributed_change";
  table_name = "orders";
  record_id = "r1";
  transaction_id = "xid:7";
  message = "";
  timestamp = 1;
  acknowledged = false;
}

abbrev sink : MemorySink
sink = record { alerts = alert ∷ [] }

serve_lem_example :
    Outcome backend alert_request (some sink) (serve backend alert_request (some sink))
serve_lem_example = serve_lem backend alert_request (some sink)
