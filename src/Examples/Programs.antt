-- ===== src/Examples/Programs.antt =====
-- The theorems on cmd at a toy cryptography.
use logs_tracker.Prelude.{
  ◌≢◌, str_eq, if◌then◌else◌, ◌==◌, ==_iff, String, ◌≡◌, ◌↔◌, refl, true, Option, none, some, [],
  ◌∷◌, length,
}
use logs_tracker.Errors.{not_found, Result, ok, err}
use logs_tracker.Prelude.Dict.{put}
use logs_tracker.Merkle.{Bytes}
use logs_tracker.Merkle.{build_tree, build_levels}
use logs_tracker.Merkle.Payload.{normalize, compute_record_leaf_hash}
use logs_tracker.Signing.{Crypto, sign, generate_and_save_keyfile, public_key}
use logs_tracker.Batch.{close_current_batch, batch_row}
use logs_tracker.Store.{leaf_hashes}
use logs_tracker.Postgres.{
  find_row, stored_batch, stored_record, image_column, jsonb_column, insert_batch, insert_record,
  insert_records, commit_transaction, commit_records, insert_prepared, insert_rest, insert_begun,
  create_batch,
}
use logs_tracker.Postgres.Session.{in_postgres}
use logs_tracker.Api.{request_key, public_verify_proof, valid}
use logs_tracker.Commands.{saved, new_key, or_default}
use logs_tracker.Commands.Keygen.{key_or_nil, after_generate, generated, keygen}
use logs_tracker.Commands.Keygen.Roundtrip.{flags}
use logs_tracker.Commands.Verify.{ProofDoc, World, exit_code, verify_offline_proof, main}
use logs_tracker.Commands.Verify.Offline.{request_of, decoders, verify_offline_proof-agrees}
use logs_tracker.Commands.Verify.Stored.{by_keyfile, world, main-authentic}
use logs_tracker.Examples.Batches
use logs_tracker.Examples.Keys.{toy, manager, random, lossless}
use logs_tracker.Examples.Tables.{
  columns, no_faults, empty-IsConsistent, stored, moment, one, session, write_all, one-IsSameJson,
  runtime, compact, spaced,
}
use logs_tracker.Examples.Trees

shown_key : (keygen toy random (flags "generate" "keys.enc" "secret" "") []).1 ≡ generated "" "aab"
unfolding keygen after_generate new_key saved generate_and_save_keyfile key_or_nil public_key
shown_key = refl

made : new_key toy random [] "keys.enc" "secret" "" ≡ ok (("keys.enc", 8 ∷ []) ∷ [], manager)
unfolding new_key saved generate_and_save_keyfile put
made = refl

pair :
    (digest : Bytes)
    → toy.ed25519_verify manager.public_key digest (toy.ed25519_sign manager.private_key digest)
      ≡ true
pair digest = (==_iff _ _).1 refl

closes :
    (close_current_batch runtime
      (in_postgres columns (sign toy manager) Batches.marshal (λ calls. no_faults) write_all)
      moment
      one
      session).2
    ≡ none
unfolding close_current_batch leaf_hashes compute_record_leaf_hash normalize build_tree build_levels
    create_batch insert_begun insert_batch insert_rest insert_prepared insert_records insert_record
    commit_records commit_transaction find_row stored_batch stored_record image_column jsonb_column
    batch_row sign compact spaced
closes = refl

abbrev undecoded : String → Option Bytes
undecoded s = none

abbrev no_doc : Bytes → Option ProofDoc
no_doc content = none

main-authentic_example :
    exit_code (
      main
        (world runtime toy columns Batches.marshal
          (λ calls. no_faults)
          write_all
          undecoded
          undecoded
          no_doc
          (("keys.enc", 8 ∷ []) ∷ [])
          (close_current_batch runtime
            (in_postgres columns (sign toy manager) Batches.marshal (λ calls. no_faults) write_all)
            moment
            one
            session).1.tables
          100)
        (by_keyfile "r1" "" "keys.enc" "secret"))
    ≡ 0
main-authentic_example =
    main-authentic runtime toy columns Batches.marshal (λ calls. no_faults) write_all undecoded
      undecoded no_doc random [] (("keys.enc", 8 ∷ []) ∷ []) "" "keys.enc" "secret" "" manager
      moment one session 100 0 (stored "r1") lossless pair made (λ e. cc) (λ e. cc) closes
      empty-IsConsistent (refl, refl, tt) one-IsSameJson refl

-- Signatures are of 64 bytes.
abbrev sized : Crypto
sized = record toy { ed25519_verify = λ key digest signature. length signature == 64 }

abbrev document : ProofDoc
document = record {
  record_canonical = Trees.payload;
  proof = Trees.second_proof;
  merkle_root_hex = "22";
  signature_hex = "2222";
  key_version = "v1";
  public_key_hex = "aa";
}

abbrev key_32 : Bytes
key_32 = 1 ∷ Batches.zeros 31

abbrev hex_decode : String → Option Bytes
hex_decode s =
    if str_eq s "2222"
    then some (Batches.zeros 64)
    else (if str_eq s "22" then some Trees.three_tree.root else some key_32)

abbrev offline : World
offline = record {
  runtime = Trees.runtime;
  crypto = sized;
  hex_decode = hex_decode;
  read_file = λ path. some [];
  unmarshal_doc = λ content. some document;
  keyfiles = [];
  open_error = λ url. none;
  fetch = λ url id. err not_found;
  now = 100;
}

abbrev signer_key : String → Result Bytes
signer_key v = ok key_32

same_key :
    request_key Trees.runtime (decoders offline) signer_key (request_of document "") ≡ ok key_32
unfolding request_key
same_key = refl

key_given : (or_default "aa" "" ≢ "") × (hex_decode (or_default "aa" "") ≡ some key_32)
unfolding or_default
key_given = (λ e. cc, refl)

verify_offline_proof-agrees_example :
    (exit_code (verify_offline_proof offline "proof.json" "") ≡ 0) ↔ (
      public_verify_proof Trees.runtime
        (decoders offline)
        signer_key
        (some (request_of document ""))
      ≡ valid)
verify_offline_proof-agrees_example =
    verify_offline_proof-agrees offline signer_key (λ k m s a. (==_iff (length s) 64).0 a)
      "proof.json" "" "" [] document key_32 refl refl key_given.0 key_given.1 same_key
