-- ===== src/Commands/Verify/Stored.antt =====
-- cmd/verify/main.go after internal/batch/batcher.go over PostgresStore: the program on a record of a
-- batch that a key file's key signed.
use logs_tracker.Prelude.{
  ℕ, String, ◌≡◌, ◌≢◌, refl, Bool, Bool-cases, true, false, if◌then◌else◌, inl, inr, Option, none,
  some, get_elem?, All, str_eq, eq_iff,
}
use logs_tracker.Errors.{GoError, Result, ok, err}
use logs_tracker.Merkle.{Bytes}
use logs_tracker.Merkle.Payload.{Runtime, RecordCanonicalPayload}
use logs_tracker.Merkle.Verifier.{
  VerificationResult, BatchVerificationData, is_signed, verify_record,
}
use logs_tracker.Store.{Record}
use logs_tracker.Signing.{LocalKeyManager, Crypto, Randomness, sign, verify}
use logs_tracker.Signing.Keys.{IsKeyPair, verify-own}
use logs_tracker.Signing.Keyfile.{IsLossless}
use logs_tracker.Batch.{CheckpointObject, Batcher, Moment, close_current_batch}
use logs_tracker.Batch.Numbering.{IsNumbered}
use logs_tracker.Postgres.{Columns, Faults, Tables}
use logs_tracker.Postgres.Queries
use logs_tracker.Postgres.Answers.{answered}
use logs_tracker.Postgres.Constraints.{IsConsistent}
use logs_tracker.Postgres.Session.{Session, in_postgres}
use logs_tracker.Postgres.Verified.{IsSameJson, close-valid}
use logs_tracker.Commands.{Files, load_key, new_key}
use logs_tracker.Commands.Keys.{load_key-new_key}
use logs_tracker.Commands.Verify.{
  Flags, ProofDoc, exit_code, World, choose_signer, key_unlocked, report, verify_with, opened, main,
}

report-either :
    (w : World) (b : Bool) (x y : VerificationResult)
    → (let outcome : VerificationResult × Option GoError = if b then (x, none) else (y, none) in
        outcome.0.valid ≡ true → exit_code (report w outcome) ≡ 0)
unfolding report exit_code
report-either w true x y h = rw h refl
report-either w false x y h = rw h refl

-- A record that is valid is reported so.
report-valid :
    (w : World) (check : Bytes → Bytes → String → Result Bool) (now : ℕ) (id : String)
    (o : Result (RecordCanonicalPayload × BatchVerificationData))
    → (verify_record w.runtime check now id o).0.valid ≡ true
    → exit_code (report w (verify_record w.runtime check now id o)) ≡ 0
unfolding verify_record
report-valid w check now id (err e) h = cc
report-valid w check now id (ok (payload, b)) h =
    report-either w (is_signed (check b.merkle_root b.signature b.key_version)) _ _ h

abbrev pub by_keyfile : String → String → String → String → Flags
by_keyfile id url path passphrase = record {
  record_id = id;
  proof_file = "";
  postgres_url = url;
  keyfile = path;
  passphrase = passphrase;
  pub_key_hex = "";
}

module _ (rt : Runtime) (c : Crypto) (columns : Columns) (marshal : CheckpointObject → Option Bytes)
    (faults : ℕ → Faults) (write : ℕ → String → Bytes → Option GoError)
    (hex_decode : String → Option Bytes) (read_file : String → Option Bytes)
    (unmarshal_doc : Bytes → Option ProofDoc) where
  -- The program where the key files and the tables are these; the database opens, and its queries
  -- do not fail.
  abbrev pub world : Files → Tables → ℕ → World
  world files t now = record {
    runtime = rt;
    crypto = c;
    hex_decode = hex_decode;
    read_file = read_file;
    unmarshal_doc = unmarshal_doc;
    keyfiles = files;
    open_error = λ url. none;
    fetch = λ url id. Queries.get_record_for_verification rt none none answered id t;
    now = now;
  }

  main-valid :
      (files : Files) (t : Tables) (now : ℕ) (id url path passphrase : String) (m : LocalKeyManager)
      → passphrase ≢ ""
      → id ≢ ""
      → load_key c files path passphrase ≡ ok m
      → (verify_record rt
          (verify c m)
          now
          id
          (Queries.get_record_for_verification rt none none answered id t)).0.valid
        ≡ true
      → exit_code (main (world files t now) (by_keyfile id url path passphrase)) ≡ 0
  unfolding main opened verify_with choose_signer key_unlocked
  main-valid files t now id url path passphrase m given named loads valid =
      elim (Bool-cases (str_eq id "")) [
        | inl s ↦ absurd (named ((eq_iff id "").0 s))
        | inr u ↦ elim (Bool-cases (str_eq passphrase "")) [
          | inl s ↦ absurd (given ((eq_iff passphrase "").0 s))
          | inr v ↦
              rw (u, v, loads)
                (report-valid (world files t now) (verify c m) now id
                  (Queries.get_record_for_verification rt none none answered id t) valid)
        ]
      ]

  -- If a key file is made and closing a batch over PostgresStore, signed with its key, returns no
  -- error, the tables keep their keys, the records of the batch are numbered, and the canonical JSON
  -- of each record as the columns keep it is that of the record, then the program, given the key
  -- file, its passphrase and a record of the batch, ends with status 0. Base64, JSON and AES-GCM give back what they were
  -- given, Ed25519 accepts what the new key signs, the database opens and answers every query.
  pub main-authentic :
      (r : Randomness) (files files' : Files) (url path passphrase v : String) (m : LocalKeyManager)
      (t : Moment) (b : Batcher) (s : Session) (now i : ℕ) (rec : Record)
      → IsLossless c r passphrase v
      → IsKeyPair c m.private_key m.public_key
      → new_key c r files path passphrase v ≡ ok (files', m)
      → passphrase ≢ ""
      → rec.id ≢ ""
      → (close_current_batch rt (in_postgres columns (sign c m) marshal faults write) t b s).2
        ≡ none
      → IsConsistent s.tables
      → IsNumbered b
      → All (IsSameJson columns rt) b.records
      → get_elem? b.records i ≡ some rec
      → exit_code (
          main
            (world files'
              (close_current_batch rt
                (in_postgres columns (sign c m) marshal faults write)
                t
                b
                s).1.tables
              now)
            (by_keyfile rec.id url path passphrase))
        ≡ 0
  main-authentic r files files' url path passphrase v m t b s now i rec lossless pair made given
        named closes consistent numbered same at =
      main-valid files' _ now rec.id url path passphrase m given named
        (load_key-new_key c r files files' path passphrase v m lossless made)
        (close-valid columns rt (sign c m) marshal faults write (verify c m)
          (λ digest signature version signed. verify-own c m digest signature version pair signed) t
          b s now i rec closes consistent numbered same at)
