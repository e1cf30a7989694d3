-- ===== src/Snapshot.antt =====
-- internal/snapshot/snapshot.go: the record of a row change, with the listed columns encrypted. Go's
-- JSON and base64, SHA-256, `uuid.New` and the encryptor are parameters.
pub mod Fields
pub mod Encryption
use logs_tracker.Prelude.{
  ℕ, String, append, Bool, true, false, ◌&&◌, ◌||◌, not, Option, none, some, List, [], ◌∷◌, ◌++◌,
  map, take, str_eq, if◌then◌else◌,
}
use logs_tracker.Prelude.Dict.{get}
use logs_tracker.Prelude.Hex.{hex_encode}
use logs_tracker.Prelude.Text.{ends_with, str_leb, sort_strings}
use logs_tracker.Errors.{GoError, failure, wrapped, Result, ok, err, ◌>>=◌, wrap}
use logs_tracker.Source.{
  EventType, insert, update, remove, ddl, no_action, Value, null, text, Row, RowChange,
}
use logs_tracker.Merkle.{Bytes}
use logs_tracker.Store.{Record}
use logs_tracker.Config.{TableConfig}
use logs_tracker.Attribution.{ActorAttribution}

-- The encryptor may be nil. What it draws at random depends on the column.
pub record Codec : Type 0 where
  pub encryptor : Option (String → Bytes → Result (Bytes × String))
  pub marshal_value : Value → Option Bytes
  pub marshal_row : Row → Option String
  pub base64_encode : Bytes → String
  pub sha256 : Bytes → Bytes
  pub utf8 : String → Bytes

unfoldable pub is_listed : String → List String → Bool
is_listed k [] = false
is_listed k (c ∷ cs) = str_eq c k || is_listed k cs

unfoldable pub is_null : Value → Bool
is_null null = true
is_null v = false

abbrev pub marshalled {ℓ} : {A : Type ℓ} → String → Option A → Result A
marshalled what none = err (failure what)
marshalled what (some a) = ok a

-- The source of the key and the columns: the after image, else the before image.
abbrev pub source_row : Option Row → Option Row → Option Row
source_row before (some row) = some row
source_row before none = before

abbrev pub columns_of : Row → List String
columns_of row = map (λ (e : String × Value). e.0) row

-- The first column whose name ends in _id.
unfoldable pub id_column : Row → Option (String × Value)
id_column [] = none
id_column ((k, v) ∷ row) =
    let later = id_column row in if ends_with k "_id" then some (k, v) else later

unfoldable pub candidate_column : List String → Row → Option (String × Value)
candidate_column [] row = none
candidate_column (c ∷ cs) row = elim (get c row) [
  | some v ↦ some (c, v)
  | none ↦ candidate_column cs row
]

-- The first name in order, with its value.
unfoldable pub first_column : List String → Row → Option (String × Value)
first_column [] row = none
first_column (k ∷ ks) row = elim (get k row) [ none ↦ some (k, null) | some v ↦ some (k, v) ]

unfoldable pub or_else {ℓ} : {A : Type ℓ} → Option A → Option A → Option A
or_else (some a) o = some a
or_else none o = o

unfoldable pub key_column : Row → Option (String × Value)
key_column row =
    or_else (candidate_column ("id" ∷ "ID" ∷ "uuid" ∷ "pk" ∷ []) row)
      (or_else (id_column row) (first_column (sort_strings (columns_of row)) row))

unfoldable pub key_row : Option Row → Row
key_row none = ("id", text "unknown") ∷ []
key_row (some row) = elim (key_column row) [
  | some (k, v) ↦ (k, v) ∷ []
  | none ↦ ("row", text "unknown") ∷ []
]

abbrev pub event_name : EventType → String
event_name insert = "INSERT"
event_name update = "UPDATE"
event_name remove = "DELETE"
event_name ddl = "DDL"
event_name no_action = ""

unfoldable pub has_before : EventType → Bool
has_before update = true
has_before remove = true
has_before a = false

unfoldable pub has_after : EventType → Bool
has_after insert = true
has_after update = true
has_after a = false

module _ (c : Codec) where
  -- enc:<version>:<base64-ciphertext>
  unfoldable pub sealed_value :
      (String → Bytes → Result (Bytes × String)) → String → Value → Result Value
  sealed_value encrypt k v = do
    plaintext ← marshalled "failed to marshal column for encryption" (c.marshal_value v)
    sealed ← wrap "failed to encrypt column" (encrypt k plaintext)
    ok (text (append "enc:" (append sealed.1 (append ":" (c.base64_encode sealed.0)))))

  unfoldable pub process_value : List String → String → Value → Result Value
  process_value columns k v = elim c.encryptor [
    | none ↦ ok v
    | some encrypt ↦
        if is_listed k columns && not (is_null v) then sealed_value encrypt k v else ok v
  ]

  -- The names of a Go map are distinct, so each column is written once.
  unfoldable pub process_row : List String → Row → Result Row
  process_row columns [] = ok []
  process_row columns ((k, v) ∷ row) = do
    v' ← process_value columns k v
    out ← process_row columns row
    ok ((k, v') ∷ out)

  -- An image that does not count, or is nil, gives no bytes.
  unfoldable pub image : String → String → Bool → List String → Option Row → Result String
  image processing marshalling counts columns none = ok ""
  image processing marshalling false columns (some row) = ok ""
  image processing marshalling true columns (some row) = do
    out ← wrap processing (process_row columns row)
    marshalled marshalling (c.marshal_row out)

  unfoldable pub extract_primary_key : Option Row → Option Row → Result String
  extract_primary_key before after =
      marshalled "failed to extract primary key" (c.marshal_row (key_row (source_row before after)))

  -- The names, each with a semicolon.
  unfoldable pub joined : List String → Bytes
  joined [] = []
  joined (k ∷ ks) = c.utf8 k ++ 59 ∷ joined ks

  -- Sixteen hexadecimal digits are eight bytes.
  unfoldable pub schema_hash : Row → String
  schema_hash row = hex_encode (take 8 (c.sha256 (joined (sort_strings (columns_of row)))))

  unfoldable pub compute_schema_version : Option Row → Option Row → String
  compute_schema_version before after = elim (source_row before after) [
    | none ↦ "v0"
    | some row ↦ schema_hash row
  ]

  -- `fresh_id` is the new UUID.
  unfoldable pub build_record :
      String → RowChange → TableConfig → ActorAttribution → String → ℕ → ℕ → Result Record
  build_record fresh_id change cfg attr tx_id committed_at leaf_index = do
    before ←
        image "failed to process before image" "failed to marshal before image"
          (has_before change.action) cfg.encrypted_columns change.before_image
    after ←
        image "failed to process after image" "failed to marshal after image"
          (has_after change.action) cfg.encrypted_columns change.after_image
    key ← extract_primary_key change.before_image change.after_image
    ok (record {
      id = fresh_id;
      batch_id = "";
      table_name = change.table;
      primary_key = key;
      event_type = event_name change.action;
      before_image = before;
      after_image = after;
      actor_user_id = attr.actor_user_id;
      actor_type = attr.actor_type;
      transaction_id = tx_id;
      schema_version = compute_schema_version change.before_image change.after_image;
      committed_at = committed_at;
      merkle_leaf_index = leaf_index;
    })
