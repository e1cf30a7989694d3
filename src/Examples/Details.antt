-- ===== src/Examples/Details.antt =====
-- The theorem on GetRecordDetailHandler of internal/api at an order with a customer's address.
use logs_tracker.Prelude.{String, ◌≡◌, refl, ap, true, none, some, [], ◌∷◌}
use logs_tracker.Prelude.Dict.{get}
use logs_tracker.Errors.{ok}
use logs_tracker.Source.{text, Row}
use logs_tracker.Merkle.{Bytes}
use logs_tracker.Store.{Record}
use logs_tracker.Signing.{encrypt, decrypt}
use logs_tracker.Snapshot.{Codec, is_listed, is_null, sealed_value, process_value, process_row}
use logs_tracker.Api.Detail.{Opener, cut, decrypt_image, shown, get_record_detail}
use logs_tracker.Api.Detail.Opening.{get_record_detail-decrypt}
use logs_tracker.Examples.Keys.{toy, manager, unary_encode, unary_decode, unary_decode-encode}

abbrev nonce : String → Bytes
nonce k = 5 ∷ []

abbrev codec : Codec
codec = record {
  encryptor = some (λ k p. encrypt toy manager (nonce k) p);
  marshal_value = λ v. some (1 ∷ []);
  marshal_row = λ r. some "{}";
  base64_encode = unary_encode;
  sha256 = λ m. 1 ∷ [];
  utf8 = λ s. [];
}

abbrev order_row : Row
order_row = ("id", text "o1") ∷ ("address", text "Main St 1") ∷ []

abbrev sealed_row : Row
sealed_row = ("id", text "o1") ∷ ("address", text "enc:v1:aaaaabab") ∷ []

abbrev pub opener : Opener
opener = record {
  base64_decode = λ s. some (unary_decode 0 s);
  decrypt = decrypt toy manager;
  unmarshal_value = λ p. some (text "Main St 1");
  string_of = λ p. "";
  unmarshal_image = λ s. some sealed_row;
  marshal_image = λ r. "{}";
}

abbrev kept : Record
kept = record {
  id = "r1";
  batch_id = "b1";
  table_name = "orders";
  primary_key = "{}";
  event_type = "INSERT";
  before_image = "";
  after_image = "{}";
  actor_user_id = none;
  actor_type = "SYSTEM";
  transaction_id = "xid:7";
  schema_version = "v1";
  committed_at = 1;
  merkle_leaf_index = 0;
}

row_sealed : process_row codec ("address" ∷ []) order_row ≡ ok sealed_row
unfolding process_row process_value sealed_value is_listed is_null encrypt
row_sealed = refl

listed : is_listed "address" ("address" ∷ []) ≡ true
unfolding is_listed
listed = refl

present : get "address" order_row ≡ some (text "Main St 1")
unfolding get
present = refl

one_part : cut manager.version ≡ none
unfolding cut
one_part = refl

get_record_detail-decrypt_example :
    (seen : Row) × (get "address" seen ≡ some (text "Main St 1"))
    × (get_record_detail (λ id. ok kept) (some opener) true ("v1" ∷ "records" ∷ "r1" ∷ [])
        ≡ shown (record kept {
          before_image = decrypt_image opener kept.before_image;
          after_image = opener.marshal_image seen;
        }))
get_record_detail-decrypt_example =
    get_record_detail-decrypt codec toy manager nonce opener ("address" ∷ []) "address"
      (text "Main St 1") order_row sealed_row (λ id. ok kept) "v1" "records" "r1" [] kept refl
      (λ key n p. refl) refl one_part (λ s version. refl) (λ s. ap some (unary_decode-encode s))
      (λ p e. refl) listed (λ e. cc) present row_sealed refl (λ e. cc) refl
