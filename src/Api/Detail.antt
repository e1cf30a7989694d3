-- ===== src/Api/Detail.antt =====
-- GetRecordDetailHandler of internal/api/handlers.go: a record, with its encrypted columns opened on
-- demand. Base64, JSON, the encryptor and the split of the path are parameters.
pub mod Opening
use Prim.Native.String
use logs_tracker.Prelude.Text.{starts_with}
use logs_tracker.Prelude.{
  String, append, Bool, true, false, Option, none, some, List, [], ◌∷◌, str_eq, if◌then◌else◌, map,
}
use logs_tracker.Errors.{GoError, is_not_found, Result, ok, err}
use logs_tracker.Source.{Value, text, Row}
use logs_tracker.Merkle.{Bytes}
use logs_tracker.Store.{Record}

-- The text before the first colon, and the text after it.
unfoldable pub cut : String → Option (String × String)
cut String.[] = none
cut (String.◌∷◌ c s) =
    let later = cut s in
    if str_eq (String.◌∷◌ c String.[]) ":"
    then some (String.[], s)
    else elim later [ none ↦ none | some (a, b) ↦ some (String.◌∷◌ c a, b) ]

-- `strings.SplitN(s, ":", 3)`, if it has three parts.
unfoldable pub split_three : String → Option (String × String × String)
split_three s = elim (cut s) [
  | none ↦ none
  | some (a, r) ↦ elim (cut r) [ none ↦ none | some (b, c) ↦ some (a, b, c) ]
]

-- What JSON decoding does with an image and with an opened value, and the encryptor.
pub record Opener : Type 0 where
  pub base64_decode : String → Option Bytes
  pub decrypt : Bytes → String → Result Bytes
  pub unmarshal_value : Bytes → Option Value
  pub string_of : Bytes → String
  pub unmarshal_image : String → Option Row
  pub marshal_image : Row → String

module _ (o : Opener) where
  unfoldable pub plain_value : Bytes → Value
  plain_value plain = elim (o.unmarshal_value plain) [
    | some v ↦ v
    | none ↦ text (o.string_of plain)
  ]

  unfoldable pub open_bytes : String → String → Option Bytes → Value
  open_bytes s version none = text s
  open_bytes s version (some cipher_bytes) = elim (o.decrypt cipher_bytes version) [
    | err e ↦ text s
    | ok plain ↦ plain_value plain
  ]

  unfoldable pub open_parts : String → Option (String × String × String) → Value
  open_parts s none = text s
  open_parts s (some (tag, version, sealed)) = open_bytes s version (o.base64_decode sealed)

  -- One turn of the loop of `decryptMap`.
  unfoldable pub open_value : Value → Value
  open_value (text s) = if starts_with s "enc:" then open_parts s (split_three s) else text s
  open_value v = v

  unfoldable pub decrypt_map : Row → Row
  decrypt_map [] = []
  decrypt_map ((k, v) ∷ row) = (k, open_value v) ∷ decrypt_map row

  -- An image that is empty, is null or does not decode stays as it is.
  unfoldable pub decrypt_image : String → String
  decrypt_image image = if str_eq image "" then image else elim (o.unmarshal_image image) [
    | none ↦ image
    | some row ↦ o.marshal_image (decrypt_map row)
  ]

  unfoldable pub decrypt_record_fields : Record → Record
  decrypt_record_fields rec = record rec {
    before_image = decrypt_image rec.before_image;
    after_image = decrypt_image rec.after_image;
  }

pub data Detail : Type 0 where
  id_required : Detail
  record_not_found : Detail
  internal_error : GoError → Detail
  shown : Record → Detail

unfoldable pub detail_answer : Option Opener → Bool → Result Record → Detail
detail_answer opener wanted (err e) = if is_not_found e then record_not_found else internal_error e
detail_answer none wanted (ok rec) = shown rec
detail_answer (some o) wanted (ok rec) =
    if wanted then shown (decrypt_record_fields o rec) else shown rec

-- The handler, for the parts of the path, the encryptor, and whether `decrypt` is "true".
unfoldable pub get_record_detail :
    (String → Result Record) → Option Opener → Bool → List String → Detail
get_record_detail find opener wanted (a ∷ b ∷ id ∷ rest) = detail_answer opener wanted (find id)
get_record_detail find opener wanted parts = id_required
