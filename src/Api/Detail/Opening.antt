-- ===== src/Api/Detail/Opening.antt =====
-- What decryptMap of internal/api/handlers.go gives back.
use Prim.Native.Char.{Char}
use Prim.Native.String.append
use logs_tracker.Prelude.{
  String, append, eq_iff, ◌≡◌, ◌≢◌, refl, ap, ◌∙◌, true, false, none, some, Option-cases, List, [],
  ◌∷◌, inl, inr, str_eq, Bool-cases, arith, length,
}
use logs_tracker.Prelude.Dict.{get}
use logs_tracker.Prelude.Text.{starts_with}
use logs_tracker.Errors.{Result, ok}
use logs_tracker.Source.{Value, null, text, Row}
use logs_tracker.Merkle.{Bytes}
use logs_tracker.Store.{Record}
use logs_tracker.Signing.{Crypto, LocalKeyManager, encrypt, decrypt}
use logs_tracker.Signing.Keys.{decrypt-version}
use logs_tracker.Snapshot.{Codec, is_listed, process_row}
use logs_tracker.Snapshot.Encryption.{process_row-decrypt}
use logs_tracker.Api.Detail.{
  cut, split_three, Opener, plain_value, open_bytes, open_parts, open_value, decrypt_map,
  decrypt_image, decrypt_record_fields, shown, detail_answer, get_record_detail,
}

cons : (c : Char) (s t : String) → append (String.◌∷◌ c s) t ≡ String.◌∷◌ c (append s t)
cons c s t = append.cons c s t

nil : (t : String) → append String.[] t ≡ t
nil t = append.nil t

tag :
    (x : String)
    → append "enc:" x ≡ String.◌∷◌ "e" (String.◌∷◌ "n" (String.◌∷◌ "c" (String.◌∷◌ ":" x)))
tag x =
    cons "e" "nc:" x
    ∙ ap (String.◌∷◌ "e") (
        cons "n" "c:" x
        ∙ ap (String.◌∷◌ "n")
            (cons "c" ":" x ∙ ap (String.◌∷◌ "c") (cons ":" "" x ∙ ap (String.◌∷◌ ":") (nil x))))

starts_with-sealed : (x : String) → starts_with (append "enc:" x) "enc:" ≡ true
unfolding starts_with
starts_with-sealed x = ap (λ s. starts_with s "enc:") (tag x)

cut-tag : (x : String) → cut (append "enc:" x) ≡ some ("enc", x)
unfolding cut
cut-tag x = ap cut (tag x)

cut-append : (v b : String) → cut v ≡ none → cut (append v (append ":" b)) ≡ some (v, b)
unfolding cut
cut-append String.[] b n = ap cut (nil (append ":" b) ∙ cons ":" "" b ∙ ap (String.◌∷◌ ":") (nil b))
cut-append (String.◌∷◌ c v) b n =
    ap cut (cons c v (append ":" b)) ∙ (elim (Bool-cases (str_eq (String.◌∷◌ c String.[]) ":")) [
      | inl t ↦ cc (rw (cut, t) at n)
      | inr f ↦ elim (Option-cases (cut v)) [
        | inl e ↦ rw (f, cut-append v b e) refl
        | inr ((a, r), e) ↦ cc (rw (cut, f, e) at n)
      ]
    ])

-- A text as the snapshot builder seals it.
abbrev sealed_text : String → String → String
sealed_text version b = append "enc:" (append version (append ":" b))

split_three-sealed :
    (version b : String)
    → cut version ≡ none
    → split_three (sealed_text version b) ≡ some ("enc", version, b)
unfolding split_three
split_three-sealed version b n =
    rw (split_three, cut-tag (append version (append ":" b)), cut-append version b n) refl

module _ (o : Opener) where
  open_value-sealed :
      (version b : String) (cipher_bytes plain : Bytes)
      → cut version ≡ none
      → o.base64_decode b ≡ some cipher_bytes
      → o.decrypt cipher_bytes version ≡ ok plain
      → open_value o (text (sealed_text version b)) ≡ plain_value o plain
  unfolding open_value open_parts open_bytes
  open_value-sealed version b cipher_bytes plain n decoded opened =
      rw
        (
          starts_with-sealed (append version (append ":" b)),
          split_three-sealed version b n,
          decoded,
          open_bytes,
          opened,
        )
        refl

  decrypt_map-get :
      (k : String) (v : Value) (row : Row)
      → get k row ≡ some v
      → get k (decrypt_map o row) ≡ some (open_value o v)
  unfolding decrypt_map get
  decrypt_map-get k v [] e = cc
  decrypt_map-get k v ((j, u) ∷ row) e = elim (Bool-cases (str_eq j k)) [
    | inl t ↦ rw t (
        let same : some u ≡ some v = (rw (get, t) at e) in
        let u_is : u ≡ v = cc in ap (λ x. some (open_value o x)) u_is)
    | inr f ↦ rw f (decrypt_map-get k v row (rw (get, f) at e))
  ]

-- A record's detail with decryption shows an after image in which a listed column has the value that it
-- had in the row that the builder was given, if the value is not null and JSON gives it back, the
-- stored image decodes to the processed row, the builder and the handler use one key manager whose
-- version has no colon, base64 and AES-GCM give back what they were given, and the column's nonce has
-- the size of the cipher's.
pub get_record_detail-decrypt :
    (c : Codec) (crypto : Crypto) (m : LocalKeyManager) (nonce : String → Bytes) (o : Opener)
    (columns : List String) (k : String) (v : Value) (row out : Row) (find : String → Result Record)
    (a b id : String) (rest : List String) (rec : Record)
    → c.encryptor ≡ some (λ j p. encrypt crypto m (nonce j) p)
    → ((key n p : Bytes) → crypto.open_sealed key n (crypto.seal key n p) ≡ some p)
    → length (nonce k) ≡ crypto.nonce_size
    → cut m.version ≡ none
    → ((s : Bytes) (version : String) → o.decrypt s version ≡ decrypt crypto m s version)
    → ((s : Bytes) → o.base64_decode (c.base64_encode s) ≡ some s)
    → ((p : Bytes) → c.marshal_value v ≡ some p → o.unmarshal_value p ≡ some v)
    → is_listed k columns ≡ true
    → v ≢ null
    → get k row ≡ some v
    → process_row c columns row ≡ ok out
    → find id ≡ ok rec
    → rec.after_image ≢ ""
    → o.unmarshal_image rec.after_image ≡ some out
    → (seen : Row) × (get k seen ≡ some v)
      × (get_record_detail find (some o) true (a ∷ b ∷ id ∷ rest)
          ≡ shown (record rec {
            before_image = decrypt_image o rec.before_image;
            after_image = o.marshal_image seen;
          }))
unfolding get_record_detail detail_answer decrypt_record_fields decrypt_image plain_value
get_record_detail-decrypt c crypto m nonce o columns k v row out find a b id rest rec enc opens size
      plain_version one_manager decodes parses listed n e p found nonempty image =
    let (plain, s, version, marshals, sealed, decrypted) =
      process_row-decrypt c crypto m nonce columns k v row out enc opens size listed n e p in
    let uncut : cut version ≡ none =
      ap cut (decrypt-version crypto m s version plain decrypted) ∙ plain_version in
    let value : plain_value o plain ≡ v = rw (plain_value, parses plain marshals) refl in
    let opened =
      open_value-sealed o version (c.base64_encode s) s plain uncut (decodes s)
        (one_manager s version ∙ decrypted) in
    let filled : str_eq rec.after_image "" ≡ false = ground (arith, eq_iff rec.after_image "") in
    (
      decrypt_map o out,
      decrypt_map-get o k _ out sealed ∙ ap some (opened ∙ value),
      rw (found, filled, image) refl,
    )
