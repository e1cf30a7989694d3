-- ===== src/Snapshot/Encryption.antt =====
-- The images that internal/snapshot/snapshot.go stores: the listed columns can be decrypted, and the
-- others are as they were.
use logs_tracker.Prelude.{
  String, append, ◌≡◌, ◌≢◌, refl, ap, sym, ◌∙◌, subst, true, false, Bool-cases, none, some, List,
  [], ◌∷◌, arith, str_eq, eq_iff, inl, inr, length, Option-cases,
}
use logs_tracker.Prelude.Dict.{get}
use logs_tracker.Errors.{Result, ok, Result-cases, ok-injective}
use logs_tracker.Source.{Value, null, text, boolean, int64, bytes, items, other, Row}
use logs_tracker.Merkle.{Bytes}
use logs_tracker.Signing.{LocalKeyManager, Crypto, encrypt, decrypt}
use logs_tracker.Signing.Keys.{decrypt-encrypt}
use logs_tracker.Snapshot.{Codec, is_listed, is_null, sealed_value, process_value, process_row}

module _ (c : Codec) (columns : List String) where
  -- A row that is processed has each value processed.
  process_row-get :
      (k : String) (v : Value) (row out : Row)
      → process_row c columns row ≡ ok out
      → get k row ≡ some v
      → (w : Value) × (process_value c columns k v ≡ ok w) × (get k out ≡ some w)
  unfolding process_row get
  process_row-get k v [] out p e = cc
  process_row-get k v ((j, u) ∷ row) out p e = elim (Result-cases (process_value c columns j u)) [
    | inr (x, h) ↦ cc (rw (process_row, h) at p)
    | inl (u', h) ↦ elim (Result-cases (process_row c columns row)) [
      | inr (x, h') ↦ cc (rw (process_row, h, h') at p)
      | inl (rest, h') ↦
          let split : (j, u') ∷ rest ≡ out = ok-injective (rw (process_row, h, h') at p) in
          elim (Bool-cases (str_eq j k)) [
            | inl t ↦
                let j_is : j ≡ k = ground (arith, eq_iff j k) in
                let found : some u ≡ some v = (rw (get, t) at e) in
                let u_is : u ≡ v = cc in
                (
                  u',
                  subst (λ x. process_value c columns x v ≡ ok u') j_is
                      (subst (λ x. process_value c columns j x ≡ ok u') u_is h),
                  subst (λ o. get k o ≡ some u') split (rw (get, t) refl),
                )
            | inr f ↦
                let (w, valued, found) = process_row-get k v row rest h' (rw (get, f) at e) in
                (w, valued, subst (λ o. get k o ≡ some w) split (rw (get, f) found))
          ]
    ]
  ]

  process_row-get-none :
      (k : String) (row out : Row)
      → process_row c columns row ≡ ok out
      → get k row ≡ none
      → get k out ≡ none
  unfolding process_row get
  process_row-get-none k [] out p e = subst (λ o. get k o ≡ none) (ok-injective p) refl
  process_row-get-none k ((j, u) ∷ row) out p e =
      elim (Result-cases (process_value c columns j u)) [
        | inr (x, h) ↦ cc (rw (process_row, h) at p)
        | inl (u', h) ↦ elim (Result-cases (process_row c columns row)) [
          | inr (x, h') ↦ cc (rw (process_row, h, h') at p)
          | inl (rest, h') ↦
              let split : (j, u') ∷ rest ≡ out = ok-injective (rw (process_row, h, h') at p) in
              elim (Bool-cases (str_eq j k)) [
                | inl t ↦ cc (rw (get, t) at e)
                | inr f ↦
                    let missing = process_row-get-none k row rest h' (rw (get, f) at e) in
                    subst (λ o. get k o ≡ none) split (rw (get, f) missing)
              ]
        ]
      ]

  process_value-unlisted :
      (k : String) (v w : Value)
      → is_listed k columns ≡ false
      → process_value c columns k v ≡ ok w
      → v ≡ w
  unfolding process_value
  process_value-unlisted k v w n p = elim (Option-cases c.encryptor) [
    | inl e ↦ ok-injective (rw (process_value, e) at p)
    | inr (encryptor, e) ↦ ok-injective (rw (process_value, e, n) at p)
  ]

  -- A column that is not listed is stored as it was, and one that the row does not have is not
  -- stored, if the row can be processed.
  pub process_row-unlisted :
      (k : String) (row out : Row)
      → is_listed k columns ≡ false
      → process_row c columns row ≡ ok out
      → get k out ≡ get k row
  process_row-unlisted k row out n p = elim (Option-cases (get k row)) [
    | inl e ↦ process_row-get-none k row out p e ∙ sym e
    | inr (v, e) ↦
        let (w, valued, found) = process_row-get k v row out p e in
        found ∙ ap some (sym (process_value-unlisted k v w n valued)) ∙ sym e
  ]

is_null-false : (v : Value) → v ≢ null → is_null v ≡ false
unfolding is_null
is_null-false null n = absurd (n refl)
is_null-false (text s) n = refl
is_null-false (boolean b) n = refl
is_null-false (int64 i) n = refl
is_null-false (bytes b) n = refl
is_null-false (items vs) n = refl
is_null-false (other i) n = refl

sealed_value-inversion :
    (c : Codec) (encryptor : String → Bytes → Result (Bytes × String)) (k : String) (v w : Value)
    → sealed_value c encryptor k v ≡ ok w
    → (p : Bytes) × (s : Bytes) × (version : String) × (c.marshal_value v ≡ some p)
      × (encryptor k p ≡ ok (s, version))
      × (text (append "enc:" (append version (append ":" (c.base64_encode s)))) ≡ w)
unfolding sealed_value
sealed_value-inversion c encryptor k v w e = elim (Option-cases (c.marshal_value v)) [
  | inl n ↦ cc (rw (sealed_value, n) at e)
  | inr (p, m) ↦ elim (Result-cases (encryptor k p)) [
    | inr (x, h) ↦ cc (rw (sealed_value, m, h) at e)
    | inl ((s, version), h) ↦ (p, s, version, m, h, ok-injective (rw (sealed_value, m, h) at e))
  ]
]

-- A listed column that is not null is stored as `enc:`, a version and a ciphertext, and decrypting
-- the ciphertext for the version gives the JSON of the value, if the builder encrypts with the key
-- manager, AES-GCM opens what it sealed, and the column's nonce has the size of the cipher's.
pub process_row-decrypt :
    (c : Codec) (crypto : Crypto) (m : LocalKeyManager) (nonce : String → Bytes)
    (columns : List String) (k : String) (v : Value) (row out : Row)
    → c.encryptor ≡ some (λ j p. encrypt crypto m (nonce j) p)
    → ((key n p : Bytes) → crypto.open_sealed key n (crypto.seal key n p) ≡ some p)
    → length (nonce k) ≡ crypto.nonce_size
    → is_listed k columns ≡ true
    → v ≢ null
    → get k row ≡ some v
    → process_row c columns row ≡ ok out
    → (p : Bytes) × (s : Bytes) × (version : String) × (c.marshal_value v ≡ some p)
      × (get k out ≡ some (text (append "enc:" (append version (append ":" (c.base64_encode s))))))
      × (decrypt crypto m s version ≡ ok p)
unfolding process_value
process_row-decrypt c crypto m nonce columns k v row out enc opens size listed n e p =
    let (w, valued, found) = process_row-get c columns k v row out p e in
    let (plain, s, version, marshals, encrypts, same) =
      sealed_value-inversion c (λ j q. encrypt crypto m (nonce j) q) k v w
        (rw (process_value, enc, listed, is_null-false v n) at valued) in
    (
      plain,
      s,
      version,
      marshals,
      found ∙ ap some (sym same),
      decrypt-encrypt crypto m (nonce k) plain s version opens size encrypts,
    )
