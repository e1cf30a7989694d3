-- ===== src/Errors.antt =====
-- Go's errors: the sentinels of internal/store, internal/archive and internal/signing, errors with
-- a text only, and `fmt.Errorf` with `%w`, which keeps the error that it wraps.
use logs_tracker.Prelude.{String, ◌≡◌, ◌⊎◌, inl, inr, refl, Bool, true, false}

pub data GoError : Type 0 where
  not_found : GoError
  object_exists object_not_found invalid_key : GoError
  invalid_passphrase key_not_found decryption_failed : GoError
  index_out_of_range : GoError
  failure : String → GoError
  wrapped : String → GoError → GoError

-- `errors.Is(err, ErrNotFound)`
unfoldable pub is_not_found : GoError → Bool
is_not_found not_found = true
is_not_found (wrapped text e) = is_not_found e
is_not_found e = false

pub data Result {ℓ} (A : Type ℓ) : Type ℓ where
  ok : A → Result A
  err : GoError → Result A

infixl 5 ◌>>=◌
abbrev pub ◌>>=◌ {ℓ κ} : {A : Type ℓ} {B : Type κ} → Result A → (A → Result B) → Result B
ok a >>= f = f a
err e >>= f = err e

-- `if err != nil { return fmt.Errorf(text+": %w", err) }`
abbrev pub wrap {ℓ} : {A : Type ℓ} → String → Result A → Result A
wrap text (ok a) = ok a
wrap text (err e) = err (wrapped text e)

pub ok-injective {ℓ} : {A : Type ℓ} {a b : A} → ok a ≡ ok b → a ≡ b
ok-injective e = cc

pub Result-cases {ℓ} :
    {A : Type ℓ} (r : Result A) → ((a : A) × (r ≡ ok a)) ⊎ ((e : GoError) × (r ≡ err e))
Result-cases (ok a) = inl (a, refl)
Result-cases (err e) = inr (e, refl)
