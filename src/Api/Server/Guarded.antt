-- ===== src/Api/Server/Guarded.antt =====
-- What the server of internal/api/server.go answers to whom.
use logs_tracker.Prelude.{
  ℕ, String, Bool, ◌||◌, ◌≡◌, ◌⊎◌, inl, inr, refl, true, false, not, ◌&&◌, Option, none, some, List,
  Occurs, str_eq, if◌then◌else◌, if_cases,
}
use logs_tracker.Prelude.Text.{ends_with}
use logs_tracker.Prelude.Int.{ℤ}
use logs_tracker.Merkle.{Bytes}
use logs_tracker.Errors.{GoError, is_not_found, Result, ok, err}
use logs_tracker.Merkle.Verifier.{VerificationResult}
use logs_tracker.Store.{Batch, Record}
use logs_tracker.Alerting.{MemorySink, acknowledge}
use logs_tracker.Api.{
  Permission, record_read, batch_read, verification_read, config_read, alert_ack, Access,
  unauthorized, invalid_token, missing_permission, served, rbac_middleware, trim_prefix,
}
use logs_tracker.Api.Permissions.{rbac_middleware-served}
use logs_tracker.Api.Handlers.{
  Response, health_ok, portal, page_not_found, post_required, redirected, denied, proof_checked,
  key_failed, active_key, roots_failed, roots_page, parameters_required, id_required,
  records_failed, records_page, record_detail, verification_failed, verification, batch_not_found,
  batch_failed, batch_shown, configs_page, alert_not_found, acknowledged, get_records,
  records_answer, verify_record_by_id, verification_answer, get_batch_by_id, batch_answer,
  acknowledge_alert, acknowledged_in, public_keys, public_roots, roots_answer,
}
use logs_tracker.Api.Server.{
  Request, Backend, Route, health, verify_portal, root, keys, roots, verify_proof, records,
  record_below, batches, config, alerts, find_route, lacks_slash, guarded, wrap_rbac, record_route,
  handle, serve,
}

-- The permission that an answer wants: those of the audit log and of its configuration want one.
abbrev pub wanted : Response → Option Permission
wanted (health_ok now) = none
wanted portal = none
wanted page_not_found = none
wanted post_required = none
wanted (redirected path) = none
wanted (denied a) = none
wanted (proof_checked a) = none
wanted key_failed = none
wanted (active_key a b) = none
wanted (roots_failed e) = none
wanted (roots_page rs limit offset) = none
wanted parameters_required = none
wanted id_required = none
wanted (records_failed e) = some record_read
wanted (records_page rs limit offset) = some record_read
wanted (record_detail d) = some record_read
wanted (verification_failed e) = some verification_read
wanted (verification r) = some verification_read
wanted batch_not_found = some batch_read
wanted (batch_failed e) = some batch_read
wanted (batch_shown b) = some batch_read
wanted (configs_page cs) = some config_read
wanted alert_not_found = some alert_ack
wanted (acknowledged id) = some alert_ack

-- An answer for everybody, which changes nothing.
abbrev pub IsOpen : Option MemorySink → Option MemorySink × Response → Type 0
IsOpen sink result = (wanted result.1 ≡ none) × (result.0 ≡ sink)

-- An answer that wants a permission; only with that of alerts anything may change.
abbrev pub Wants : Option MemorySink → Permission → Option MemorySink × Response → Type 0
Wants sink p result = (wanted result.1 ≡ some p) × ((p ≡ alert_ack) ⊎ (result.0 ≡ sink))

abbrev pub Handled : Option MemorySink → Permission → Option MemorySink × Response → Type 0
Handled sink p result = IsOpen sink result ⊎ Wants sink p result

acknowledged_in-Handled :
    (sink : Option MemorySink) (id : String) (r : MemorySink × Bool)
    → Handled sink alert_ack (acknowledged_in id r)
unfolding acknowledged_in
acknowledged_in-Handled sink id (m, true) = inr (refl, inl refl)
acknowledged_in-Handled sink id (m, false) = inr (refl, inl refl)

acknowledge_alert-Handled :
    (sink : Option MemorySink) (id : Option String)
    → Handled sink alert_ack (acknowledge_alert sink id)
unfolding acknowledge_alert
acknowledge_alert-Handled sink none = inl (refl, refl)
acknowledge_alert-Handled none (some id) = inr (refl, inl refl)
acknowledge_alert-Handled (some m) (some id) =
    acknowledged_in-Handled (some m) id (acknowledge id m)

module _ (s : Backend) (q : Request) (sink : Option MemorySink) where
  -- The caller is known by its token, and has the permission.
  abbrev pub Holds : Permission → Type 0
  Holds p =
      (caller : String) × (perms : List Permission) × (s.validate
          (s.trim_space (trim_prefix q.authorization "Bearer "))
        ≡ some (caller, perms))
      × Occurs p perms

  abbrev pub Outcome : Option MemorySink × Response → Type 0
  Outcome result = IsOpen sink result ⊎ ((p : Permission) × Holds p × Wants sink p result)

  guarded-Outcome :
      (p : Permission) (handled : Option MemorySink × Response) (a : Access)
      → ((caller : String) (perms : List Permission) → a ≡ served caller perms → Holds p)
      → Handled sink p handled
      → Outcome (guarded sink handled a)
  unfolding guarded
  guarded-Outcome p handled (served caller perms) h (inl public) = inl public
  guarded-Outcome p handled (served caller perms) h (inr wants) =
      inr (p, h caller perms refl, wants)
  guarded-Outcome p handled unauthorized h k = inl (refl, refl)
  guarded-Outcome p handled invalid_token h k = inl (refl, refl)
  guarded-Outcome p handled (missing_permission r) h k = inl (refl, refl)

  wrap_rbac-Outcome :
      (p : Permission) (handled : Option MemorySink × Response)
      → Handled sink p handled
      → Outcome (wrap_rbac s q sink p handled)
  unfolding wrap_rbac
  wrap_rbac-Outcome p handled k =
      guarded-Outcome p handled (rbac_middleware s.trim_space s.validate p q.authorization)
        (λ caller perms e.
          let (nonempty, valid, holds) =
            rbac_middleware-served s.trim_space s.validate p q.authorization caller perms e in
          (caller, perms, valid, holds))
        k

  records_answer-Handled :
      (limit : ℕ) (offset : ℤ) (o : Result (List Record))
      → Handled sink record_read (sink, records_answer limit offset o)
  unfolding records_answer
  records_answer-Handled limit offset (err e) = inr (refl, inr refl)
  records_answer-Handled limit offset (ok rs) = inr (refl, inr refl)

  pub get_records-Handled :
      Handled sink record_read
        (sink, get_records s.records_by_key q.table q.primary_key q.limit q.offset)
  unfolding get_records
  get_records-Handled =
      if_cases (λ r. Handled sink record_read (sink, r))
        (str_eq q.table "" || str_eq q.primary_key "") parameters_required _ (λ e. inl (refl, refl))
        (λ e. records_answer-Handled _ _ _)

  verification_answer-Handled :
      (r : VerificationResult × Option GoError)
      → Handled sink verification_read (sink, verification_answer r)
  unfolding verification_answer
  verification_answer-Handled (r, none) = inr (refl, inr refl)
  verification_answer-Handled (r, some e) = inr (refl, inr refl)

  pub verify_record_by_id-Handled :
      (id : Option String)
      → Handled sink verification_read (sink, verify_record_by_id s.verify_record id)
  unfolding verify_record_by_id
  verify_record_by_id-Handled none = inl (refl, refl)
  verify_record_by_id-Handled (some id) = verification_answer-Handled (s.verify_record id)

  batch_answer-Handled :
      (o : Result Batch) → Handled sink batch_read (sink, batch_answer s.rfc3339 o)
  unfolding batch_answer
  batch_answer-Handled (ok b) = inr (refl, inr refl)
  batch_answer-Handled (err e) =
      if_cases (λ r. Handled sink batch_read (sink, r)) (is_not_found e) batch_not_found
        (batch_failed e) (λ t. inr (refl, inr refl)) (λ f. inr (refl, inr refl))

  pub get_batch_by_id-Handled :
      (id : Option String)
      → Handled sink batch_read (sink, get_batch_by_id s.rfc3339 s.find_batch id)
  unfolding get_batch_by_id
  get_batch_by_id-Handled none = inl (refl, refl)
  get_batch_by_id-Handled (some id) = batch_answer-Handled (s.find_batch id)

  pub public_keys-IsOpen : (o : Result Bytes) → IsOpen sink (sink, public_keys s.base64_encode o)
  unfolding public_keys
  public_keys-IsOpen (err e) = (refl, refl)
  public_keys-IsOpen (ok key) = (refl, refl)

  pub roots_answer-IsOpen :
      (limit : ℕ) (offset : ℤ) (o : Result (List Batch))
      → IsOpen sink (sink, roots_answer s.rfc3339 limit offset o)
  unfolding roots_answer
  roots_answer-IsOpen limit offset (err e) = (refl, refl)
  roots_answer-IsOpen limit offset (ok bs) = (refl, refl)

  either-Outcome :
      (b : Bool) (x y : Response)
      → IsOpen sink (sink, x)
      → IsOpen sink (sink, y)
      → Outcome (sink, if b then x else y)
  either-Outcome true x y h k = inl h
  either-Outcome false x y h k = inl k

  handle-Outcome : (r : Route) → Outcome (handle s q sink r)
  unfolding handle record_route public_roots
  handle-Outcome health = inl (refl, refl)
  handle-Outcome verify_portal = inl (refl, refl)
  handle-Outcome root =
      either-Outcome (str_eq q.path "/") portal page_not_found (refl, refl) (refl, refl)
  handle-Outcome keys = inl (public_keys-IsOpen (s.public_key ""))
  handle-Outcome roots = inl (roots_answer-IsOpen _ _ _)
  handle-Outcome verify_proof =
      either-Outcome (str_eq q.method "POST") _ post_required (refl, refl) (refl, refl)
  handle-Outcome records = wrap_rbac-Outcome record_read _ get_records-Handled
  handle-Outcome record_below =
      if_cases Outcome (ends_with q.path "/verify") _ _
        (λ t. wrap_rbac-Outcome verification_read _ (verify_record_by_id-Handled _))
        (λ f. wrap_rbac-Outcome record_read _ (inr (refl, inr refl)))
  handle-Outcome batches = wrap_rbac-Outcome batch_read _ (get_batch_by_id-Handled _)
  handle-Outcome config = wrap_rbac-Outcome config_read _ (inr (refl, inr refl))
  handle-Outcome alerts = wrap_rbac-Outcome alert_ack _ (acknowledge_alert-Handled sink _)

  -- Whatever is asked, the answer is one for everybody and acknowledges no alert, or it is one that
  -- wants a permission, which the caller that the token of the request stands for has; and only
  -- with the permission to acknowledge alerts is one acknowledged.
  pub serve_lem : Outcome (serve s q sink)
  unfolding serve
  serve_lem =
      if_cases Outcome
        (not (str_eq q.method "CONNECT") && not (str_eq (s.clean_path q.path) q.path)) _ _
        (λ t. inl (refl, refl))
        (λ f.
          if_cases Outcome (lacks_slash q.path) _ _ (λ t. inl (refl, refl))
            (λ g. handle-Outcome (find_route q.path)))
