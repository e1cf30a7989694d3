-- ===== src/Commands/ApiServer/Unconfigured.antt =====
-- The state that cmd/apiserver/main.go gives its handlers: a configuration manager that is never
-- loaded, and a sink that no dispatcher sends to.
use logs_tracker.Prelude.{
  String, ◌≡◌, ◌≢◌, inl, inr, refl, ap, sym, subst, Bool, true, false, not, ◌&&◌, Option, none,
  some, List, [], ◌∷◌, All, str_eq, if◌then◌else◌, if_cases,
}
use logs_tracker.Prelude.Text.{differs, ends_with}
use logs_tracker.Alerting.{MemorySink}
use logs_tracker.Alerting.Acknowledge.{acknowledge-empty}
use logs_tracker.Config.{get_all_configs}
use logs_tracker.Api.{
  Permission, record_read, batch_read, verification_read, config_read, alert_ack, Access,
  unauthorized, invalid_token, missing_permission, served,
}
use logs_tracker.Api.Handlers.{
  Response, portal, page_not_found, post_required, acknowledged, configs_page, acknowledge_alert,
  acknowledged_in, public_roots,
}
use logs_tracker.Api.Server.{
  Request, Backend, Route, health, verify_portal, root, keys, roots, verify_proof, records,
  record_below, batches, config, alerts, find_route, lacks_slash, guarded, wrap_rbac, record_route,
  handle, serve,
}
use logs_tracker.Api.Server.Guarded.{
  wanted, IsOpen, Handled, get_records-Handled, verify_record_by_id-Handled,
  get_batch_by_id-Handled, public_keys-IsOpen, roots_answer-IsOpen,
}
use logs_tracker.Commands.ApiServer.{World, Flags, backend, listens, start, answer_all}
use logs_tracker.Commands.ApiServer.Listening.{start-listens}

-- An answer that acknowledges no alert and shows no configuration.
abbrev pub IsEmpty : Response → Type 0
IsEmpty (acknowledged id) = ⊥
IsEmpty (configs_page cs) = cs ≡ []
IsEmpty r = Unit {0}

wanted-IsEmpty :
    (r : Response) (o : Option Permission)
    → wanted r ≡ o
    → o ≢ some config_read
    → o ≢ some alert_ack
    → IsEmpty r
wanted-IsEmpty (acknowledged id) o e h k = absurd (k (sym e))
wanted-IsEmpty (configs_page cs) o e h k = absurd (h (sym e))
wanted-IsEmpty r o e h k = tt

abbrev no_alerts : Option MemorySink
no_alerts = some (record { alerts = [] })

-- The answer is such a one, and still there is no alert.
abbrev StaysEmpty : Option MemorySink × Response → Type 0
StaysEmpty result = (result.0 ≡ no_alerts) × IsEmpty result.1

IsOpen-StaysEmpty :
    (result : Option MemorySink × Response) → IsOpen no_alerts result → StaysEmpty result
IsOpen-StaysEmpty result (public, same) =
    (same, wanted-IsEmpty result.1 none public (λ e. cc) (λ e. cc))

Handled-StaysEmpty :
    (p : Permission) (result : Option MemorySink × Response)
    → p ≢ config_read
    → p ≢ alert_ack
    → Handled no_alerts p result
    → StaysEmpty result
Handled-StaysEmpty p result h k (inl public) = IsOpen-StaysEmpty result public
Handled-StaysEmpty p result h k (inr (w, inl acks)) = absurd (k acks)
Handled-StaysEmpty p result h k (inr (w, inr same)) =
    (same, wanted-IsEmpty result.1 (some p) w (λ e. h cc) (λ e. k cc))

guarded-StaysEmpty :
    (handled : Option MemorySink × Response) (a : Access)
    → StaysEmpty handled
    → StaysEmpty (guarded no_alerts handled a)
unfolding guarded
guarded-StaysEmpty handled (served caller perms) h = h
guarded-StaysEmpty handled unauthorized h = (refl, tt)
guarded-StaysEmpty handled invalid_token h = (refl, tt)
guarded-StaysEmpty handled (missing_permission p) h = (refl, tt)

acknowledge_alert-StaysEmpty : (id : Option String) → StaysEmpty (acknowledge_alert no_alerts id)
unfolding acknowledge_alert acknowledged_in
acknowledge_alert-StaysEmpty none = (refl, tt)
acknowledge_alert-StaysEmpty (some id) = rw (acknowledge-empty id) (refl, tt)

either-StaysEmpty :
    (b : Bool) (x y : Response) → IsEmpty x → IsEmpty y → StaysEmpty (no_alerts, if b then x else y)
either-StaysEmpty true x y h k = (refl, h)
either-StaysEmpty false x y h k = (refl, k)

module _ (s : Backend) (unset : s.all_configs ≡ []) where
  wrap_rbac-StaysEmpty :
      (q : Request) (p : Permission) (handled : Option MemorySink × Response)
      → StaysEmpty handled
      → StaysEmpty (wrap_rbac s q no_alerts p handled)
  unfolding wrap_rbac
  wrap_rbac-StaysEmpty q p handled h = guarded-StaysEmpty handled _ h

  handle-StaysEmpty : (q : Request) (r : Route) → StaysEmpty (handle s q no_alerts r)
  unfolding handle record_route public_roots
  handle-StaysEmpty q health = (refl, tt)
  handle-StaysEmpty q verify_portal = (refl, tt)
  handle-StaysEmpty q root = either-StaysEmpty (str_eq q.path "/") portal page_not_found tt tt
  handle-StaysEmpty q keys =
      IsOpen-StaysEmpty _ (public_keys-IsOpen s q no_alerts (s.public_key ""))
  handle-StaysEmpty q roots = IsOpen-StaysEmpty _ (roots_answer-IsOpen s q no_alerts _ _ _)
  handle-StaysEmpty q verify_proof =
      either-StaysEmpty (str_eq q.method "POST") _ post_required tt tt
  handle-StaysEmpty q records = wrap_rbac-StaysEmpty q record_read _ (
      Handled-StaysEmpty record_read _ (differs record_read config_read refl)
        (differs record_read alert_ack refl) (get_records-Handled s q no_alerts))
  handle-StaysEmpty q record_below =
      if_cases StaysEmpty (ends_with q.path "/verify") _ _
        (λ t. wrap_rbac-StaysEmpty q verification_read _ (
          Handled-StaysEmpty verification_read _ (differs verification_read config_read refl)
            (differs verification_read alert_ack refl)
            (verify_record_by_id-Handled s q no_alerts _)))
        (λ f. wrap_rbac-StaysEmpty q record_read _ (refl, tt))
  handle-StaysEmpty q batches = wrap_rbac-StaysEmpty q batch_read _ (
      Handled-StaysEmpty batch_read _ (differs batch_read config_read refl)
        (differs batch_read alert_ack refl) (get_batch_by_id-Handled s q no_alerts _))
  handle-StaysEmpty q config = wrap_rbac-StaysEmpty q config_read _ (refl, unset)
  handle-StaysEmpty q alerts = wrap_rbac-StaysEmpty q alert_ack _ (acknowledge_alert-StaysEmpty _)

  serve-StaysEmpty : (q : Request) → StaysEmpty (serve s q no_alerts)
  unfolding serve
  serve-StaysEmpty q =
      if_cases StaysEmpty
        (not (str_eq q.method "CONNECT") && not (str_eq (s.clean_path q.path) q.path)) _ _
        (λ t. (refl, tt))
        (λ f.
          if_cases StaysEmpty (lacks_slash q.path) _ _ (λ t. (refl, tt))
            (λ g. handle-StaysEmpty q (find_route q.path)))

  answer_all-IsEmpty : (qs : List Request) → All IsEmpty (answer_all s qs no_alerts)
  unfolding answer_all
  answer_all-IsEmpty [] = tt
  answer_all-IsEmpty (q ∷ qs) =
      let (same, empty) = serve-StaysEmpty q in
      (empty, subst (λ sink. All IsEmpty (answer_all s qs sink)) (sym same) (answer_all-IsEmpty qs))

-- Whatever the server is asked after its start, it acknowledges no alert, and a list of
-- configurations that it answers is empty.
pub start-IsEmpty :
    (w : World) (f : Flags) (s : Backend) (sink : MemorySink) (qs : List Request)
    → start w f ≡ listens s sink
    → All IsEmpty (answer_all s qs (some sink))
unfolding backend get_all_configs
start-IsEmpty w f s sink qs e =
    let (url, m, built, fresh) = start-listens w f s sink e in
    let unset : s.all_configs ≡ [] = ap (λ (x : Backend). x.all_configs) (sym built) in
    subst (λ x. All IsEmpty (answer_all s qs (some x))) fresh (answer_all-IsEmpty s unset qs)
