-- ===== src/Attribution.antt =====
-- internal/attribution/attribution.go: who made a transaction's changes, and whether to alert.
pub mod Policy
use logs_tracker.Prelude.{
  String, append, Bool, true, false, ◌&&◌, not, Option, none, some, List, [], ◌∷◌, str_eq,
  if◌then◌else◌,
}
use logs_tracker.Prelude.Dict.{get}
use logs_tracker.Source.{EventType, insert, Row, RowChange, Transaction}
use logs_tracker.Config.{TableConfig, Manager, get_table_config, text_or}

pub record ActorAttribution : Type 0 where
  pub actor_user_id : Option String
  pub actor_type : String
  pub request_id : String
  pub trigger_alert : Bool
  pub severity_tier : String
  pub reason : String

is_insert : EventType → Bool
is_insert insert = true
is_insert a = false

-- The row of an insert into the context table.
unfoldable pub context_row : RowChange → Option Row
unfolding is_insert
context_row change =
    if str_eq change.table "_audit_context" && is_insert change.action
    then change.after_image
    else none

or_default : String → String → String
or_default d s = if str_eq s "" then d else s

-- The attribution that a context row gives: none without a user.
unfoldable pub actor_of_row : Option Row → Option ActorAttribution
unfolding or_default
actor_of_row none = none
actor_of_row (some row) =
    let user = text_or "" (get "user_id" row) in
    if str_eq user ""
    then none
    else some (record {
      actor_user_id = some user;
      actor_type = or_default "USER" (text_or "" (get "actor_type" row));
      request_id = text_or "" (get "request_id" row);
      trigger_alert = false;
      severity_tier = "";
      reason = "";
    })

-- The loop over the changes returns at the first context row with a user.
unfoldable pub find_actor : List RowChange → Option ActorAttribution
find_actor [] = none
find_actor (change ∷ rest) = elim (actor_of_row (context_row change)) [
  | some a ↦ some a
  | none ↦ find_actor rest
]

abbrev pub tolerated : ActorAttribution
tolerated = record {
  actor_user_id = none;
  actor_type = "SYSTEM";
  request_id = "";
  trigger_alert = false;
  severity_tier = "";
  reason = "unattributed change tolerated by policy";
}

alerting : String → String → ActorAttribution
alerting table severity = record {
  actor_user_id = none;
  actor_type = "UNATTRIBUTED";
  request_id = "";
  trigger_alert = true;
  severity_tier = severity;
  reason =
      append "unattributed change on strict table "
        (append table (append " (severity: " (append severity ")")));
}

-- No context row: the table's policy decides.
unfoldable pub by_policy : String → Option TableConfig → ActorAttribution
unfolding or_default alerting
by_policy table none = tolerated
by_policy table (some cfg) =
    if str_eq cfg.unattributed_policy "tolerate"
    then tolerated
    else alerting table (or_default "normal" cfg.severity_tier)

unfoldable pub correlate_transaction : Manager → Transaction → String → ActorAttribution
correlate_transaction m tx table = elim (find_actor tx.changes) [
  | some a ↦ a
  | none ↦ by_policy table (get_table_config table m)
]
