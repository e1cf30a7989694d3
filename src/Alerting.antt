-- ===== src/Alerting.antt =====
-- internal/alerting/alerting.go: alerts, the sink that keeps them, and the dispatcher with its rate
-- limit. Another sink is the list of the alerts that were sent to it; its errors are ignored.
pub mod RateLimit
pub mod Acknowledge
use logs_tracker.Prelude.{
  ℕ, ◌+◌, String, append, Bool, true, false, Option, none, some, List, [], ◌∷◌, ◌++◌, map, str_eq,
  ltb, if◌then◌else◌,
}
use logs_tracker.Prelude.Dict.{Dict, get, put}

pub record Alert : Type 0 where
  pub id : String
  pub trigger : String
  pub severity : String
  pub table_name : String
  pub record_id : String
  pub transaction_id : String
  pub timestamp : ℕ
  pub message : String
  pub acknowledged : Bool

-- `MemorySink`
pub record MemorySink : Type 0 where
  pub alerts : List Alert

unfoldable pub send : Alert → MemorySink → MemorySink
send a m = record { alerts = m.alerts ++ a ∷ [] }

unfoldable pub get_alerts : MemorySink → List Alert
get_alerts m = m.alerts

acknowledge_in : String → List Alert → List Alert × Bool
acknowledge_in id [] = ([], false)
acknowledge_in id (a ∷ rest) =
    let (rest', found) = acknowledge_in id rest in
    if str_eq a.id id then (record a { acknowledged = true } ∷ rest, true) else (a ∷ rest', found)

unfoldable pub acknowledge : String → MemorySink → MemorySink × Bool
unfolding acknowledge_in
acknowledge id m =
    let (alerts, found) = acknowledge_in id m.alerts in (record { alerts = alerts }, found)

pub record Dispatcher : Type 0 where
  pub memory_sink : MemorySink
  pub other_sinks : List (List Alert)
  pub rate_limiter : Dict ℕ
  pub cooldown : ℕ

-- The sinks beside the memory sink start empty.
abbrev pub new_dispatcher : ℕ → List (List Alert) → Dispatcher
new_dispatcher cooldown sinks = record {
  memory_sink = record { alerts = [] };
  other_sinks = sinks;
  rate_limiter = [];
  cooldown = cooldown;
}

-- The arguments of `Trigger`, with what it reads of the clock (for the test of the rate limit, the
-- new entry and the alert's time) and the fresh identifier.
pub record Request : Type 0 where
  pub trigger : String
  pub severity : String
  pub table_name : String
  pub record_id : String
  pub transaction_id : String
  pub message : String
  pub tested_at : ℕ
  pub stamped_at : ℕ
  pub raised_at : ℕ
  pub fresh_id : String

unfoldable pub rate_key : Request → String
rate_key q = append q.trigger (append ":" q.table_name)

-- `exists && time.Since(lastSent) < cooldown`
unfoldable pub is_suppressed : Option ℕ → ℕ → ℕ → Bool
is_suppressed none now cooldown = false
is_suppressed (some last) now cooldown = ltb now (last + cooldown)

abbrev pub alert_of : Request → Alert
alert_of q = record {
  id = q.fresh_id;
  trigger = q.trigger;
  severity = q.severity;
  table_name = q.table_name;
  record_id = q.record_id;
  transaction_id = q.transaction_id;
  timestamp = q.raised_at;
  message = q.message;
  acknowledged = false;
}

unfoldable pub trigger : Request → Dispatcher → Dispatcher × Option Alert
unfolding send
trigger q d =
    if is_suppressed (get (rate_key q) d.rate_limiter) q.tested_at d.cooldown then (d, none) else (
      record d {
        memory_sink = send (alert_of q) d.memory_sink;
        other_sinks = map (λ (sent : List Alert). sent ++ alert_of q ∷ []) d.other_sinks;
        rate_limiter = put (rate_key q) q.stamped_at d.rate_limiter;
      },
      some (alert_of q),
    )

-- A history of requests.
unfoldable pub trigger_all : List Request → Dispatcher → Dispatcher
trigger_all [] d = d
trigger_all (q ∷ qs) d = trigger_all qs (trigger q d).0
