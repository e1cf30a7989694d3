-- ===== src/Examples/Services.antt =====
-- The theorems on internal/alerting and internal/archive at small inputs.
use logs_tracker.Prelude.{ℕ, arith, String, ◌≡◌, refl, true, none, some, [], ◌∷◌}
use logs_tracker.Prelude.Dict.{get}
use logs_tracker.Errors.{failure, ok}
use logs_tracker.Alerting.{
  Dispatcher, new_dispatcher, Request, is_suppressed, alert_of, rate_key, trigger, trigger_all,
}
use logs_tracker.Alerting.RateLimit.{trigger-within_cooldown}
use logs_tracker.Archive.{File, Files, Disk, write_immutable}
use logs_tracker.Archive.WriteOnce.{
  Outcome, GivesFreshName, write_immutable_lem, write_immutable-keeps,
}

abbrev request : String → ℕ → Request
request id now = record {
  trigger = "unattributed_change";
  severity = "high";
  table_name = "orders";
  record_id = "r1";
  transaction_id = "xid:7";
  message = "";
  tested_at = now;
  stamped_at = now;
  raised_at = now;
  fresh_id = id;
}

abbrev dispatcher : Dispatcher
dispatcher = new_dispatcher 60 []

raised : (trigger (request "a1" 100) dispatcher).1 ≡ some (alert_of (request "a1" 100))
unfolding trigger is_suppressed get
raised = refl

trigger-within_cooldown_example :
    trigger
      (request "a2" 130)
      (trigger_all (request "a3" 110 ∷ []) (trigger (request "a1" 100) dispatcher).0)
    ≡ (trigger_all (request "a3" 110 ∷ []) (trigger (request "a1" 100) dispatcher).0, none)
unfolding rate_key
trigger-within_cooldown_example =
    trigger-within_cooldown (request "a1" 100) (request "a2" 130) (request "a3" 110 ∷ []) dispatcher
      raised refl (omega arith, tt) (omega arith)

-- An archive with one checkpoint; `os.Chmod` and `os.Remove` fail.
abbrev checkpoint : File
checkpoint = record { content = 1 ∷ []; read_only = true }

abbrev files : Files
files = ("checkpoints/b1.json", checkpoint) ∷ []

abbrev disk : Disk
disk = record {
  stat = none;
  create_temp = ok "checkpoints/worm-tmp-1";
  write = none;
  sync = none;
  close = none;
  rename = none;
  chmod = some (failure "operation not permitted");
  remove = some (failure "operation not permitted");
}

gives_fresh_name : GivesFreshName disk files
unfolding get
gives_fresh_name temp e = let q : "checkpoints/worm-tmp-1" ≡ temp = cc in rw (← q) refl

second-absent : get "checkpoints/b2.json" files ≡ none
unfolding get
second-absent = refl

first-present : get "checkpoints/b1.json" files ≡ some checkpoint
unfolding get
first-present = refl

write_immutable_lem_example :
    Outcome disk "checkpoints/b2.json"
      (2 ∷ [])
      files
      (write_immutable disk "checkpoints/b2.json" (2 ∷ []) files)
write_immutable_lem_example =
    write_immutable_lem disk "checkpoints/b2.json" (2 ∷ []) files (λ k. second-absent)
      gives_fresh_name

write_immutable-keeps_example :
    get "checkpoints/b1.json" (write_immutable disk "checkpoints/b1.json" (2 ∷ []) files).0
    ≡ some checkpoint
write_immutable-keeps_example =
    write_immutable-keeps disk "checkpoints/b1.json" (2 ∷ []) files "checkpoints/b1.json" checkpoint
      first-present refl gives_fresh_name
