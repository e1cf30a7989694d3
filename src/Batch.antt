-- ===== src/Batch.antt =====
-- internal/batch/batcher.go: the batcher buffers records, and closes a batch by building its tree,
-- signing the root, and persisting the batch and its checkpoint. What it calls is a record of
-- functions over a state of theirs.
pub mod Numbering
pub mod Closing
pub mod Sealing
pub mod Kept
pub mod Conservation
pub mod InMemory
pub mod Verified
use mathlib.Core.List.{foldl}
use logs_tracker.Prelude.{
  ℕ, zero, suc, String, append, Bool, true, false, Option, none, some, List, [], ◌∷◌, ◌++◌, length,
  str_eq, leb, ◌==◌, if◌then◌else◌,
}
use logs_tracker.Prelude.Hex.{hex_encode}
use logs_tracker.Errors.{GoError, failure, wrapped, Result, ok, err}
use logs_tracker.Source.{Position}
use logs_tracker.Merkle.{Bytes, Tree, build_tree}
use logs_tracker.Merkle.Payload.{Runtime}
use logs_tracker.Store.{Batch, Record, leaf_hashes}
use logs_tracker.Alerting.{Alert}

pub record CheckpointObject : Type 0 where
  pub batch_id : String
  pub started_at : ℕ
  pub closed_at : ℕ
  pub event_count : ℕ
  pub merkle_root : String
  pub signature : String
  pub key_version : String
  pub binlog_file : String
  pub binlog_position : ℕ
  pub is_bootstrap : Bool
  pub bootstrap_table : String

pub record BatchConfig : Type 0 where
  pub max_interval : ℕ
  pub max_events : ℕ

-- `timer_set` tells whether the timer is running.
pub record Batcher : Type 0 where
  pub cfg : BatchConfig
  pub current_batch_id : String
  pub started_at : ℕ
  pub records : List Record
  pub alerts_queue : List Alert
  pub last_position : Position
  pub timer_set : Bool
  pub is_bootstrap : Bool
  pub bootstrap_table : String

-- The signer, the stores, the dispatcher (which does nothing if there is none) and the callback
-- (likewise), over a state `S`.
pub record Services (S : Type 0) : Type 0 where
  pub sign : Bytes → Result (Bytes × String)
  pub create_batch : Batch → List Record → S → S × Option GoError
  pub marshal_checkpoint : CheckpointObject → Option Bytes
  pub put_checkpoint : String → Bytes → S → S × Option GoError
  pub dispatch : Alert → S → S
  pub batch_closed : Batch → S → S

-- What one call reads of the clock and of `uuid.New`.
pub record Moment : Type 0 where
  pub now : ℕ
  pub reopened_at : ℕ
  pub next_id : String

-- A limit that is not positive becomes 60 seconds, or 5000 events.
unfoldable pub new_batcher : BatchConfig → String → ℕ → Batcher
new_batcher cfg id now = record {
  cfg = record {
    max_interval = if cfg.max_interval == 0 then 60_000_000_000 else cfg.max_interval;
    max_events = if cfg.max_events == 0 then 5000 else cfg.max_events;
  };
  current_batch_id = id;
  started_at = now;
  records = [];
  alerts_queue = [];
  last_position = record { file = ""; position = 0; gtid = "" };
  timer_set = true;
  is_bootstrap = false;
  bootstrap_table = "";
}

unfoldable pub set_bootstrap_mode : Bool → String → Batcher → Batcher
set_bootstrap_mode is table b = record b { is_bootstrap = is; bootstrap_table = table }

unfoldable pub queue_alert : Alert → Batcher → Batcher
queue_alert a b = record b { alerts_queue = b.alerts_queue ++ a ∷ [] }

unfoldable pub current_event_count : Batcher → ℕ
current_event_count b = length b.records

table_name_of : String → Option String
table_name_of table = if str_eq table "" then none else some table

unfoldable pub batch_row : Moment → Batcher → Bytes → Bytes → String → Batch
unfolding table_name_of
batch_row t b root sig version = record {
  id = b.current_batch_id;
  started_at = b.started_at;
  closed_at = t.now;
  event_count = length b.records;
  merkle_root = root;
  signature = sig;
  key_version = version;
  binlog_file = b.last_position.file;
  binlog_position = b.last_position.position;
  status = "signed";
  worm_object_key = some (append "checkpoints/" (append b.current_batch_id ".json"));
  is_bootstrap = b.is_bootstrap;
  bootstrap_table_name = table_name_of b.bootstrap_table;
}

unfoldable pub checkpoint_object : Moment → Batcher → Bytes → Bytes → String → CheckpointObject
checkpoint_object t b root sig version = record {
  batch_id = b.current_batch_id;
  started_at = b.started_at;
  closed_at = t.now;
  event_count = length b.records;
  merkle_root = hex_encode root;
  signature = hex_encode sig;
  key_version = version;
  binlog_file = b.last_position.file;
  binlog_position = b.last_position.position;
  is_bootstrap = b.is_bootstrap;
  bootstrap_table = b.bootstrap_table;
}

-- The buffer of the next batch.
unfoldable pub reset : Moment → Batcher → Batcher
reset t b = record b {
  current_batch_id = t.next_id;
  started_at = t.reopened_at;
  records = [];
  alerts_queue = [];
  timer_set = true;
  is_bootstrap = false;
  bootstrap_table = "";
}

-- The number that a record gets, and its batch.
abbrev pub numbered : Batcher → Record → Record
numbered b r = record r { batch_id = b.current_batch_id; merkle_leaf_index = length b.records }

module _ (rt : Runtime) {S : Type 0} (services : Services S) where
  abbrev pub Closed : Type 0
  Closed = Batcher × S × Option GoError

  pub dispatch_all : List Alert → S → S
  dispatch_all [] s = s
  dispatch_all (a ∷ rest) s = dispatch_all rest (services.dispatch a s)

  -- Steps 5 and the reset.
  announce : Moment → Batcher → Batch → S → Closed
  unfolding dispatch_all reset
  announce t b row s = (reset t b, services.batch_closed row (dispatch_all b.alerts_queue s), none)

  -- Step 4: the checkpoint.
  anchor_result : Moment → Batcher → Batch → S × Option GoError → Closed
  unfolding announce
  anchor_result t b row (s, some e) =
      (b, s, some (wrapped "failed to write checkpoint to WORM storage" e))
  anchor_result t b row (s, none) = announce t b row s

  anchor : Moment → Batcher → Batch → S → Option Bytes → Closed
  unfolding anchor_result
  anchor t b row s none = (b, s, some (failure "failed to marshal checkpoint object"))
  anchor t b row s (some content) =
      anchor_result t b row (services.put_checkpoint b.current_batch_id content s)

  -- Step 3: the store.
  persist : Moment → Batcher → Batch → CheckpointObject → S × Option GoError → Closed
  unfolding anchor
  persist t b row checkpoint (s, some e) =
      (b, s, some (wrapped "failed to persist batch in store" e))
  persist t b row checkpoint (s, none) = anchor t b row s (services.marshal_checkpoint checkpoint)

  -- Step 2: the signature of the root.
  signed : Moment → Batcher → S → Bytes → Result (Bytes × String) → Closed
  unfolding persist
  signed t b s root (err e) = (b, s, some (wrapped "failed to sign merkle root" e))
  signed t b s root (ok (sig, version)) =
      let row = batch_row t b root sig version in
      persist t b row (checkpoint_object t b root sig version)
        (services.create_batch row b.records s)

  rooted : Moment → Batcher → S → Option Tree → Closed
  unfolding signed
  rooted t b s none = (b, s, some (failure "failed to build merkle tree"))
  rooted t b s (some tree) = signed t b s tree.root (services.sign tree.root)

  -- Step 1: the tree.
  hashed : Moment → Batcher → S → Result (List Bytes) → Closed
  unfolding rooted
  hashed t b s (err e) = (b, s, some (wrapped "failed to compute record leaf hash" e))
  hashed t b s (ok leaves) = rooted t b s (build_tree rt.sha256 leaves)

  close_records : Moment → Batcher → S → List Record → Closed
  unfolding hashed
  close_records t b s [] = (record b { started_at = t.reopened_at; timer_set = true }, s, none)
  close_records t b s (r ∷ rs) = hashed t b s (leaf_hashes rt (r ∷ rs))

  unfoldable pub close_current_batch : Moment → Batcher → S → Closed
  unfolding close_records
  close_current_batch t b s = close_records t b s b.records

  unfoldable pub flush : Moment → Batcher → S → Closed
  flush t b s = close_current_batch t b s

  -- The timer is stopped first; closing sets it again.
  unfoldable pub close : Moment → Batcher → S → Closed
  close t b s = close_current_batch t (record b { timer_set = false }) s

  -- The timer has run out when its function is called.
  unfoldable pub on_timer : Moment → Batcher → S → Closed
  on_timer t b s = close_current_batch t (record b { timer_set = false }) s

  unfoldable pub add_record : Moment → Record → Position → Batcher → S → Closed
  add_record t r pos b s =
      let b' = record b { records = b.records ++ numbered b r ∷ []; last_position = pos } in
      let closed = close_current_batch t b' s in
      if leb b.cfg.max_events (length b'.records) then closed else (b', s, none)
