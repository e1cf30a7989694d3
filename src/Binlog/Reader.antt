-- ===== src/Binlog/Reader.antt =====
-- internal/binlog/client.go: `readLoop`, which groups row events into transactions. Of `strings`, the
-- function that trims a query and puts it in upper case is a parameter.
use text.Mathlib.Text.{starts_with}
use logs_tracker.Prelude.{
  ℕ, ◌*◌, ◌%◌, ◌^◌, String, append, Bool, true, false, ◌||◌, Option, none, some, List, [], ◌∷◌,
  ◌++◌, str_eq, ltb, if◌then◌else◌,
}
use logs_tracker.Prelude.Decimal.{decimal}
use logs_tracker.Source.{ddl, Position, Transaction}
use logs_tracker.Binlog.{RowsEvent, Event, Payload, rotate, query, xid, rows, ignored, changes_of}

-- The variables of `readLoop`, and the position of the source.
pub record Reader : Type 0 where
  pub in_tx : Bool
  pub current_tx : Transaction
  pub current_pos : Position

abbrev pub no_position : Position
no_position = record { file = ""; position = 0; gtid = "" }

abbrev pub no_transaction : Transaction
no_transaction = record {
  transaction_id = "";
  position = no_position;
  committed_at = 0;
  changes = [];
  ddl_statement = "";
}

abbrev pub start_at : Position → Reader
start_at p = record { in_tx = false; current_tx = no_transaction; current_pos = p }

unfoldable pub update_checkpoint : Position → Reader → Reader
update_checkpoint p r = record r {
  current_pos = record r.current_pos {
    file = if str_eq p.file "" then r.current_pos.file else p.file;
    position = p.position;
  };
}

abbrev pub position_id : String → ℕ → String
position_id file p = append file (append ":" (decimal p))

-- `time.Unix(seconds, 0)`, in nanoseconds.
abbrev pub unix_time : ℕ → ℕ
unix_time seconds = seconds * 1_000_000_000

-- A committed transaction is sent on with its last position, and the buffer is emptied.
unfoldable pub commit : Reader → Transaction → Reader × Option Transaction
unfolding update_checkpoint
commit r tx = (
  record (update_checkpoint tx.position r) { in_tx = false; current_tx = no_transaction },
  some tx,
)

pub data QueryKind : Type 0 where
  begin_query commit_query rollback_query ddl_query other_query : QueryKind

abbrev pub here : Reader → Event → Position
here r e = record { file = r.current_pos.file; position = e.log_pos; gtid = "" }

-- The branches of the query event.
unfoldable pub on_query : Reader → Event → String → String → QueryKind → Reader × Option Transaction
unfolding update_checkpoint commit
on_query r e q schema begin_query = (
  record r {
    in_tx = true;
    current_tx = record {
      transaction_id = position_id r.current_pos.file e.log_pos;
      position = here r e;
      committed_at = unix_time e.timestamp;
      changes = [];
      ddl_statement = "";
    };
  },
  none,
)
on_query r e q schema commit_query =
    if r.in_tx
    then commit r
        (record r.current_tx { position = record r.current_tx.position { position = e.log_pos } })
    else (r, none)
on_query r e q schema rollback_query =
    (record r { in_tx = false; current_tx = no_transaction }, none)
on_query r e q schema ddl_query = (
  update_checkpoint (here r e) r,
  some (record {
    transaction_id = position_id r.current_pos.file e.log_pos;
    position = here r e;
    committed_at = unix_time e.timestamp;
    changes =
        record {
          schema = schema;
          table = "";
          action = ddl;
          before_image = none;
          after_image = none;
        }
        ∷ [];
    ddl_statement = q;
  }),
)
on_query r e q schema other_query = (r, none)

unfoldable pub on_xid : Reader → Event → ℕ → Reader × Option Transaction
unfolding commit
on_xid r e n =
    if r.in_tx
    then commit r (record r.current_tx {
      transaction_id = append "xid:" (decimal n);
      position = record r.current_tx.position { position = e.log_pos };
    })
    else (r, none)

unfoldable pub on_rows : Reader → Event → RowsEvent → Reader × Option Transaction
unfolding update_checkpoint
on_rows r e re =
    let changes = changes_of re in
    if r.in_tx
    then (
      record r { current_tx = record r.current_tx { changes = r.current_tx.changes ++ changes } },
      none,
    )
    else (
      update_checkpoint (here r e) r,
      some (record {
        transaction_id = position_id r.current_pos.file e.log_pos;
        position = here r e;
        committed_at = unix_time e.timestamp;
        changes = changes;
        ddl_statement = "";
      }),
    )

-- What a round of the loop meets: an event, an error of the stream (it sleeps and goes on), or
-- a cancelled context or closed source (it returns).
pub data Input : Type 0 where
  event : Event → Input
  transient : Input
  stop : Input

unfoldable pub sent : Option Transaction → List Transaction → List Transaction
sent none out = out
sent (some tx) out = tx ∷ out

module _ (upper_trim : String → String) where
  unfoldable pub is_ddl : String → Bool
  is_ddl q =
      let u = upper_trim q in
      starts_with u "ALTER TABLE"
      || starts_with u "CREATE TABLE"
      || starts_with u "DROP TABLE"
      || starts_with u "RENAME TABLE"

  -- The tests of the query event, in their order.
  unfoldable pub query_kind : String → QueryKind
  unfolding is_ddl
  query_kind q =
      let u = upper_trim q in
      if str_eq u "BEGIN"
      then begin_query
      else if str_eq u "COMMIT"
      then commit_query
      else if str_eq u "ROLLBACK"
      then rollback_query
      else if is_ddl u
      then ddl_query
      else other_query

  -- The switch on the event.
  unfoldable pub dispatch : Reader → Event → Payload → Reader × Option Transaction
  unfolding on_query on_xid on_rows
  dispatch r e (rotate file p) =
      (record r { current_pos = record r.current_pos { file = file; position = p % 2 ^ 32 } }, none)
  dispatch r e (query q schema) = on_query r e q schema (query_kind q)
  dispatch r e (xid n) = on_xid r e n
  dispatch r e (rows re) = on_rows r e re
  dispatch r e ignored = (r, none)

  -- One round of the loop; after the switch the position moves to the event's.
  unfoldable pub read_event : Reader → Event → Reader × Option Transaction
  unfolding dispatch
  read_event r e =
      let (r', out) = dispatch r e e.payload in
      (
        record r' {
          current_pos = record r'.current_pos {
            position = if ltb 0 e.log_pos then e.log_pos else r'.current_pos.position;
          };
        },
        out,
      )

  -- The transactions that `readLoop` sends, in order, and its state at the end.
  unfoldable pub read_loop : Reader → List Input → Reader × List Transaction
  unfolding sent
  read_loop r [] = (r, [])
  read_loop r (event e ∷ rest) =
      let (r', out) = read_event r e in let (r'', more) = read_loop r' rest in (r'', sent out more)
  read_loop r (transient ∷ rest) = read_loop r rest
  read_loop r (stop ∷ rest) = (r, [])
