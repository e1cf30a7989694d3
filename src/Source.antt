-- ===== src/Source.antt =====
-- internal/source/source.go: the changes of a transaction as a change source yields them.
use logs_tracker.Prelude.{ℕ, String, Bool, Option, List}
use logs_tracker.Prelude.Int.{ℤ}
use logs_tracker.Prelude.Dict.{Dict}

-- The action of a row change; `no_action` is Go's zero value "".
pub data EventType : Type 0 where
  insert update remove ddl no_action : EventType

-- The values of an `interface{}`: nil, string, bool, int64, []byte (as text), []interface{}, and
-- every other dynamic type. A list of values holds its elements in `Values`.
mutual
  pub data Value : Type 0 where
    null : Value
    text : String → Value
    boolean : Bool → Value
    int64 : ℤ → Value
    bytes : String → Value
    items : Values → Value
    other : ℕ → Value

  pub data Values : Type 0 where
    nil : Values
    cons : Value → Values → Values

abbrev pub Row : Type 0
Row = Dict Value

pub record Position : Type 0 where
  pub file : String
  pub position : ℕ
  pub gtid : String

-- An image is `none` where the Go map is nil.
pub record RowChange : Type 0 where
  pub schema : String
  pub table : String
  pub action : EventType
  pub before_image : Option Row
  pub after_image : Option Row

pub record Transaction : Type 0 where
  pub transaction_id : String
  pub position : Position
  pub committed_at : ℕ
  pub changes : List RowChange
  pub ddl_statement : String
