-- ===== src/Binlog/Rows.antt =====
-- The rows that internal/binlog/client.go reads have columns col_0, col_1 and so on, and no others.
use Prim.Native.Char.{code}
use Prim.Native.String.append
use logs_tracker.Prelude.{
  ℕ, suc, String, ◌≡◌, ◌≢◌, refl, ap, ◌∙◌, sym, Option, none, some, List, [], ◌∷◌, arith, All,
  All-map, eq_iff,
}
use logs_tracker.Prelude.Dict.{get, put, get-put}
use logs_tracker.Prelude.Decimal.{decimal}
use logs_tracker.Source.{EventType, insert, update, remove, Value, Row, RowChange}
use logs_tracker.Binlog.{
  column_name, columns_from, row_map, updated, inserted, removed, parse_row_changes,
}

-- `k` is no column name.
abbrev pub NoColumn : String → Type 0
NoColumn k = (i : ℕ) → column_name i ≢ k

-- A name that begins otherwise than `col_` is no column name.
first_code : String → Option ℕ
first_code String.[] = none
first_code (String.◌∷◌ c s) = some (code c)

column_name-first : (i : ℕ) → first_code (column_name i) ≡ some b'c'
unfolding first_code column_name
column_name-first i = ap first_code (append.cons "c" "ol_" (decimal i))

NoColumn-of-first : (k : String) → first_code k ≢ some b'c' → NoColumn k
NoColumn-of-first k h i e = h (ap first_code (sym e) ∙ column_name-first i)

pub NoColumn-user_id : NoColumn "user_id"
unfolding first_code
NoColumn-user_id = NoColumn-of-first "user_id" (λ e. ground arith)

pub NoColumn-table_name : NoColumn "table_name"
unfolding first_code
NoColumn-table_name = NoColumn-of-first "table_name" (λ e. ground arith)

columns_from-get :
    (k : String)
    → NoColumn k
    → (i : ℕ) (vs : List Value) (row : Row) → get k (columns_from i vs row) ≡ get k row
unfolding columns_from
columns_from-get k n i [] row = refl
columns_from-get k n i (v ∷ vs) row =
    columns_from-get k n (suc i) vs (put (column_name i) v row)
    ∙ ground (arith, get-put k (column_name i) v row, eq_iff (column_name i) k, n i)

row_map-get : (k : String) → NoColumn k → (vs : List Value) → get k (row_map vs) ≡ none
unfolding row_map get
row_map-get k n vs = columns_from-get k n 0 vs []

abbrev pub Lacks : String → Option Row → Type 0
Lacks k none = Unit
Lacks k (some row) = get k row ≡ none

-- No image of the change has the column `k`.
pub record LacksColumn (k : String) (c : RowChange) : Type 0 where
  pub before : Lacks k c.before_image
  pub after : Lacks k c.after_image

updated-LacksColumn :
    (k : String)
    → NoColumn k
    → (schema table : String) (rs : List (List Value))
    → All (LacksColumn k) (updated schema table rs)
unfolding updated
updated-LacksColumn k n schema table [] = tt
updated-LacksColumn k n schema table (b ∷ []) = tt
updated-LacksColumn k n schema table (b ∷ a ∷ rest) = (
  record { before = row_map-get k n b; after = row_map-get k n a },
  updated-LacksColumn k n schema table rest,
)

pub parse_row_changes-LacksColumn :
    (k : String)
    → NoColumn k
    → (schema table : String) (a : EventType) (rs : List (List Value))
    → All (LacksColumn k) (parse_row_changes schema table a rs)
unfolding parse_row_changes inserted removed
parse_row_changes-LacksColumn k n schema table insert rs =
    All-map (LacksColumn k) _ (λ vs. record { before = tt; after = row_map-get k n vs }) rs
parse_row_changes-LacksColumn k n schema table remove rs =
    All-map (LacksColumn k) _ (λ vs. record { before = row_map-get k n vs; after = tt }) rs
parse_row_changes-LacksColumn k n schema table update rs = updated-LacksColumn k n schema table rs
parse_row_changes-LacksColumn k n schema table _ rs = tt
