-- ===== src/Dbproxy/Sql.antt =====
-- `database/sql` over the MySQL server, which the program only calls. The server's side is the
-- parameter `Sql`; how a column is scanned into a Go variable is the standard library's.
use filestore_hsz.Prelude.{
  ℕ, Text, bytes, ℤ, pos, List, [], ◌∷◌, Option, none, some, Bool, true, false, if◌then◌else◌,
}
use filestore_hsz.Go.{Result, ok, err, Go, pure, call, ◌>>=◌}
use filestore_hsz.Go.Strconv.{IntResult, atoi, format_int}

-- An argument of a statement. A time is in nanoseconds.
pub data Arg : Type 0 where
  text : Text → Arg
  int : ℤ → Arg
  time : ℕ → Arg

-- A column of a row, as the driver hands it over.
pub data Value : Type 0 where
  null : Value
  int : ℤ → Value
  text : Text → Value

pub record Rows : Type 0 where
  pub columns : List Text
  pub rows : List (List Value)

-- Prepare, Exec (and RowsAffected) and Query of a statement, by its text. A prepared statement
-- stands for its text. `Query` may hand over a nil pointer.
pub record Sql (W : Type 0) : Type 0 where
  pub prepare : Text → W → Option Text × W
  pub exec : Text → List Arg → W → Result (Result ℤ) × W
  pub query : Text → List Arg → W → Result (Option Rows) × W

-- `time.Now().UnixNano()`
pub record Clock (W : Type 0) : Type 0 where
  pub now : W → ℕ × W

pub record NullText : Type 0 where
  pub string : Text
  pub valid : Bool

pub record NullInt : Type 0 where
  pub int64 : ℤ
  pub valid : Bool

-- `Scan` into a `string`
unfoldable pub scan_text : Value → Result Text
scan_text null = err (bytes "converting NULL to string is unsupported")
scan_text (Value.int i) = ok (format_int i)
scan_text (Value.text t) = ok t

-- `Scan` into a `sql.NullString`
unfoldable pub scan_null_text : Value → NullText
scan_null_text null = record { string = []; valid = false }
scan_null_text (Value.int i) = record { string = format_int i; valid = true }
scan_null_text (Value.text t) = record { string = t; valid = true }

int_of_text : IntResult → Result ℤ
int_of_text r = if r.failed then err (bytes "invalid syntax") else ok r.number

-- `Scan` into an `int64`
unfoldable pub scan_int : Value → Result ℤ
unfolding int_of_text
scan_int null = err (bytes "converting NULL to int64 is unsupported")
scan_int (Value.int i) = ok i
scan_int (Value.text t) = int_of_text (atoi t)

-- `Scan` into a `sql.NullInt64`
unfoldable pub scan_null_int : Value → Result NullInt
unfolding scan_int
scan_null_int null = ok (record { int64 = pos 0; valid = false })
scan_null_int v = elim (scan_int v) [
  | ok i ↦ ok (record { int64 = i; valid = true })
  | err e ↦ err e
]

-- `stmt.QueryRow(…)`: its error, no row, or the first row.
pub data FirstRow : Type 0 where
  failed : Text → FirstRow
  no_rows : FirstRow
  row : List Value → FirstRow

first_row : Result (Option Rows) → FirstRow
first_row (err e) = failed e
first_row (ok none) = no_rows
first_row (ok (some r)) = elim r.rows [ [] ↦ no_rows | v ∷ _ ↦ row v ]

unfoldable pub query_row : {W : Type 0} → Sql W → Text → List Arg → Go W FirstRow
unfolding first_row
query_row sql q args = do rows ← call (sql.query q args); pure (first_row rows)
