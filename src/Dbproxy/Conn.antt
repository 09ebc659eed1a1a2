-- ===== src/Dbproxy/Conn.antt =====
-- service/dbproxy/conn/conn.go: `ParseRows`. A Go map is a reference: the one `record` is
-- allocated before the loop, and each round appends that same reference.
pub mod Aliasing
use filestore_hsz.Prelude.{
  ℕ, zero, suc, ◌+◌, Text, text_eq, List, [], ◌∷◌, ◌++◌, Option, none, some, ◌==◌, if◌then◌else◌,
}
use filestore_hsz.Dbproxy.Sql.{Value, null, Rows}

-- A `map[string]interface{}`, and the maps by address.
abbrev pub RecordMap : Type 0
RecordMap = List (Text × Value)

abbrev pub Heap : Type 0
Heap = ℕ → RecordMap

unfoldable pub lookup : Text → RecordMap → Value
lookup k [] = null
lookup k ((j, v) ∷ m) = if text_eq j k then v else lookup k m

-- `record[columns[i]] = col` for each `col != nil`
unfoldable pub set_columns : List Text → List Value → RecordMap → RecordMap
set_columns [] vs m = m
set_columns (c ∷ cs) [] m = m
set_columns (c ∷ cs) (null ∷ vs) m = set_columns cs vs m
set_columns (c ∷ cs) (v ∷ vs) m = set_columns cs vs ((c, v) ∷ m)

write : Heap → ℕ → RecordMap → Heap
write h a m b = if a == b then m else h b

-- The loop over `rows.Next()`, with the address of `record`.
parse_loop : List Text → List (List Value) → ℕ → Heap → List ℕ → Heap × List ℕ
parse_loop columns [] r h records = (h, records)
parse_loop columns (v ∷ vs) r h records =
    parse_loop columns vs r (write h r (set_columns columns v (h r))) (records ++ r ∷ [])

unfoldable pub parse_rows : Rows → Heap × List ℕ
unfolding write parse_loop
parse_rows rows = parse_loop rows.columns rows.rows 0 (λ a. []) []
