-- ===== src/Dbproxy/Conn/Aliasing.antt =====
-- service/dbproxy/conn/conn.go: what `ParseRows` returns, in the heap of its map.
use mathlib.Core.List.{foldl}
use filestore_hsz.Prelude.{
  ℕ, ◌+◌, ◌≡◌, refl, ap, ◌∙◌, Text, List, [], ◌∷◌, ◌++◌, length, length-append, All, ==_iff, arith,
}
use filestore_hsz.Dbproxy.Sql.{Value, Rows}
use filestore_hsz.Dbproxy.Conn.{RecordMap, Heap, set_columns, write, parse_loop, parse_rows}

-- All rows, set into one map after another.
abbrev pub merged : List Text → List (List Value) → RecordMap → RecordMap
merged columns rows m = foldl (λ r v. set_columns columns v r) m rows

write_self : (h : Heap) (a : ℕ) (m : RecordMap) → write h a m a ≡ m
unfolding write
write_self h a m = rw ((==_iff a a).1 refl)

heap-parse_loop :
    (columns : List Text) (vs : List (List Value)) (r : ℕ) (h : Heap) (records : List ℕ)
    → (parse_loop columns vs r h records).0 r ≡ merged columns vs (h r)
unfolding parse_loop
heap-parse_loop columns [] r h records = refl
heap-parse_loop columns (v ∷ vs) r h records =
    heap-parse_loop columns vs r _ (records ++ r ∷ [])
    ∙ ap (merged columns vs) (write_self h r (set_columns columns v (h r)))

All-snoc :
    {A : Type 0} (P : A → Type 0) (xs : List A) (x : A) → All P xs → P x → All P (xs ++ x ∷ [])
All-snoc P [] x h p = (p, tt)
All-snoc P (y ∷ ys) x h p = (h.0, All-snoc P ys x h.1 p)

records-parse_loop :
    (columns : List Text) (vs : List (List Value)) (r : ℕ) (h : Heap) (records : List ℕ)
    → All (λ a. a ≡ r) records
    → All (λ a. a ≡ r) (parse_loop columns vs r h records).1
unfolding parse_loop
records-parse_loop columns [] r h records all = all
records-parse_loop columns (v ∷ vs) r h records all =
    records-parse_loop columns vs r _ (records ++ r ∷ []) (All-snoc (λ a. a ≡ r) records r all refl)

length-parse_loop :
    (columns : List Text) (vs : List (List Value)) (r : ℕ) (h : Heap) (records : List ℕ)
    → length (parse_loop columns vs r h records).1 ≡ length records + length vs
unfolding parse_loop
length-parse_loop columns [] r h records = omega arith
length-parse_loop columns (v ∷ vs) r h records =
    length-parse_loop columns vs r _ (records ++ r ∷ [])
    ∙ omega (arith, length-append records (r ∷ []))

All-map :
    {A : Type 0} {P Q : A → Type 0} → ((a : A) → P a → Q a) → (xs : List A) → All P xs → All Q xs
All-map f [] h = tt
All-map f (x ∷ xs) h = (f x h.0, All-map f xs h.1)

-- `ParseRows` returns one record for each row, and every one of them holds the merge of all rows, not
-- its own row.
pub parse_rows_shares :
    (rows : Rows)
    → (length (parse_rows rows).1 ≡ length rows.rows)
      × All (λ a. (parse_rows rows).0 a ≡ merged rows.columns rows.rows []) (parse_rows rows).1
unfolding parse_rows
parse_rows_shares rows = (
  length-parse_loop rows.columns rows.rows 0 _ [] ∙ omega arith,
  All-map
      (λ a e.
        ap (parse_loop rows.columns rows.rows 0 (λ b. []) []).0 e
        ∙ heap-parse_loop rows.columns rows.rows 0 _ [])
      _ (records-parse_loop rows.columns rows.rows 0 _ [] tt),
)
