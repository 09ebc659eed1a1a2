-- ===== src/Upload/Multipart/Keys.antt =====
-- service/upload/api/mpupload.go: the keys and the fields in redis, the number of chunks, and what a
-- session's hash says.
pub mod Count
pub mod Session
use filestore_hsz.Prelude.{
  ℕ, suc, ◌+◌, ◌-◌, ◌*◌, ◌/◌, Text, bytes, text_eq, has_prefix, drop, ℤ, pos, negsuc, neg, eqb_ℤ,
  List, [], ◌∷◌, ◌++◌, Bool, ◌&&◌, if◌then◌else◌,
}
use filestore_hsz.Go.Float.{ceil_quotient, floor_quotient}
use filestore_hsz.Go.Strconv.{atoi, IntResult}

abbrev pub chunk_key_prefix : Text
chunk_key_prefix = bytes "MP_"

abbrev pub hash_up_id_key_prefix : Text
hash_up_id_key_prefix = bytes "HASH_UPID_"

abbrev pub chunk_field_prefix : Text
chunk_field_prefix = bytes "chkidx_"

-- 5 MB
abbrev pub chunk_size : ℕ
chunk_size = 5 * 1024 * 1024

-- Half a day.
abbrev pub session_seconds : ℕ
session_seconds = 43200

-- `int(math.Ceil(float64(filesize) / (5 * 1024 * 1024)))`
unfoldable pub chunk_count : ℤ → ℤ
chunk_count (pos n) = pos (ceil_quotient n chunk_size)
chunk_count (negsuc n) = neg (floor_quotient (suc n) chunk_size)

-- A pair of HGETALL.
abbrev pub Fields : Type 0
Fields = List (Text × Text)

-- `strings.HasPrefix(k, "chkidx_") && v == "1"`
unfoldable pub is_chunk : Text → Text → Bool
is_chunk k v = has_prefix k chunk_field_prefix && text_eq v (bytes "1")

-- The indices of the chunks that are there.
unfoldable pub chunks_exist : Fields → List ℤ
unfolding is_chunk
chunks_exist [] = []
chunks_exist ((k, v) ∷ fields) =
    let rest = chunks_exist fields in if is_chunk k v then (atoi (drop 7 k)).number ∷ rest else rest

-- The loop of `CompleteUploadHandler` over the fields: the total announced, and the chunks there.
unfoldable pub count_loop : Fields → ℤ → ℕ → ℤ × ℕ
unfolding is_chunk
count_loop [] total count = (total, count)
count_loop ((k, v) ∷ fields) total count =
    let announced = count_loop fields (atoi v).number count in
    let counted = count_loop fields total (count + 1) in
    let skipped = count_loop fields total count in
    if text_eq k (bytes "chunkcount") then announced else if is_chunk k v then counted else skipped

-- `totalCount != chunkCount`, negated
unfoldable pub is_complete : Fields → Bool
is_complete fields = let (total, count) = count_loop fields (pos 0) 0 in eqb_ℤ total (pos count)
