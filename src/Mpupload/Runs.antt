-- ===== src/Mpupload/Runs.antt =====
-- test/mpupload: the three runs, and the chunks that each of them uploads.
use filestore_hsz.Prelude.{
  ℕ, zero, suc, ◌≤◌, ◌≡◌, refl, ap, ◌∙◌, Text, bytes, text_eq, take, ℤ, pos, negsuc, List, [], ◌∷◌,
  Bool, if◌then◌else◌, arith,
}
use filestore_hsz.Go.{Result, ok, err, Go, pure, ◌>>=◌}
use filestore_hsz.Util.{Shell}
use filestore_hsz.Mpupload.Choose.{contain, rounds, missing, chunks_to_upload, chunks_to_upload_lem}
use filestore_hsz.Mpupload.Session.{
  PostForm, AnswerJson, UploadInitResponse, Upload, exits, unparsed, Outcome, stops, goes, prepare,
  begin_upload,
}

-- The values of `-tcase`.
pub data Case : Type 0 where
  normal cancel resume usage : Case

unfoldable pub case_of : Text → Case
case_of t =
    if text_eq t (bytes "normal")
    then normal
    else if text_eq t (bytes "cancel")
    then cancel
    else if text_eq t (bytes "resume")
    then resume
    else usage

-- What a run hands to `uploadPartsSpecified`, and the id of the upload.
pub record Parts : Type 0 where
  pub upload : Upload
  pub upload_id : Text
  pub chunk_size : ℤ
  pub chunks : List ℕ

indices_from : (left idx : ℕ) → List ℕ
indices_from zero idx = []
indices_from (suc left) idx = idx ∷ indices_from left (suc idx)

-- A normal run uploads every chunk that the server counts.
unfoldable pub all_chunks : ℤ → List ℕ
unfolding indices_from rounds
all_chunks chunk_count = indices_from (rounds chunk_count) 1

normal_chunks : Result UploadInitResponse → Outcome (List ℕ)
unfolding all_chunks
normal_chunks (err e) = stops exits
normal_chunks (ok r) = goes (all_chunks r.chunk_count)

-- `uploadChunkCount <= 0` does not look at the answer.
resumed_chunks : (limit : ℤ) → Result UploadInitResponse → Outcome (List ℕ)
resumed_chunks (pos zero) r = goes []
resumed_chunks (negsuc n) r = goes []
resumed_chunks (pos (suc n)) (err e) = stops unparsed
resumed_chunks (pos (suc n)) (ok r) =
    goes (chunks_to_upload r.chunk_exists (pos (suc n)) r.chunk_count)

chunks_for : Case → (limit : ℤ) → Result UploadInitResponse → Outcome (List ℕ)
unfolding normal_chunks resumed_chunks
chunks_for normal limit r = normal_chunks r
chunks_for resume limit r = resumed_chunks limit r
chunks_for cancel limit r = goes (1 ∷ [])
chunks_for usage limit r = goes []

with_chunks : AnswerJson → Upload → Text → Outcome (List ℕ) → Outcome Parts
with_chunks json u body (stops s) = stops s
with_chunks json u body (goes chunks) = goes (record {
  upload = u;
  upload_id = json.text_at body (bytes "data" ∷ bytes "UploadID" ∷ []);
  chunk_size = json.int_at body (bytes "data" ∷ bytes "ChunkSize" ∷ []);
  chunks = chunks;
})

module _ {W : Type 0} (post_form : PostForm W) (json : AnswerJson) (tcase : Case) (limit : ℤ) where
  parts_of : Upload → Outcome Text → Outcome Parts
  parts_of u (stops s) = stops s
  parts_of u (goes body) =
      with_chunks json u body (chunks_for tcase limit (json.unmarshal_init body))

  begin : Outcome Upload → Go W (Outcome Parts)
  begin (stops s) = pure (stops s)
  begin (goes u) = do body ← begin_upload post_form json u; pure (parts_of u body)

  -- A run, up to its call of `uploadPartsSpecified`.
  unfoldable pub run :
      (W → Result Bool × W) → Shell W → (path username password : Text) → Go W (Outcome Parts)
  unfolding begin parts_of with_chunks chunks_for
  run path_exists output path username password = do
    u ← prepare post_form json path_exists output path username password
    begin u

missing-all : (left lo : ℕ) → missing [] left lo ≡ indices_from left (suc lo)
unfolding indices_from contain
missing-all zero lo = refl
missing-all (suc left) lo = ap (λ (l : List ℕ). suc lo ∷ l) (missing-all left (suc lo))

take-all : (n left idx : ℕ) → left ≤ n → take n (indices_from left idx) ≡ indices_from left idx
unfolding indices_from
take-all zero zero idx h = refl
take-all (suc n) zero idx h = refl
take-all zero (suc left) idx h = let no : ⊥ = omega arith in elim no [ ]
take-all (suc n) (suc left) idx h =
    ap (λ (l : List ℕ). idx ∷ l) (take-all n left (suc idx) (omega arith))

-- A resumable run whose limit is not below the chunk count chooses the chunks of a normal run, where the
-- server has none of them.
pub chunks_to_upload-all_chunks :
    (limit count : ℕ)
    → 1 ≤ limit
    → count ≤ limit
    → chunks_to_upload [] (pos limit) (pos count) ≡ all_chunks (pos count)
unfolding all_chunks rounds
chunks_to_upload-all_chunks limit count positive enough =
    chunks_to_upload_lem [] limit count positive
    ∙ ap (take limit) (missing-all count 0)
    ∙ take-all limit count 1 enough
