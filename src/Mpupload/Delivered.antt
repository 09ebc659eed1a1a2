-- ===== src/Mpupload/Delivered.antt =====
-- test/mpupload/upload_part.go against service/upload/api/mpupload.go: what the server has recorded after the
-- goroutines of an upload have posted their parts.
use filestore_hsz.Prelude.{
  ℕ, ◌≡◌, refl, ap, sym, ◌∙◌, Text, bytes, text_eq_refl, length, pos, List, [], ◌∷◌, ◌++◌, map,
  none, some, Bool, ◌==◌, ◌||◌, arith,
}
use filestore_hsz.Go.{ok, Result, Exit, ret}
use filestore_hsz.Util.{Shell, digest, newline}
use filestore_hsz.Util.Printed.{sha1_command}
use filestore_hsz.Util.Stream.{concat}
use filestore_hsz.Http.{Response, json}
use filestore_hsz.Upload.Disk.{DiskLaws}
use filestore_hsz.Upload.Services.{Files, Redis}
use filestore_hsz.Upload.Multipart.Part.{chunk_path, upload_part_handler}
use filestore_hsz.Upload.Multipart.Part.Whole.{upload_part_handler_whole}
use filestore_hsz.Upload.Multipart.Flow.Hash.{RedisLaws}
use filestore_hsz.Upload.Multipart.Flow.Steps.{Uploads, sent}
use filestore_hsz.Mpupload.Parts.{Job, index_of}
use filestore_hsz.Mpupload.Transfer.{
  Post, part_url, State, state, Step, started, posted, received, Steps, here,
}
use filestore_hsz.Mpupload.Transfer
use filestore_hsz.Mpupload.Resume.{decimal, mem}

swapped : (a b c : Bool) → (a || (b || c)) ≡ (b || (a || c))
swapped a b c = ground arith

starting : (a x p r : Bool) → (a || ((x || p) || r)) ≡ (a || (p || (x || r)))
starting a x p r = ground arith

posting : (a x p r : Bool) → ((x || a) || (p || r)) ≡ (a || ((x || p) || r))
posting a x p r = ground arith

mem_middle :
    (k : ℕ) (ps qs : List Job) (j : Job)
    → mem k (map index_of (ps ++ j ∷ qs)) ≡ ((j.0 == k) || mem k (map index_of (ps ++ qs)))
mem_middle k [] qs j = refl
mem_middle k (p ∷ ps) qs j =
    rw (mem_middle k ps qs j) (swapped (p.0 == k) (j.0 == k) (mem k (map index_of (ps ++ qs))))

-- The parts of a state that no answer has come for.
abbrev pub is_pending : {W : Type 0} → ℕ → State W → Bool
is_pending k (state js ps is n w) = mem k (map index_of ps) || mem k (map index_of js)

abbrev pub world_of : {W : Type 0} → State W → W
world_of (state js ps is n w) = w

module _ {W : Type 0} (files : Files W) (disk : DiskLaws files) (redis : Redis W) (output : Shell W)
    (path_dir : Text → Text) (laws : RedisLaws redis) (sha1 : Text → Text) (post : Post W)
    (target_url upload_id : Text)
    (creates : (i : ℕ) (w : W) → (files.create (chunk_path upload_id (decimal i)) w).0 ≡ none)
    (writes : (i : ℕ) (b : Text) (w : W)
      → (files.write (chunk_path upload_id (decimal i)) b w).0 ≡ (length b, none))
    (prints : (i : ℕ) (s : Text) (v : W)
      → disk.contents v (chunk_path upload_id (decimal i)) ≡ some s
      → output (sha1_command (chunk_path upload_id (decimal i))) v
        ≡ (ok (digest sha1 s ++ newline), v))
    -- a post of a part runs the handler on the body, however it is read, and is answered
    (serves : (j : Job) (v : W)
      → (reads : List Text) × (body : Text) × (concat reads ≡ j.1)
        × (post (part_url sha1 target_url j) j.1 v ≡ (
          ok body,
          (upload_part_handler files redis output path_dir upload_id
              (digest sha1 j.1)
              (decimal j.0)
              reads
              v).1,
        )))
    (recorded chosen : List ℕ) (w₀ : W) where
  -- What the server has recorded of the chosen parts, in a state of the client.
  abbrev pub Recorded : State W → Type 0
  Recorded s =
      (done : List ℕ) × Uploads files redis output path_dir laws upload_id w₀
        (map decimal (done ++ recorded)) (world_of s)
      × ((k : ℕ) → (mem k done || is_pending k s) ≡ mem k chosen)

  post_recorded :
      (done : List ℕ) (j : Job) (body : Text) (v v' : W)
      → Uploads files redis output path_dir laws upload_id w₀ (map decimal (done ++ recorded)) v
      → post (part_url sha1 target_url j) j.1 v ≡ (ok body, v')
      → Uploads files redis output path_dir laws upload_id w₀
          (map decimal ((j.0 ∷ done) ++ recorded))
          v'
  post_recorded done j body v v' before answered =
      let (reads, body', whole, run) = serves j v in
      let (u, handled) =
        upload_part_handler_whole files disk redis output path_dir sha1 upload_id (decimal j.0) j.1
          reads v (creates j.0) (writes j.0) whole (λ x s there. prints j.0 s x there) in
      let same : (upload_part_handler files redis output path_dir upload_id (digest sha1 j.1)
            (decimal j.0) reads v).1
          ≡ v' =
        ap (λ (x : Result Text × W). x.1) (sym run ∙ answered) in
      sent before (digest sha1 j.1) (decimal j.0) reads (json 200 (pos 0) (bytes "ok") none)
        (handled
          ∙ ap (λ (x : W). (ret (json 200 (pos 0) (bytes "ok") none), x))
              (sym (ap (λ (x : Exit (Response (Unit {0})) × W). x.1) handled) ∙ same))
        (rw (text_eq_refl (bytes "ok")) refl)

  Step-Recorded : {s t : State W} → Step post sha1 target_url s t → Recorded s → Recorded t
  Step-Recorded (started {js} {ps} {is} {n} {w} j) (done, uploads, covers) = (
    done,
    uploads,
    λ k.
        starting (mem k done) (j.0 == k) (mem k (map index_of ps)) (mem k (map index_of js))
        ∙ covers k,
  )
  Step-Recorded (posted {js} {is} {n} {w} {w'} ps qs j body e) (done, uploads, covers) = (
    j.0 ∷ done,
    post_recorded done j body w w' uploads e,
    λ k.
        posting (mem k done) (j.0 == k) (mem k (map index_of (ps ++ qs))) (mem k (map index_of js))
        ∙ rw (← (mem_middle k ps qs j)) (covers k),
  )
  Step-Recorded (received {ps} {n} {w} is ks i) (done, uploads, covers) = (done, uploads, covers)

  pub Steps-Recorded :
      {s : State W} {k : ℕ} {t : State W}
      → Steps post sha1 target_url s k t
      → Recorded s
      → Recorded t
  Steps-Recorded here h = h
  Steps-Recorded {s} (Transfer.then {k} {t} {u} steps step) h =
      Step-Recorded step (Steps-Recorded steps h)
