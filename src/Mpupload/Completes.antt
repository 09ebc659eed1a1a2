-- ===== src/Mpupload/Completes.antt =====
-- test/mpupload against service/upload/api/mpupload.go: a resumed upload, from its first part to its
-- completion.
use mathlib.Core.Path.{subst}
use filestore_hsz.Prelude.{
  ℕ, ◌<◌, ◌≤◌, ◌^◌, ◌≡◌, refl, ap, sym, ◌∙◌, Text, length, pos, List, [], ◌∷◌, ◌++◌, map, none,
  some, Bool, true, false, ◌==◌, ==_iff, ◌||◌, All, arith, Bool-cases, inl, inr,
}
use filestore_hsz.Go.{Result, ok, Exit, ret}
use filestore_hsz.Util.{Shell, digest, newline}
use filestore_hsz.Util.Printed.{sha1_command}
use filestore_hsz.Util.Stream.{concat}
use filestore_hsz.Dbproxy.Json.{Json}
use filestore_hsz.Dbproxy.Client.{Stub}
use filestore_hsz.Upload.Disk.{DiskLaws}
use filestore_hsz.Upload.Services.{Files, Redis, Publish, TransferJson}
use filestore_hsz.Upload.Multipart.Keys.{Fields, chunk_count, chunks_exist}
use filestore_hsz.Upload.Multipart.Keys.Session.{with_parts, session_fields}
use filestore_hsz.Upload.Multipart.Part.{chunk_path, upload_part_handler}
use filestore_hsz.Upload.Multipart.Complete.{CompleteForm, complete_upload_handler, merge}
use filestore_hsz.Upload.Multipart.Flow.Hash.{RedisLaws, SameFields}
use filestore_hsz.Upload.Multipart.Flow.Start.{IsSession}
use filestore_hsz.Upload.Multipart.Flow.Steps.{Uploads}
use filestore_hsz.Mpupload.Choose.{chunks_to_upload}
use filestore_hsz.Mpupload.Parts.{
  Job, Read, IsChunk, index_of, AreAscending, chunks_to_upload-AreAscending,
}
use filestore_hsz.Mpupload.Transfer.{
  Post, part_url, State, state, Steps, to_receive, outstanding, upload_parts_specified,
  upload_parts_specified-chosen, transfer_finishes, Steps-outstanding,
}
use filestore_hsz.Mpupload.Resume.{decimal, mem, IsIndex}
use filestore_hsz.Mpupload.Resume.Complete.{resumed_upload_completes}
use filestore_hsz.Mpupload.Delivered.{is_pending, world_of, Recorded, Steps-Recorded}

mem_ascending :
    (k lo hi : ℕ) (is : List ℕ) → AreAscending lo is hi → mem k is ≡ true → (lo < k) × (k ≤ hi)
mem_ascending k lo hi [] up here = cc
mem_ascending k lo hi (i ∷ is) (above, below, up) here = elim (Bool-cases (i == k)) [
  | inl same ↦ let e : i ≡ k = (==_iff i k).0 same in (omega arith, omega arith)
  | inr differs ↦
      let later : mem k is ≡ true = ground arith in
      let (low, high) = mem_ascending k i hi is up later in (omega arith, high)
]

or_false : (a : Bool) → (a || false) ≡ a
or_false true = refl
or_false false = refl

mem_first : (k : ℕ) (is : List ℕ) → mem k (k ∷ is) ≡ true
mem_first k is = rw ((==_iff k k).1 refl) refl

mem_next : (k i : ℕ) (is : List ℕ) → mem k is ≡ true → mem k (i ∷ is) ≡ true
mem_next k i is h = ground arith

-- Indices of which each is one of the file's.
All-IsIndex :
    (count : ℕ) (is : List ℕ)
    → ((k : ℕ) → mem k is ≡ true → IsIndex count k)
    → All (IsIndex count) is
All-IsIndex count [] each = tt
All-IsIndex count (i ∷ is) each =
    (each i (mem_first i is), All-IsIndex count is (λ k h. each k (mem_next k i is h)))

module _ {W : Type 0} (post : Post W) (sha1 : Text → Text) (target_url : Text) where
  none_pending :
      (k : ℕ) (s : State W) → outstanding post sha1 target_url s ≡ 0 → is_pending k s ≡ false
  none_pending k (state [] [] is n w) none_out = refl
  none_pending k (state (j ∷ js) ps is n w) none_out = let no : ⊥ = omega arith in elim no [ ]
  none_pending k (state [] (j ∷ ps) is n w) none_out = let no : ⊥ = omega arith in elim no [ ]

module _ {W : Type 0} (files : Files W) (disk : DiskLaws files) (redis : Redis W) (output : Shell W)
    (path_dir : Text → Text) (laws : RedisLaws redis)
    (mkdir_keeps : (p : Text) (w : W) → laws.hashes (files.mkdir_all p w).1 ≡ laws.hashes w)
    (create_keeps : (p : Text) (w : W) → laws.hashes (files.create p w).1 ≡ laws.hashes w)
    (write_keeps : (p b : Text) (w : W) → laws.hashes (files.write p b w).1 ≡ laws.hashes w)
    (shell_keeps : (c : Text) (w : W) → laws.hashes (output c w).1 ≡ laws.hashes w)
    (sha1 : Text → Text) (post : Post W) (target_url : Text) (form : CompleteForm)
    (creates : (i : ℕ) (w : W) → (files.create (chunk_path form.upload_id (decimal i)) w).0 ≡ none)
    (writes : (i : ℕ) (b : Text) (w : W)
      → (files.write (chunk_path form.upload_id (decimal i)) b w).0 ≡ (length b, none))
    (prints : (i : ℕ) (s : Text) (v : W)
      → disk.contents v (chunk_path form.upload_id (decimal i)) ≡ some s
      → output (sha1_command (chunk_path form.upload_id (decimal i))) v
        ≡ (ok (digest sha1 s ++ newline), v))
    (serves : (j : Job) (v : W)
      → (reads : List Text) × (body : Text) × (concat reads ≡ j.1)
        × (post (part_url sha1 target_url j) j.1 v ≡ (
          ok body,
          (upload_part_handler files redis output path_dir form.upload_id
              (digest sha1 j.1)
              (decimal j.0)
              reads
              v).1,
        ))) where
  started_as :
      (s s' : State W) → ◌≡◌ {A = Exit (Result (State W))} (ret (ok s)) (ret (ok s')) → s ≡ s'
  started_as s s' e = cc

  at_start :
      (recorded chosen : List ℕ) (js : List Job) (w₀ w : W)
      → map index_of js ≡ chosen
      → Uploads files redis output path_dir laws form.upload_id w₀ (map decimal recorded) w
      → Recorded files disk redis output path_dir laws sha1 post target_url form.upload_id creates
          writes prints serves recorded chosen w₀
          (state js [] [] (length js) w)
  at_start recorded chosen js w₀ w same uploads = ([], uploads, λ i. ap (mem i) same)

  -- When every index is received, each of the chosen chunks is recorded.
  chosen_are_done :
      (recorded chosen : List ℕ) (w₀ : W) (u : State W)
      → outstanding post sha1 target_url u ≡ to_receive post sha1 target_url u
      → to_receive post sha1 target_url u ≡ 0
      → Recorded files disk redis output path_dir laws sha1 post target_url form.upload_id creates
          writes prints serves recorded chosen w₀ u
      → (done : List ℕ) × Uploads files redis output path_dir laws form.upload_id w₀
          (map decimal (done ++ recorded))
          (world_of u)
        × ((k : ℕ) → mem k done ≡ mem k chosen)
  chosen_are_done recorded chosen w₀ u same none_left (done, uploads, covers) = (
    done,
    uploads,
    λ k.
        sym (or_false (mem k done))
        ∙ rw (← (none_pending post sha1 target_url k u (same ∙ none_left))) (covers k),
  )

  parts_complete :
      (j : Json) (stub : Stub j W) (shell : Shell W) (publish : Publish W) (transfer : TransferJson)
      (filehash : Text) (size count limit : ℕ) (recorded : List ℕ) (fields : Fields) (js : List Job)
      (w₀ w : W) (k : ℕ) (t : State W)
      → size < 2 ^ 63
      → chunk_count (pos size) ≡ pos count
      → 1 ≤ limit
      → count ≤ limit
      → All (IsIndex count) recorded
      → SameFields fields (with_parts (map decimal recorded) (session_fields size filehash))
      → IsSession laws form.upload_id size filehash [] w₀
      → Uploads files redis output path_dir laws form.upload_id w₀ (map decimal recorded) w
      → map index_of js ≡ chunks_to_upload (chunks_exist fields) (pos limit) (pos count)
      → Steps post sha1 target_url (state js [] [] (length js) w) k t
      → (m : ℕ) × (u : State W) × Steps post sha1 target_url t m u
        × (to_receive post sha1 target_url u ≡ 0)
        × (complete_upload_handler j stub redis shell publish transfer form (world_of u)
            ≡ merge j stub redis shell publish transfer form (world_of u))
  parts_complete j stub shell publish transfer filehash size count limit recorded fields js w₀ w k t
        fits counted positive enough known listed session uploads same steps =
      let chosen : List ℕ = chunks_to_upload (chunks_exist fields) (pos limit) (pos count) in
      let (m, u, more, received, total) =
        transfer_finishes post sha1 target_url
          (λ i v. let (reads, body, fine, answer) = serves i v in (body, _, answer)) js w k t
          steps in
      let balanced : outstanding post sha1 target_url u ≡ to_receive post sha1 target_url u =
        omega (
          arith,
          Steps-outstanding post sha1 target_url steps,
          Steps-outstanding post sha1 target_url more,
        ) in
      let (done, all, covers) = chosen_are_done recorded chosen w₀ u balanced received (
        Steps-Recorded files disk redis output path_dir laws sha1 post target_url form.upload_id
          creates writes prints serves recorded chosen w₀ more
          (Steps-Recorded files disk redis output path_dir laws sha1 post target_url form.upload_id
            creates writes prints serves recorded chosen w₀ steps
            (at_start recorded chosen js w₀ w same uploads))) in
      (
        m,
        u,
        more,
        received,
        resumed_upload_completes files redis output path_dir laws mkdir_keeps create_keeps
            write_keeps shell_keeps j stub shell publish transfer form filehash size count limit
            recorded done fields w₀ (world_of u) fits counted positive enough known
            (All-IsIndex count done (λ i h.
              mem_ascending i 0 count chosen
                (chunks_to_upload-AreAscending (chunks_exist fields) limit count positive)
                (sym (covers i) ∙ h)))
            listed (λ i h. covers i ∙ h) session all,
      )

  -- A client resumes an upload of which a session has recorded some parts. Told of them by any listing of
  -- the session's hash, it chooses its chunks with a limit not below the chunk count, and reads the file
  -- in chunks that fit its buffer. However the goroutines that it starts take turns, it comes to have
  -- every index received, and the request to complete the upload, which it sends then, goes on to merge
  -- the chunks. The session was begun for a file of an int64 number of bytes, which is read in as many
  -- chunks at least as the server counts; every post runs the handler of the server on its body and is
  -- answered; the disk has room, the shell prints the digests of the parts, the redis is the documented
  -- one, and files and the shell leave its hashes.
  pub resumed_run_completes :
      (j : Json) (stub : Stub j W) (shell : Shell W) (publish : Publish W) (transfer : TransferJson)
      (filehash : Text) (size count limit : ℕ) (recorded : List ℕ) (fields : Fields)
      (rs : List Read) (w₀ w : W) (s : State W) (k : ℕ) (t : State W)
      → size < 2 ^ 63
      → chunk_count (pos size) ≡ pos count
      → 1 ≤ limit
      → count ≤ limit
      → count ≤ length rs
      → All IsChunk rs
      → All (IsIndex count) recorded
      → SameFields fields (with_parts (map decimal recorded) (session_fields size filehash))
      → IsSession laws form.upload_id size filehash [] w₀
      → Uploads files redis output path_dir laws form.upload_id w₀ (map decimal recorded) w
      → upload_parts_specified none
          (chunks_to_upload (chunks_exist fields) (pos limit) (pos count))
          rs
          w
        ≡ ret (ok s)
      → Steps post sha1 target_url s k t
      → (m : ℕ) × (u : State W) × Steps post sha1 target_url t m u
        × (to_receive post sha1 target_url u ≡ 0)
        × (complete_upload_handler j stub redis shell publish transfer form (world_of u)
            ≡ merge j stub redis shell publish transfer form (world_of u))
  resumed_run_completes j stub shell publish transfer filehash size count limit recorded fields rs
        w₀ w s k t fits counted positive enough long whole known listed session uploads starts
        steps =
      let (js, run, same) =
        upload_parts_specified-chosen (chunks_exist fields) limit count rs w positive long whole in
      parts_complete j stub shell publish transfer filehash size count limit recorded fields js w₀ w
        k t fits counted positive enough known listed session uploads same
        (subst (λ (x : State W). Steps post sha1 target_url x k t)
          (started_as s _ (sym starts ∙ run)) steps)
