-- ===== src/Upload/Multipart/Part/Recorded.antt =====
-- service/upload/api/mpupload.go, `UploadPartHandler`, as a step of a session: what its answers say of
-- the session's hash.
use mathlib.Core.Path.{subst}
use filestore_hsz.Prelude.{
  ◌≡◌, refl, ◌∙◌, Text, bytes, text_eq, text_eq_refl, pos, List, [], ◌∷◌, ◌++◌, none, Bool, true,
  false, if◌then◌else◌, Option-cases, inl, inr,
}
use filestore_hsz.Go.{Result, Exit, ret}
use filestore_hsz.Util.{Shell, compute_sha1_by_shell}
use filestore_hsz.Http.{Response, json}
use filestore_hsz.Upload.Services.{Files, Redis}
use filestore_hsz.Upload.Multipart.Keys.{Fields, chunk_key_prefix, chunk_field_prefix}
use filestore_hsz.Upload.Multipart.Keys.Session.{hset_field, part}
use filestore_hsz.Upload.Multipart.Part.{
  chunk_path, same_digest, verified, receive, upload_part_handler,
}
use filestore_hsz.Upload.Multipart.Part.Verified.{write_reads_lem, after_writes}
use filestore_hsz.Upload.Multipart.Flow.Hash.{RedisLaws, set_hash}

-- The answer to a part that is recorded; a part whose file cannot be created has code 0 too.
abbrev pub is_recorded : Response (Unit {0}) → Bool
is_recorded (json s c m d) = text_eq m (bytes "ok")
is_recorded _ = false

not-recorded : (m : Text) → text_eq (bytes "Upload part failed" ++ m) (bytes "ok") ≡ false
unfolding text_eq bytes
not-recorded m = refl

not-recorded_index :
    (i : Text) → text_eq (bytes "Verify hash failed, chKIdx:" ++ i) (bytes "ok") ≡ false
unfolding text_eq bytes
not-recorded_index i = refl

-- What a run that began with `before` does to the hashes.
abbrev pub Tells :
    {W : Type 0} {redis : Redis W}
    → RedisLaws redis
    → Text
    → Text
    → (Text → Fields)
    → Exit (Response (Unit {0})) × W
    → Type 0
Tells {W} laws upload_id i before x =
    (a : Response (Unit {0})) × (w : W) × (x ≡ (ret a, w))
    × (laws.hashes w ≡ (
        if is_recorded a
        then set_hash (chunk_key_prefix ++ upload_id)
            (hset_field (part i) (bytes "1") (before (chunk_key_prefix ++ upload_id))) before
        else before))

module _ {W : Type 0} (files : Files W) (redis : Redis W) (output : Shell W)
    (path_dir : Text → Text) (laws : RedisLaws redis)
    (mkdir_keeps : (p : Text) (w : W) → laws.hashes (files.mkdir_all p w).1 ≡ laws.hashes w)
    (create_keeps : (p : Text) (w : W) → laws.hashes (files.create p w).1 ≡ laws.hashes w)
    (write_keeps : (p b : Text) (w : W) → laws.hashes (files.write p b w).1 ≡ laws.hashes w)
    (shell_keeps : (c : Text) (w : W) → laws.hashes (output c w).1 ≡ laws.hashes w) where
  verified-Tells :
      (upload_id i : Text) (good : Bool) (w : W)
      → Tells laws upload_id i
          (laws.hashes w)
          (verified files redis output path_dir upload_id i good w)
  unfolding verified
  verified-Tells upload_id i true w = (
    json 200 (pos 0) (bytes "ok") none,
    (redis.hset (chunk_key_prefix ++ upload_id) (chunk_field_prefix ++ i) (bytes "1") w).1,
    refl,
    rw (text_eq_refl (bytes "ok"))
        (laws.hset_sets (chunk_key_prefix ++ upload_id) (part i) (bytes "1") w),
  )
  verified-Tells upload_id i false w = (_, w, refl, rw (not-recorded_index i) refl)

  after_writes-hashes :
      (fpath : Text) (reads : List Text) (w : W)
      → laws.hashes (after_writes files redis output path_dir fpath reads w) ≡ laws.hashes w
  after_writes-hashes fpath [] w = refl
  after_writes-hashes fpath (buf ∷ reads) w =
      after_writes-hashes fpath reads (files.write fpath buf w).1 ∙ write_keeps fpath buf w

  Tells-from :
      {before after : Text → Fields} {x : Exit (Response (Unit {0})) × W} (upload_id i : Text)
      → before ≡ after
      → Tells laws upload_id i before x
      → Tells laws upload_id i after x
  Tells-from {x = x} upload_id i e h = subst (λ b. Tells laws upload_id i b x) e h

  compute_keeps :
      (p : Text) (w : W)
      → (r : Result Text) × (w' : W) × (compute_sha1_by_shell output p w ≡ (ret r, w'))
        × (laws.hashes w' ≡ laws.hashes w)
  unfolding compute_sha1_by_shell
  compute_keeps p w = (_, _, refl, shell_keeps _ w)

  receive-Tells :
      (upload_id chunk_sha1 i : Text) (reads : List Text) (w : W)
      → Tells laws upload_id i
          (laws.hashes w)
          (receive files redis output path_dir upload_id chunk_sha1 i reads w)
  unfolding receive
  receive-Tells upload_id chunk_sha1 i reads w =
      let w₁ = after_writes files redis output path_dir (chunk_path upload_id i) reads w in
      let (r, w₂, run, kept) = compute_keeps (chunk_path upload_id i) w₁ in
      rw (write_reads_lem files redis output path_dir (chunk_path upload_id i) reads w, run)
        (Tells-from upload_id i (kept ∙ after_writes-hashes (chunk_path upload_id i) reads w)
          (verified-Tells upload_id i (same_digest r chunk_sha1) w₂))

  -- An answer to a part tells what was recorded: the part's field is set to 1 in the hash of its
  -- session exactly if the answer is `ok`, and otherwise no hash changes. No run panics. The redis is
  -- the documented one, and files and the shell leave its hashes.
  pub upload_part_handler-Tells :
      (upload_id chunk_sha1 i : Text) (reads : List Text) (w : W)
      → Tells laws upload_id i
          (laws.hashes w)
          (upload_part_handler files redis output path_dir upload_id chunk_sha1 i reads w)
  unfolding upload_part_handler
  upload_part_handler-Tells upload_id chunk_sha1 i reads w =
      let fpath = chunk_path upload_id i in
      let w₁ = (files.mkdir_all (path_dir fpath) w).1 in
      let w₂ = (files.create fpath w₁).1 in
      let kept = create_keeps fpath w₁ ∙ mkdir_keeps (path_dir fpath) w in
      elim (Option-cases (files.create fpath w₁).0) [
        | inl fine ↦
            rw fine (Tells-from upload_id i kept (receive-Tells upload_id chunk_sha1 i reads w₂))
        | inr (m, failed) ↦
            rw failed (Tells-from upload_id i kept ((_, w₂, refl, rw (not-recorded m) refl)))
      ]
