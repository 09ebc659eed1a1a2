-- ===== src/Dbproxy/Client/Frame.antt =====
-- What the calls that write to the tables of files keep of the rest of the world, such as the disk and
-- the object store.
use filestore_hsz.Prelude.{ℕ, ◌≡◌, refl, Text, length, ℤ, List, [], ◌∷◌, Option, none, some, true}
use filestore_hsz.Go.{Go, pure, call, ◌>>=◌}
use filestore_hsz.Go.Frame.{Keeps, bind-Keeps}
use filestore_hsz.Dbproxy.Sql.{Sql, Arg, Clock}
use filestore_hsz.Dbproxy.Define.{ExecResult, failure}
use filestore_hsz.Dbproxy.Orm.Statement.{
  Statement, sql_text, prepared, insert_file, insert_user_file, update_location,
}
use filestore_hsz.Dbproxy.Orm.File.{on_file_upload_finished, update_file_location}
use filestore_hsz.Dbproxy.Orm.User.{executed}
use filestore_hsz.Dbproxy.Orm.UserFile.{on_user_file_upload_finished}
use filestore_hsz.Dbproxy.Mapper.{Param, Function, text, int, key_of, num_in, invoke}
use filestore_hsz.Dbproxy.Json.{Json, JsonLaws, ArePlain, IsPlain}
use filestore_hsz.Dbproxy.Client
use filestore_hsz.Dbproxy.Client.{request, FileMeta}
use filestore_hsz.Dbproxy.Client.Delivery.{direct, request-key_of}

-- The database server and the clock touch nothing that `I` is about.
pub record Apart {W : Type 0} (sql : Sql W) (clock : Clock W) (I : W → Type 0) : Type 0 where
  pub prepares : (q : Text) (w : W) → I w → I (sql.prepare q w).1
  pub execs : (q : Text) (args : List Arg) (w : W) → I w → I (sql.exec q args w).1
  pub reads : (w : W) → I w → I (clock.now w).1

module _ {W : Type 0} (sql : Sql W) (clock : Clock W) (I : W → Type 0)
    (apart : Apart sql clock I) where
  if_prepared :
      (e : Option Text) (on_error : Text → ExecResult) (body : Go W ExecResult)
      → Keeps I body
      → Keeps I (elim e [ none ↦ body | some m ↦ pure (on_error m) ])
  if_prepared none on_error body kept w h = kept w h
  if_prepared (some m) on_error body kept w h = h

  prepared-Keeps :
      (s : Statement) (on_error : Text → ExecResult) (body : Go W ExecResult)
      → Keeps I body
      → Keeps I (prepared sql s on_error body)
  unfolding prepared
  prepared-Keeps s on_error body kept =
      bind-Keeps I {B = ExecResult} (call (sql.prepare (sql_text s)))
        (λ e. elim e [ none ↦ body | some m ↦ pure (on_error m) ]) (apart.prepares (sql_text s))
        (λ e. if_prepared e on_error body kept)

  update_file_location-Keeps : (h a : Text) → Keeps I (update_file_location sql h a)
  unfolding update_file_location
  update_file_location-Keeps h a =
      prepared-Keeps update_location _ _ (λ w. apart.execs (sql_text update_location) _ w)

  on_file_upload_finished-Keeps :
      (h n : Text) (s : ℤ) (a : Text) → Keeps I (on_file_upload_finished sql h n s a)
  unfolding on_file_upload_finished
  on_file_upload_finished-Keeps h n s a =
      prepared-Keeps insert_file _ _ (λ w. apart.execs (sql_text insert_file) _ w)

  executed_at : Statement → (ℕ → List Arg) → Go W ExecResult
  executed_at s args = do
    now ← call clock.now
    result ← call (sql.exec (sql_text s) (args now))
    pure (executed result)

  executed_at-Keeps : (s : Statement) (args : ℕ → List Arg) → Keeps I (executed_at s args)
  unfolding executed_at
  executed_at-Keeps s args w h =
      apart.execs (sql_text s) (args (clock.now w).0) (clock.now w).1 (apart.reads w h)

  on_user_file_upload_finished-Keeps :
      (u h n : Text) (s : ℤ) → Keeps I (on_user_file_upload_finished sql clock u h n s)
  unfolding on_user_file_upload_finished executed_at
  on_user_file_upload_finished-Keeps u h n s = prepared-Keeps insert_user_file failure _ (
      executed_at-Keeps insert_user_file
        (λ now. Arg.text u ∷ Arg.text h ∷ Arg.text n ∷ Arg.int s ∷ Arg.time now ∷ []))

  module _ (j : Json) (laws : JsonLaws j) where
    request-Keeps :
        (f : Function) (ps : List Param)
        → ArePlain j ps
        → length ps ≡ num_in f
        → Keeps I (invoke sql clock f ps)
        → Keeps I (request j (direct sql clock j laws) (key_of f) ps)
    request-Keeps f ps plain all kept w h =
        rw (request-key_of sql clock j laws f ps w plain all)
          (bind-Keeps I (invoke sql clock f ps) _ kept (λ r v k. k) w h)

    pub client_location-Keeps :
        (h a : Text)
        → j.is_utf8 h ≡ true
        → j.is_utf8 a ≡ true
        → Keeps I (Client.update_file_location j (direct sql clock j laws) h a)
    unfolding Client.update_file_location num_in key_of invoke
    client_location-Keeps h a ph pa =
        request-Keeps Function.file_location (text h ∷ text a ∷ []) (ph, (pa, tt)) refl
          (update_file_location-Keeps h a)

    pub client_file-Keeps :
        (h n a at : Text) (s : ℤ)
        → j.is_utf8 h ≡ true
        → j.is_utf8 n ≡ true
        → j.is_utf8 a ≡ true
        → IsPlain j (int s)
        → Keeps I (
            Client.on_file_upload_finished j (direct sql clock j laws) (record {
              file_sha1 = h;
              file_name = n;
              file_size = s;
              location = a;
              upload_at = at;
            }))
    unfolding Client.on_file_upload_finished num_in key_of invoke
    client_file-Keeps h n a at s ph pn pa ps =
        request-Keeps Function.file_upload_finished (text h ∷ text n ∷ int s ∷ text a ∷ [])
          (ph, (pn, (ps, (pa, tt)))) refl (on_file_upload_finished-Keeps h n s a)

    pub client_user_file-Keeps :
        (u h n a at : Text) (s : ℤ)
        → j.is_utf8 u ≡ true
        → j.is_utf8 h ≡ true
        → j.is_utf8 n ≡ true
        → IsPlain j (int s)
        → Keeps I (
            Client.on_user_file_upload_finished j (direct sql clock j laws) u (record {
              file_sha1 = h;
              file_name = n;
              file_size = s;
              location = a;
              upload_at = at;
            }))
    unfolding Client.on_user_file_upload_finished num_in key_of invoke
    client_user_file-Keeps u h n a at s pu ph pn ps =
        request-Keeps Function.user_file_upload_finished (text u ∷ text h ∷ text n ∷ int s ∷ [])
          (pu, (ph, (pn, (ps, tt)))) refl (on_user_file_upload_finished-Keeps u h n s)
