-- ===== src/Examples/World.antt =====
-- A world that holds the server's tables, a disk and a bucket.
use filestore_hsz.Prelude.{
  ℕ, ◌≡◌, refl, sym, ◌∙◌, ap, Text, bytes, text_eq, text_eq_refl, length, [], ◌++◌, Option, none,
  some,
}
use filestore_hsz.Go.{Result, ok, err, Exit, ret}
use filestore_hsz.Dbproxy.Sql.{Sql}
use filestore_hsz.Dbproxy.Mysql.{MySql, Tables, set_at}
use filestore_hsz.Upload.Services.{Files, Stores}
use filestore_hsz.Upload.Disk.{DiskLaws}
use filestore_hsz.Transfer.Storage.{BucketLaws}
use filestore_hsz.Examples.Server.{server, server_laws}

abbrev pub Disk : Type 0
Disk = Text → Option Text

-- A service that does not see the rest of the world.
abbrev pub beside : {A W X : Type 0} → (W → A × W) → W × X → A × (W × X)
beside f (w, x) = let (a, w') = f w in (a, (w', x))

module _ {W X : Type 0} where
  abbrev pub lifted : Sql W → Sql (W × X)
  lifted sql = record {
    prepare = λ q. beside (sql.prepare q);
    exec = λ q args. beside (sql.exec q args);
    query = λ q args. beside (sql.query q args);
  }

  module _ (sql : Sql W) (my : MySql sql) where
    pub framed :
        {A : Type 0} (x : X) (p q : A × W)
        → p ≡ q
        → ◌≡◌ {A = A × (W × X)} (p.0, (p.1, x)) (q.0, (q.1, x))
    framed {A} x p q e = ap (λ (r : A × W). (r.0, (r.1, x))) e

    unfoldable pub lifted_laws : MySql (lifted sql)
    lifted_laws = record {
      same = my.same;
      same_self = my.same_self;
      same_sym = my.same_sym;
      same_trans = my.same_trans;
      view = λ w. my.view w.0;
      user_id = λ w. my.user_id w.0;
      user_name = λ w. my.user_name w.0;
      user_rest = λ w. my.user_rest w.0;
      uploaded_at = λ w. my.uploaded_at w.0;
      updated_at = λ w. my.updated_at w.0;
      names = my.names;
      prepares = λ s w h. framed w.1 _ _ (my.prepares s w.0 h);
      inserts_user = λ u p w fu fp.
          let (v, run, e) = my.inserts_user u p w.0 fu fp in ((v, w.1), framed w.1 _ _ run, e);
      selects_user = λ u p w h. framed w.1 _ _ (my.selects_user u p w.0 h);
      selects_no_user = λ u w h. framed w.1 _ _ (my.selects_no_user u w.0 h);
      replaces_token = λ u t w fu ft.
          let (n, v, run, e) = my.replaces_token u t w.0 fu ft in
          (n, (v, w.1), framed w.1 _ _ run, e);
      selects_token = λ u w. framed w.1 _ _ (my.selects_token u w.0);
      inserts_file = λ h n s a w fh fn fa fs.
          let (v, run, e) = my.inserts_file h n s a w.0 fh fn fa fs in
          ((v, w.1), framed w.1 _ _ run, e);
      selects_file = λ h w. framed w.1 _ _ (my.selects_file h w.0);
      updates_location = λ a h w fa th.
          let (v, run, e) = my.updates_location a h w.0 fa th in ((v, w.1), framed w.1 _ _ run, e);
      inserts_user_file = λ u h n s now w fu fh fn fs.
          let (v, run, e) = my.inserts_user_file u h n s now w.0 fu fh fn fs in
          ((v, w.1), framed w.1 _ _ run, e);
      updates_status = λ st u h n w fs tu th tn.
          let (k, v, run, e) = my.updates_status st u h n w.0 fs tu th tn in
          (k, (v, w.1), framed w.1 _ _ run, e);
      renames_user_file = λ new u h old w f tu th to.
          let (k, v, run, e) = my.renames_user_file new u h old w.0 f tu th to in
          (k, (v, w.1), framed w.1 _ _ run, e);
      selects_user_exists = λ u w. framed w.1 _ _ (my.selects_user_exists u w.0);
      selects_uploaded = λ u h w. framed w.1 _ _ (my.selects_uploaded u h w.0);
      selects_user_file = λ u h w. framed w.1 _ _ (my.selects_user_file u h w.0);
    }

abbrev pub World : Type 0
World = Tables × (Disk × Disk)

abbrev pub world_server : Sql World
world_server = lifted server

abbrev pub world_laws : MySql world_server
world_laws = lifted_laws server server_laws

appended : Text → Option Text → Option Text
appended b none = none
appended b (some s) = some (s ++ b)

is_missing : Option Text → Option Text
is_missing none = some (bytes "no such file")
is_missing (some s) = none

contents : Option Text → Result Text
contents none = err (bytes "no such file")
contents (some s) = ok s

unfoldable pub world_files : Files World
unfolding appended is_missing contents
world_files = record {
  mkdir_all = λ p w. (tt, w);
  create = λ p (t, (d, o)). (none, (t, (set_at text_eq p (some []) d, o)));
  write = λ p b (t, (d, o)). ((length b, none), (t, (set_at text_eq p (appended b (d p)) d, o)));
  open_file = λ p (t, (d, o)). (is_missing (d p), (t, (d, o)));
  read_all = λ p (t, (d, o)). (contents (d p), (t, (d, o)));
}

unfoldable pub world_stores : Stores World
unfolding contents
world_stores = record {
  put_ceph = λ p b w. (none, w);
  get_ceph = λ p w. (ok [], w);
  put_oss = λ p r (t, (d, o)). elim r [
    | ok b ↦ (ret none, (t, (d, set_at text_eq p (some b) o)))
    | err e ↦ (ret (some e), (t, (d, o)))
  ];
  get_oss = λ p (t, (d, o)). (ret (contents (o p)), (t, (d, o)));
  oss_url = λ p w. (ret p, w);
}

unfoldable pub world_disk : DiskLaws world_files
unfolding world_files appended is_missing contents
world_disk = record {
  contents = λ w. w.1.0;
  creates =
      λ p w w' e. sym (ap (λ (x : Option Text × World). x.1.1.0 p) e) ∙ rw (text_eq_refl p) refl;
  writes = λ p s b w w' h e.
      sym (ap (λ (x : (ℕ × Option Text) × World). x.1.1.0 p) e) ∙ rw (text_eq_refl p, h) refl;
  opens = λ p s w h. rw h refl;
  reads = λ p s w h. rw h refl;
}

unfoldable pub world_bucket : BucketLaws world_stores
unfolding world_stores contents
world_bucket = record {
  objects = λ w. w.1.1;
  puts = λ p b w w' e.
      sym (ap (λ (x : Exit (Option Text) × World). x.1.1.1 p) e) ∙ rw (text_eq_refl p) refl;
  gets = λ p b w h. rw h refl;
}
