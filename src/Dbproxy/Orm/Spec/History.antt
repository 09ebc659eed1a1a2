-- ===== src/Dbproxy/Orm/Spec/History.antt =====
-- The requests of the abstract machine, called one after another, as a step relation on worlds.
use filestore_hsz.Prelude.{
  ◌≡◌, refl, sym, ap, ◌∙◌, Text, ℤ, Option, none, some, Bool, Option-cases, inl, inr, arith,
}
use filestore_hsz.Go.{Exit, ret}
use filestore_hsz.Dbproxy.Sql.{Sql, Clock}
use filestore_hsz.Dbproxy.Define.{ExecResult}
use filestore_hsz.Dbproxy.Mysql.{
  MySql, Tables, FileRow, UserFileRow, with_addr, with_status, with_name, add_user_file,
}
use filestore_hsz.Dbproxy.Mapper.{invoke}
use filestore_hsz.Dbproxy.Orm.Spec.Requests
use filestore_hsz.Dbproxy.Orm.Spec.Requests.{Request, IsFitting, effect_of, function_of, params_of}
use filestore_hsz.Dbproxy.Orm.Spec.Refines.{invoke_refines}
use filestore_hsz.Dbproxy.Orm.Spec.Invariant.{
  Kept, Kept-refl, SameFile, SameFile-refl, SameSize, Keeps, IsCollated, set_at-Kept, add_at-Kept,
  set_user_file-Kept, effect-IsCollated,
}

with_addr-Kept :
    (same : Text → Text → Bool) (a : Text) (o : Option FileRow)
    → Kept SameFile o (with_addr same a o)
with_addr-Kept same a none = tt
with_addr-Kept same a (some r) = (refl, refl, refl, refl)

with_status-Kept :
    (same : Text → Text → Bool) (st : ℤ) (n : Text) (o : Option UserFileRow)
    → Kept SameSize o (with_status same st n o)
with_status-Kept same st n none = tt
with_status-Kept same st n (some r) = ground arith

with_name-Kept :
    (same : Text → Text → Bool) (n m : Text) (o : Option UserFileRow)
    → Kept SameSize o (with_name same n m o)
with_name-Kept same n m none = tt
with_name-Kept same n m (some r) = ground arith

Kept-trans :
    {R : Type 0} (P : R → R → Type 0)
    → ((q r s : R) → P q r → P r s → P q s)
    → (a b c : Option R) → Kept P a b
    → Kept P b c
    → Kept P a c
Kept-trans P h none b c f g = tt
Kept-trans P h (some q) (some r) (some s) f g = h q r s f g
Kept-trans P h (some q) none c f g = elim f [ ]
Kept-trans P h (some q) (some r) none f g = elim g [ ]

Keeps-refl : (t : Tables) → Keeps t t
Keeps-refl t = record {
  users = λ u. Kept-refl _ (λ r. refl) (t.users u);
  files = λ h. Kept-refl SameFile SameFile-refl (t.files h);
  user_files = λ u h. Kept-refl SameSize (λ r. (refl, refl)) (t.user_files u h);
}

Keeps-trans : (r s t : Tables) → Keeps r s → Keeps s t → Keeps r t
Keeps-trans r s t f g = record {
  users = λ u.
      Kept-trans _ (λ a b c x y. y ∙ x) (r.users u) (s.users u) (t.users u) (f.users u) (g.users u);
  files = λ h.
      Kept-trans SameFile (λ a b c x y. (y.0 ∙ x.0, y.1 ∙ x.1, y.2 ∙ x.2, y.3 ∙ x.3)) (r.files h)
        (s.files h) (t.files h) (f.files h) (g.files h);
  user_files = λ u h.
      Kept-trans SameSize (λ a b c x y. (y.0 ∙ x.0, y.1 ∙ x.1)) (r.user_files u h)
        (s.user_files u h) (t.user_files u h) (f.user_files u h) (g.user_files u h);
}

module _ {W : Type 0} (sql : Sql W) (my : MySql sql) where
  add_user_file-Keeps :
      (u h : Text) (r : UserFileRow) (t : Tables)
      → IsCollated my.same t
      → Keeps t (add_user_file my.same u h r t)
  add_user_file-Keeps u h r t c = elim (Option-cases (t.user_files u h)) [
    | inl free ↦
        rw (add_user_file, free)
          (record {
            user_files =
                set_user_file-Kept my.same my.same_self my.same_sym my.same_trans u h (some r) t c
                  (rw free tt);
            users = (Keeps-refl t).users;
            files = (Keeps-refl t).files;
          })
    | inr (old, there) ↦ rw (add_user_file, there) (Keeps-refl t)
  ]

  effect-Keeps : (r : Request) (t : Tables) → IsCollated my.same t → Keeps t (effect_of my.same r t)
  effect-Keeps (Requests.sign_up u p) t c = record {
    users =
        add_at-Kept my.same my.same_self my.same_sym my.same_trans _ (λ r. refl) u p t.users
          c.users;
    files = (Keeps-refl t).files;
    user_files = (Keeps-refl t).user_files;
  }
  effect-Keeps (Requests.store_token u k) t c = record {
    users = (Keeps-refl t).users;
    files = (Keeps-refl t).files;
    user_files = (Keeps-refl t).user_files;
  }
  effect-Keeps (Requests.save_file h n s a) t c = record {
    files =
        add_at-Kept my.same my.same_self my.same_sym my.same_trans SameFile SameFile-refl h _
          t.files c.files;
    users = (Keeps-refl t).users;
    user_files = (Keeps-refl t).user_files;
  }
  effect-Keeps (Requests.move_file h a) t c = record {
    files =
        set_at-Kept my.same my.same_self my.same_sym my.same_trans SameFile SameFile-refl h _
          t.files c.files (with_addr-Kept my.same a (t.files h));
    users = (Keeps-refl t).users;
    user_files = (Keeps-refl t).user_files;
  }
  effect-Keeps (Requests.save_user_file u h n s) t c = add_user_file-Keeps u h _ t c
  effect-Keeps (Requests.change_status u h n s) t c = record {
    user_files =
        set_user_file-Kept my.same my.same_self my.same_sym my.same_trans u h _ t c
          (with_status-Kept my.same s n (t.user_files u h));
    users = (Keeps-refl t).users;
    files = (Keeps-refl t).files;
  }
  effect-Keeps (Requests.change_name u h n o) t c = record {
    user_files =
        set_user_file-Kept my.same my.same_self my.same_sym my.same_trans u h _ t c
          (with_name-Kept my.same n o (t.user_files u h));
    users = (Keeps-refl t).users;
    files = (Keeps-refl t).files;
  }
  effect-Keeps (Requests.sign_in u p) t c = Keeps-refl t
  effect-Keeps (Requests.read_token u) t c = Keeps-refl t
  effect-Keeps (Requests.ask_user u) t c = Keeps-refl t
  effect-Keeps (Requests.find_file h) t c = Keeps-refl t
  effect-Keeps (Requests.ask_uploaded u h) t c = Keeps-refl t

  module _ (clock : Clock W) (quiet : (v : W) → my.view (clock.now v).1 ≡ my.view v) where
    -- The worlds that requests of the abstract machine lead to, each with what it writes fitting its columns.
    pub data Reach (w : W) : W → Type 0 where
      here : Reach w w
      next :
          {v v' : W} {a : ExecResult}
          → Reach w v
          → (r : Request) → IsFitting r
          → invoke sql clock (function_of r) (params_of r) v ≡ (ret a, v')
          → Reach w v'

    step_view :
        (v v' : W) (a : ExecResult) (r : Request)
        → IsFitting r
        → invoke sql clock (function_of r) (params_of r) v ≡ (ret a, v')
        → my.view v' ≡ effect_of my.same r (my.view v)
    step_view v v' a r fits e =
        let (w', run, stored) = invoke_refines sql my clock quiet r v fits in
        ap (λ (x : Exit ExecResult × W). my.view x.1) (sym e ∙ run) ∙ stored

    -- From tables that agree with the collation of their keys, whatever requests follow, the
    -- tables still agree with it, every user keeps the password, every file keeps its row but
    -- for the address, and every file of a user keeps its row but for the name and the status. The
    -- server is the documented one, what is written fits its columns, the texts with characters of at most three bytes, and reading the clock changes no
    -- table.
    pub Reach-Keeps :
        {w w' : W}
        → IsCollated my.same (my.view w)
        → Reach w w'
        → IsCollated my.same (my.view w') × Keeps (my.view w) (my.view w')
    Reach-Keeps c here = (c, Keeps-refl _)
    Reach-Keeps {w} c (next {v} {v'} {a} reach r fits e) =
        let (c', kept) = Reach-Keeps c reach in
        rw (step_view v v' a r fits e) (
          effect-IsCollated my.same my.same_self my.same_sym my.same_trans r (my.view v) c',
          Keeps-trans (my.view w) (my.view v) _ kept (effect-Keeps r (my.view v) c'),
        )
