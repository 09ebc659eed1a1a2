-- ===== src/Dbproxy/Orm/User/Accounts.antt =====
-- service/dbproxy/orm/user.go over the documented server: accounts and tokens.
use filestore_hsz.Prelude.{
  ◌≡◌, refl, ap, ◌∙◌, Text, bytes, text_eq, text_eq_refl, Option-cases, inl, inr, List, [], ◌∷◌,
  Option, none, some, get_or, true, false, arith, All, if◌then◌else◌,
}
use filestore_hsz.Go.{ret, ok, ◌>>=◌}
use filestore_hsz.Dbproxy.Sql.{Value, null, Sql, scan_text}
use filestore_hsz.Dbproxy.Define.{ExecResult, failure, success, nil, bool, token}
use filestore_hsz.Dbproxy.Conn.{lookup, set_columns, parse_rows}
use filestore_hsz.Dbproxy.Mysql.{
  FitsChar, Fits, MySql, Tables, added, add_user, set_token, other_columns, user_columns,
}
use filestore_hsz.Dbproxy.Orm.Statement.{insert_user, select_user, replace_token, select_token}
use filestore_hsz.Dbproxy.Orm.User.{
  signed_up, signed_in, check_password, password_matches, user_signup, user_signin, update_token,
  get_user_token,
}

abbrev pub mismatch : ExecResult
mismatch = failure (bytes "用户名/密码不匹配")

-- What a sign in answers to a stored password, or to none.
abbrev pub verdict : Option Text → Text → ExecResult
verdict none q = mismatch
verdict (some p) q = if text_eq p q then success (bool true) else mismatch

-- What a sign up answers.
abbrev pub signup_answer : Option Text → ExecResult
signup_answer none = success nil
signup_answer (some old) = failure (bytes "无记录更新")

lookup-set_columns :
    (k : Text) (cs : List Text) (vs : List Value) (m : List (Text × Value))
    → All (λ c. text_eq c k ≡ false) cs
    → lookup k (set_columns cs vs m) ≡ lookup k m
unfolding lookup set_columns
lookup-set_columns k [] vs m h = refl
lookup-set_columns k (c ∷ cs) [] m h = refl
lookup-set_columns k (c ∷ cs) (null ∷ vs) m h = lookup-set_columns k cs vs m h.1
lookup-set_columns k (c ∷ cs) (Value.int i ∷ vs) m h =
    lookup-set_columns k cs vs ((c, Value.int i) ∷ m) h.1 ∙ rw h.0 refl
lookup-set_columns k (c ∷ cs) (Value.text t ∷ vs) m h =
    lookup-set_columns k cs vs ((c, Value.text t) ∷ m) h.1 ∙ rw h.0 refl

abbrev pwd : Text
pwd = bytes "user_pwd"

no_other_pwd : All (λ c. text_eq c pwd ≡ false) other_columns
unfolding text_eq bytes
no_other_pwd = (refl, (refl, (refl, (refl, (refl, (refl, (refl, (refl, tt))))))))

pwd_column :
    (p : Text) (rest : List Value) (m : List (Text × Value))
    → lookup pwd (set_columns (pwd ∷ other_columns) (Value.text p ∷ rest) m) ≡ Value.text p
unfolding lookup set_columns
pwd_column p rest m =
    lookup-set_columns pwd other_columns rest ((pwd, Value.text p) ∷ m) no_other_pwd
    ∙ rw (text_eq_refl pwd) refl

pwd_behind_name :
    (n : Value) (p : Text) (rest : List Value) (m : List (Text × Value))
    → lookup pwd (set_columns (bytes "user_name" ∷ pwd ∷ other_columns) (n ∷ Value.text p ∷ rest) m)
      ≡ Value.text p
unfolding set_columns
pwd_behind_name null p rest m = pwd_column p rest m
pwd_behind_name (Value.int i) p rest m = pwd_column p rest _
pwd_behind_name (Value.text t) p rest m = pwd_column p rest _

pwd_of_row :
    (i n : Value) (p : Text) (rest : List Value)
    → lookup pwd (set_columns user_columns (i ∷ n ∷ Value.text p ∷ rest) []) ≡ Value.text p
unfolding set_columns
pwd_of_row null n p rest = pwd_behind_name n p rest []
pwd_of_row (Value.int k) n p rest = pwd_behind_name n p rest _
pwd_of_row (Value.text t) n p rest = pwd_behind_name n p rest _

signed_up-added : (o : Option Text) → signed_up (ok (ok (added o))) ≡ signup_answer o
unfolding signed_up
signed_up-added none = refl
signed_up-added (some p) = refl

module _ {W : Type 0} where
  signed_in_row :
      (i n : Value) (p q : Text) (rest : List Value) (w : W)
      → signed_in
          (ok (some (record { columns = user_columns; rows = (i ∷ n ∷ Value.text p ∷ rest) ∷ [] })))
          q
          w
        ≡ (ret (verdict (some p) q), w)
  unfolding signed_in check_password parse_rows
  signed_in_row i n p q rest w =
      ap (λ (v : Value). password_matches v q w) (pwd_of_row i n p rest)
      ∙ (unfold password_matches in refl)

module _ {W : Type 0} (sql : Sql W) (my : MySql sql) where
  -- A sign up whose name and password fit their columns succeeds exactly when the name is free, and
  -- then stores the password; a name that is taken keeps its row. The server is the documented one.
  pub user_signup_lem :
      (u p : Text) (w : W)
      → Fits u 64
      → Fits p 256
      → (w' : W) × (user_signup sql u p w ≡ (ret (signup_answer ((my.view w).users u)), w'))
        × (my.view w' ≡ add_user my.same u p (my.view w))
  unfolding user_signup
  user_signup_lem u p w fu fp =
      let (w', run, stored) = my.inserts_user u p w fu fp in
      (
        w',
        rw (my.prepares insert_user w (λ e. cc), run)
            (ap (λ (r : ExecResult). (ret r, w')) (signed_up-added ((my.view w).users u))),
        stored,
      )

  -- A sign in accepts exactly the stored password, and changes nothing. The server is the documented
  -- one.
  pub user_signin_lem :
      (u q : Text) (w : W) → user_signin sql u q w ≡ (ret (verdict ((my.view w).users u) q), w)
  unfolding user_signin
  user_signin_lem u q w = elim (Option-cases ((my.view w).users u)) [
    | inl free ↦
        rw (my.prepares select_user w (λ e. cc), my.selects_no_user u w free, free)
          (unfold signed_in check_password in refl)
    | inr (p, taken) ↦
        rw (my.prepares select_user w (λ e. cc), my.selects_user u p w taken, taken)
          (signed_in_row (my.user_id w u) (my.user_name w u) p q (my.user_rest w u) w)
  ]

  stored_password :
      (u p : Text) (t : Tables) → (add_user my.same u p t).users u ≡ some (get_or (t.users u) p)
  stored_password u p t = ground (arith, my.same_self u)

  -- After a sign up whose name and password fit their columns, with characters of at most three bytes, a sign in under that name is answered
  -- by the password that the name had before, if it was taken, and by the new one if it was free.
  -- The server is the documented one.
  pub signin_after_signup :
      (u p q : Text) (w : W)
      → Fits u 64
      → Fits p 256
      → ((user_signup sql u p >>= λ _. user_signin sql u q) w).0
        ≡ ret (verdict (some (get_or ((my.view w).users u) p)) q)
  signin_after_signup u p q w fu fp =
      let (w', run, stored) = user_signup_lem u p w fu fp in
      rw (run, user_signin_lem u q w', stored, stored_password u p (my.view w)) refl

  -- An update of a token reports success, and stores the token in place of any before it.
  pub update_token_lem :
      (u t : Text) (w : W)
      → Fits u 64
      → FitsChar t 40
      → (w' : W) × (update_token sql u t w ≡ (ret (success nil), w'))
        × (my.view w' ≡ set_token my.same u t (my.view w))
  unfolding update_token
  update_token_lem u t w fu ft =
      let (n, w', run, stored) = my.replaces_token u t w fu ft in
      (w', rw (my.prepares replace_token w (λ e. cc), run) refl, stored)

  -- A query for a stored token answers with it, and changes nothing.
  pub get_user_token_lem :
      (u t : Text) (w : W)
      → (my.view w).tokens u ≡ some t
      → get_user_token sql u w ≡ (ret (success (token t)), w)
  unfolding get_user_token scan_text
  get_user_token_lem u t w there =
      rw (my.prepares select_token w (λ e. cc), my.selects_token u w, there) refl

  -- The token that is read after an update is the one that the update stored, if the name and the
  -- token fit their columns. The server is the documented one.
  pub token_after_update :
      (u t : Text) (w : W)
      → Fits u 64
      → FitsChar t 40
      → ((update_token sql u t >>= λ _. get_user_token sql u) w).0 ≡ ret (success (token t))
  token_after_update u t w fu ft =
      let (w', run, stored) = update_token_lem u t w fu ft in
      rw (run, get_user_token_lem u t w' (rw (stored, my.same_self u) refl)) refl
