-- ===== src/Dbproxy/Orm/Spec/Refines.antt =====
-- service/dbproxy/mapper over service/dbproxy/orm, against the abstract machine.
use filestore_hsz.Prelude.{
  ◌≡◌, refl, ap, Text, ℤ, [], ◌∷◌, Option, none, some, Bool, true, false, Option-cases, inl, inr,
}
use filestore_hsz.Go.{ret}
use filestore_hsz.Dbproxy.Sql.{Sql, Clock}
use filestore_hsz.Dbproxy.Define.{success, nil, exists}
use filestore_hsz.Dbproxy.Mysql.{
  IsInt32, is_utf8mb3, MySql, exists_rows, set_user_file, with_status,
}
use filestore_hsz.Dbproxy.Orm.Statement.{select_token, select_user_exists, update_status}
use filestore_hsz.Dbproxy.Orm.User.{get_user_token, user_exist}
use filestore_hsz.Dbproxy.Orm.User.Accounts.{
  user_signup_lem, user_signin_lem, update_token_lem, get_user_token_lem,
}
use filestore_hsz.Dbproxy.Orm.File.Catalog.{
  get_file_meta_lem, on_file_upload_finished_lem, relocation_effect,
}
use filestore_hsz.Dbproxy.Orm.UserFile.{delete_user_file}
use filestore_hsz.Dbproxy.Orm.UserFile.Trash.{
  is_user_file_uploaded_lem, on_user_file_upload_finished_lem, rename_effect,
}
use filestore_hsz.Dbproxy.Mapper.{invoke}
use filestore_hsz.Dbproxy.Orm.Spec.Requests

some_row :
    (o : Option Text) → (elim (exists_rows o) [ [] ↦ false | _ ∷ _ ↦ true ]) ≡ Requests.is_user o
some_row none = refl
some_row (some p) = refl

module _ {W : Type 0} (sql : Sql W) (my : MySql sql) where
  token_lem :
      (u : Text) (w : W)
      → get_user_token sql u w ≡ (ret (Requests.token_answer ((my.view w).tokens u)), w)
  token_lem u w = elim (Option-cases ((my.view w).tokens u)) [
    | inl absent ↦
        unfold get_user_token in
        rw (my.prepares select_token w (λ e. cc), my.selects_token u w, absent) refl
    | inr (k, there) ↦ rw there (get_user_token_lem sql my u k w there)
  ]

  user_exist_lem :
      (u : Text) (w : W)
      → user_exist sql u w ≡ (ret (success (exists (Requests.is_user ((my.view w).users u)))), w)
  unfolding user_exist
  user_exist_lem u w =
      rw (my.prepares select_user_exists w (λ e. cc), my.selects_user_exists u w)
        (ap (λ (b : Bool). (ret (success (exists b)), w)) (some_row ((my.view w).users u)))

  status_lem :
      (u h n : Text) (st : ℤ) (w : W)
      → IsInt32 st
      → is_utf8mb3 u ≡ true
      → is_utf8mb3 h ≡ true
      → is_utf8mb3 n ≡ true
      → (w' : W) × (delete_user_file sql u h n st w ≡ (ret (success nil), w'))
        × (my.view w'
            ≡ set_user_file my.same u h
                (with_status my.same st n ((my.view w).user_files u h))
                (my.view w))
  unfolding delete_user_file
  status_lem u h n st w fst tu th tn =
      let (k, w', run, stored) = my.updates_status st u h n w fst tu th tn in
      (w', rw (my.prepares update_status w (λ e. cc), run) refl, stored)

  module _ (clock : Clock W) (quiet : (v : W) → my.view (clock.now v).1 ≡ my.view v) where
    -- Every request of the abstract machine, called by its function's name with its parameters, returns
    -- the machine's answer and leaves the tables as the machine does, if what is written fits its
    -- columns and the texts have characters of at most three bytes. The server is the documented one, and reading the clock changes no table.
    pub invoke_refines :
        (r : Requests.Request) (w : W)
        → Requests.IsFitting r
        → (w' : W) × (invoke sql clock (Requests.function_of r) (Requests.params_of r) w
            ≡ (ret (Requests.answer_of my.same r (my.view w)), w'))
          × (my.view w' ≡ Requests.effect_of my.same r (my.view w))
    unfolding invoke
    invoke_refines (Requests.sign_up u p) w fits = user_signup_lem sql my u p w fits.0 fits.1
    invoke_refines (Requests.sign_in u p) w fits = (w, user_signin_lem sql my u p w, refl)
    invoke_refines (Requests.store_token u k) w fits = update_token_lem sql my u k w fits.0 fits.1
    invoke_refines (Requests.read_token u) w fits = (w, token_lem u w, refl)
    invoke_refines (Requests.ask_user u) w fits = (w, user_exist_lem u w, refl)
    invoke_refines (Requests.save_file h n s a) w (fh, fn, fa, fs) =
        on_file_upload_finished_lem sql my h n s a w fh fn fa fs
    invoke_refines (Requests.find_file h) w fits = (w, get_file_meta_lem sql my h w, refl)
    invoke_refines (Requests.move_file h a) w fits = relocation_effect sql my h a w fits.0 fits.1
    invoke_refines (Requests.save_user_file u h n s) w (fu, fh, fn, fs) =
        on_user_file_upload_finished_lem sql my clock u h n s w fu fh fn fs (quiet w)
    invoke_refines (Requests.change_status u h n s) w (fs, tu, th, tn) =
        status_lem u h n s w fs tu th tn
    invoke_refines (Requests.change_name u h n o) w (fn, tu, th, to) =
        rename_effect sql my u h n o w fn tu th to
    invoke_refines (Requests.ask_uploaded u h) w fits =
        (w, is_user_file_uploaded_lem sql my u h w, refl)
