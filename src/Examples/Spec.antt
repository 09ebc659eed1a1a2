-- ===== src/Examples/Spec.antt =====
-- The abstract machine's requests on a server in memory.
use filestore_hsz.Dbproxy.Mysql.{is_utf8mb3}
use filestore_hsz.Prelude.{
  ◌≡◌, refl, ap, Text, text_eq, text_eq_iff, [], ◌∷◌, none, some, true, arith, if◌then◌else◌,
}
use filestore_hsz.Go.{ret}
use filestore_hsz.Dbproxy.Sql.{Clock}
use filestore_hsz.Dbproxy.Define.{success, nil, bool}
use filestore_hsz.Dbproxy.Mysql.{Tables, add_user}
use filestore_hsz.Dbproxy.Mapper.{Function, text, invoke}
use filestore_hsz.Dbproxy.Rpc.{execute_action}
use filestore_hsz.Dbproxy.Orm.Spec.Requests
use filestore_hsz.Dbproxy.Orm.Spec.Refines.{invoke_refines}
use filestore_hsz.Dbproxy.Orm.Spec.Batch.{action_of, execute_action_refines}
use filestore_hsz.Dbproxy.Orm.Spec.Invariant.{Keeps, IsCollated}
use filestore_hsz.Dbproxy.Orm.Spec.History.{Reach, here, next, Reach-Keeps}
use filestore_hsz.Examples.Server.{server, server_laws}
use filestore_hsz.Examples.Codec.{codec, codec_laws}

abbrev alice : Text
alice = b'a' ∷ b'l' ∷ b'i' ∷ b'c' ∷ b'e' ∷ []

abbrev bob : Text
bob = b'b' ∷ b'o' ∷ b'b' ∷ []

-- Alice has signed up.
abbrev tables : Tables
tables = record {
  users = λ u. if text_eq u alice then some bob else none;
  tokens = λ u. none;
  files = λ h. none;
  user_files = λ u h. none;
}

abbrev clock : Clock Tables
clock = record { now = λ t. (5, t) }

invoke_refines_example :
    (w' : Tables) × (invoke server clock Function.signup (text bob ∷ text alice ∷ []) tables
      ≡ (ret (success nil), w'))
    × (w' ≡ add_user text_eq bob alice tables)
unfolding server_laws text_eq is_utf8mb3
invoke_refines_example =
    invoke_refines server server_laws clock (λ v. refl) (Requests.sign_up bob alice) tables
      ((omega arith, refl), (omega arith, refl))

-- Bob signs up and is asked for.
execute_action_refines_example :
    (w' : Tables) × (execute_action server clock codec
        (action_of codec (Requests.sign_up bob alice)
          ∷ action_of codec (Requests.sign_in bob alice)
          ∷ [])
        tables
      ≡ (ret (success nil ∷ success (bool true) ∷ []), w'))
    × (w' ≡ add_user text_eq bob alice tables)
unfolding server_laws text_eq is_utf8mb3
execute_action_refines_example =
    execute_action_refines server server_laws clock codec codec_laws (λ v. refl)
      (Requests.sign_up bob alice ∷ Requests.sign_in bob alice ∷ []) tables
      (((omega arith, refl), (omega arith, refl)), (tt, tt))
      ((refl, (refl, tt)), ((refl, (refl, tt)), tt))

tables-IsCollated : (t : Tables) → IsCollated text_eq t
tables-IsCollated t = record {
  users = λ i k e. ap t.users ((text_eq_iff i k).0 e);
  tokens = λ i k e. ap t.tokens ((text_eq_iff i k).0 e);
  files = λ i k e. ap t.files ((text_eq_iff i k).0 e);
  user_files = λ u v h i e f. rw ((text_eq_iff u v).0 e, (text_eq_iff h i).0 f) refl;
}

-- Bob signs up.
bob_signs_up : Reach server server_laws clock (λ v. refl) tables (add_user text_eq bob alice tables)
unfolding server_laws text_eq is_utf8mb3
bob_signs_up =
    let (w', run, stored) = invoke_refines_example in
    next {v = tables} {a = success nil} here (Requests.sign_up bob alice)
      ((omega arith, refl), (omega arith, refl)) (rw (← stored) run)

Reach-Keeps_example :
    IsCollated text_eq (add_user text_eq bob alice tables)
    × Keeps tables (add_user text_eq bob alice tables)
unfolding server_laws
Reach-Keeps_example =
    Reach-Keeps server server_laws clock (λ v. refl) (tables-IsCollated tables) bob_signs_up
