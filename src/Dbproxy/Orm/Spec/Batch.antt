-- ===== src/Dbproxy/Orm/Spec/Batch.antt =====
-- service/dbproxy/rpc/proxy.go, `ExecuteAction`, against the abstract machine: the actions of one call.
use filestore_hsz.Prelude.{◌≡◌, refl, ap, ◌∙◌, length, List, [], ◌∷◌, map, All}
use filestore_hsz.Go.{ret}
use filestore_hsz.Dbproxy.Sql.{Sql, Clock}
use filestore_hsz.Dbproxy.Define.{ExecResult}
use filestore_hsz.Dbproxy.Mysql.{MySql, Tables}
use filestore_hsz.Dbproxy.Mapper.{key_of, num_in}
use filestore_hsz.Dbproxy.Json.{Json, JsonLaws, ArePlain}
use filestore_hsz.Dbproxy.Rpc.{SingleAction, run_actions, execute_action}
use filestore_hsz.Dbproxy.Client.Delivery.{run_action-key_of}
use filestore_hsz.Dbproxy.Orm.Spec.Requests.{
  Request, function_of, params_of, IsFitting, answer_of, effect_of,
}
use filestore_hsz.Dbproxy.Orm.Spec.Requests
use filestore_hsz.Dbproxy.Orm.Spec.Refines.{invoke_refines}

length-params_of : (r : Request) → length (params_of r) ≡ num_in (function_of r)
unfolding num_in
length-params_of (Requests.sign_up u p) = refl
length-params_of _ = refl

-- What the machine answers to one request after another, and the tables after them.
abbrev pub answers_of :
    {W : Type 0} {sql : Sql W} → MySql sql → List Request → Tables → List ExecResult
answers_of my [] t = []
answers_of my (r ∷ rs) t = answer_of my.same r t ∷ answers_of my rs (effect_of my.same r t)

abbrev pub effects_of : {W : Type 0} {sql : Sql W} → MySql sql → List Request → Tables → Tables
effects_of my [] t = t
effects_of my (r ∷ rs) t = effects_of my rs (effect_of my.same r t)

-- How a client asks for a request.
abbrev pub action_of : (j : Json) → Request → SingleAction j.Params
action_of j r = record { name = key_of (function_of r); params = j.marshal_params (params_of r) }

module _ {W : Type 0} (sql : Sql W) (my : MySql sql) (clock : Clock W) (j : Json)
    (laws : JsonLaws j) (quiet : (v : W) → my.view (clock.now v).1 ≡ my.view v) where
  run_actions_refines :
      (rs : List Request) (w : W)
      → All IsFitting rs
      → All (λ r. ArePlain j (params_of r)) rs
      → (w' : W) × (run_actions sql clock j (map (action_of j) rs) w
          ≡ (ret (answers_of my rs (my.view w)), w'))
        × (my.view w' ≡ effects_of my rs (my.view w))
  unfolding run_actions
  run_actions_refines [] w fits plain = (w, refl, refl)
  run_actions_refines (r ∷ rs) w fits plain =
      let (w₁, run, stored) = invoke_refines sql my clock quiet r w fits.0 in
      let (w₂, runs, stored') = run_actions_refines rs w₁ fits.1 plain.1 in
      (
        w₂,
        rw
            (
              run_action-key_of sql clock j laws (function_of r) (params_of r) w plain.0
                  (length-params_of r),
              run,
              runs,
              stored,
            )
            refl,
        stored' ∙ ap (effects_of my rs) stored,
      )

  -- A call of the proxy with any list of requests answers with the marshalled answers of the abstract
  -- machine, one for each in order, and leaves the tables as the machine does after all of them. What is
  -- written fits its columns, the texts have characters of at most three bytes, the parameters are plain, the server and the codec are the documented
  -- ones, and reading the clock changes no table.
  pub execute_action_refines :
      (rs : List Request) (w : W)
      → All IsFitting rs
      → All (λ r. ArePlain j (params_of r)) rs
      → (w' : W) × (execute_action sql clock j (map (action_of j) rs) w
          ≡ (ret (j.marshal_results (answers_of my rs (my.view w))), w'))
        × (my.view w' ≡ effects_of my rs (my.view w))
  unfolding execute_action
  execute_action_refines rs w fits plain =
      let (w', run, stored) = run_actions_refines rs w fits plain in (w', rw run refl, stored)
