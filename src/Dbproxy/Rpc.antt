-- ===== src/Dbproxy/Rpc.antt =====
-- service/dbproxy/rpc/proxy.go: the actions of a request are decoded, called and answered in order.
use filestore_hsz.Prelude.{Text, bytes, List, [], ◌∷◌, map, Option, none, some}
use filestore_hsz.Go.{Result, ok, err, Go, pure, ◌>>=◌}
use filestore_hsz.Go.Strconv.{parse_int}
use filestore_hsz.Dbproxy.Sql.{Sql, Clock}
use filestore_hsz.Dbproxy.Define.{ExecResult, failure}
use filestore_hsz.Dbproxy.Mapper.{Param, int, number, func_call}
use filestore_hsz.Dbproxy.Json.{Json}

-- `SingleAction` of proxy.proto
pub record SingleAction (Params : Type 0) : Type 0 where
  pub name : Text
  pub params : Params

-- `v.(json.Number).Int64()`, whose error is ignored
unfoldable pub convert : Param → Param
convert (number s) = int (parse_int 10 s).number
convert p = p

unfoldable pub call_result : Result ExecResult → ExecResult
call_result (ok r) = r
call_result (err e) = failure (bytes "函数调用有误")

module _ {W : Type 0} (sql : Sql W) (clock : Clock W) (j : Json) where
  run_params : Text → Option (List Param) → Go W ExecResult
  run_params name none = pure (failure (bytes "请求球参数有误"))
  run_params name (some params) = do
    r ← func_call sql clock name (map convert params)
    pure (call_result r)

  unfoldable pub run_action : SingleAction j.Params → Go W ExecResult
  unfolding run_params call_result convert
  run_action a = run_params a.name (j.decode_params a.params)

  unfoldable pub run_actions : List (SingleAction j.Params) → Go W (List ExecResult)
  run_actions [] = pure []
  run_actions (a ∷ as_) = do r ← run_action a; rs ← run_actions as_; pure (r ∷ rs)

  -- `RespExec.Data`
  unfoldable pub execute_action : List (SingleAction j.Params) → Go W j.Data
  unfolding run_actions
  execute_action actions = do rs ← run_actions actions; pure (j.marshal_results rs)
