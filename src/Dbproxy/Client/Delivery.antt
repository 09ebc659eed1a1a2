-- ===== src/Dbproxy/Client/Delivery.antt =====
-- A client's call, the connection, and the SQL function that the call names.
use filestore_hsz.Prelude.{
  Text, bytes, text_eq, length, ◌≡◌, refl, ap, ◌∙◌, List, [], ◌∷◌, map, Option, some, none, ==_iff,
}
use filestore_hsz.Go.{Exit, ret, panic, continue, ok, pure, ◌>>=◌}
use filestore_hsz.Go.Laws.{bind-pure, bind_assoc}
use filestore_hsz.Go.Strconv.{IntResult}
use filestore_hsz.Go.Strconv.RoundTrip.{parse_int-decimal}
use filestore_hsz.Dbproxy.Sql.{Sql, Clock}
use filestore_hsz.Dbproxy.Define.{ExecResult}
use filestore_hsz.Dbproxy.Mapper.{
  Function, Param, text, int, funcs, key_of, num_in, invoke, func_call,
}
use filestore_hsz.Dbproxy.Json.{Json, JsonLaws, Reply, IsPlain, ArePlain, as_number, sent}
use filestore_hsz.Dbproxy.Rpc.{convert, call_result, execute_action, run_action}
use filestore_hsz.Dbproxy.Client.{Stub, WithError, request, parse_body, first_reply}

-- Every key of the map finds its own function.
pub funcs-key_of : (f : Function) → funcs (key_of f) ≡ some f
unfolding funcs key_of text_eq bytes
funcs-key_of Function.file_upload_finished = refl
funcs-key_of _ = refl

convert-as_number : (j : Json) (p : Param) → IsPlain j p → convert (as_number p) ≡ p
unfolding convert
convert-as_number j (text t) h = refl
convert-as_number j (int i) h = ap (λ (r : IntResult). int r.number) (parse_int-decimal i h.0 h.1)
convert-as_number j _ h = elim h [ ]

map-convert : (j : Json) (ps : List Param) → ArePlain j ps → map convert (map as_number ps) ≡ ps
map-convert j [] h = refl
map-convert j (p ∷ ps) h = rw (convert-as_number j p h.0, map-convert j ps h.1)

module _ {W : Type 0} (sql : Sql W) (clock : Clock W) (j : Json) (laws : JsonLaws j) where
  -- The proxy behind a connection that loses nothing.
  abbrev pub direct : Stub j W
  direct actions = do body ← execute_action sql clock j actions; pure (ok body)

  func_call-key_of :
      (f : Function) (ps : List Param) (w : W)
      → length ps ≡ num_in f
      → func_call sql clock (key_of f) ps w ≡ (invoke sql clock f ps >>= λ r. pure (ok r)) w
  unfolding func_call
  func_call-key_of f ps w h =
      rw (funcs-key_of f, func_call) (rw ((==_iff (length ps) (num_in f)).1 h) refl)

  pub run_action-key_of :
      (f : Function) (ps : List Param) (w : W)
      → ArePlain j ps
      → length ps ≡ num_in f
      → run_action sql clock j (record { name = key_of f; params = j.marshal_params ps }) w
        ≡ invoke sql clock f ps w
  unfolding run_action
  run_action-key_of f ps w plain h =
      rw (laws.params_arrive ps plain, map-convert j ps plain, func_call-key_of f ps w h)
        (bind_assoc (invoke sql clock f ps) (λ r. pure (ok r)) (λ r. pure (call_result r)) w
          ∙ bind-pure (invoke sql clock f ps) w)

  parse_body-marshal :
      (r : ExecResult)
      → parse_body j direct (ok (j.marshal_results (r ∷ []))) ≡ some (sent j laws.wire r)
  unfolding parse_body first_reply
  parse_body-marshal r = rw (laws.results_are_sent (r ∷ []), laws.results_arrive (r ∷ [])) refl

  -- What the client makes of the result of one action.
  abbrev pub answer : ExecResult → WithError (Option (Reply j.Wire))
  answer r = record { value = some (sent j laws.wire r); error = none }

  request_after :
      (name : Text) (ps : List Param) (w : W) (x : Exit ExecResult × W)
      → run_action sql clock j (record { name = name; params = j.marshal_params ps }) w ≡ x
      → request j direct name ps w ≡ continue x.0 (λ r. pure (answer r)) x.1
  unfolding request execute_action
  request_after name ps w (ret r, w') e = rw (e, parse_body-marshal r) refl
  request_after name ps w (panic, w') e = rw e refl

  -- Over a connection that delivers, with the documented codec, a client's call with plain
  -- arguments, as many as the function has, is the call of the function, and answers with its
  -- result.
  pub request-key_of :
      (f : Function) (ps : List Param) (w : W)
      → ArePlain j ps
      → length ps ≡ num_in f
      → request j direct (key_of f) ps w ≡ (invoke sql clock f ps >>= λ r. pure (answer r)) w
  request-key_of f ps w plain h =
      request_after (key_of f) ps w (invoke sql clock f ps w) (run_action-key_of f ps w plain h)
