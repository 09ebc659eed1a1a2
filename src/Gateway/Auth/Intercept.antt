-- ===== src/Gateway/Auth/Intercept.antt =====
-- service/apiwg/handler/auth.go, `HTTPInterceptor`: the pending handlers, and refusals.
use filestore_hsz.Prelude.{
  ◌≡◌, refl, ◌∙◌, ◌≢◌, ◌⊎◌, if◌then◌else◌, ◌≤◌, ◌<◌, Text, length, le→not-ltb, true, false, Bool,
  arith,
}
use filestore_hsz.Go.{ret}
use filestore_hsz.Dbproxy.Sql.{Clock}
use filestore_hsz.Dbproxy.Json.{Json}
use filestore_hsz.Dbproxy.Client.{Stub}
use filestore_hsz.Gateway.Auth.{is_token_valid, Gin, GinLaws, refusal, http_interceptor, check}

-- The world after a refusal: aborted and answered.
abbrev pub refused : {W : Type 0} → Gin W → W → W
refused gin w = (gin.reply refusal (gin.abort w).1).1

module _ {W : Type 0} (j : Json) (stub : Stub j W) (clock : Clock W) (gin : Gin W)
    (laws : GinLaws gin) where
  next_after_refusal : (w : W) → gin.next (refused gin w) ≡ (ret tt, refused gin w)
  next_after_refusal w =
      laws.next_stops (refused gin w)
        (laws.reply_keeps refusal (gin.abort w).1 ∙ laws.abort_aborts w)

  check_decides :
      (username token : Text) (valid : Bool) (w w' : W)
      → check j stub clock username token w ≡ (ret valid, w')
      → http_interceptor j stub clock gin username token w
        ≡ (if valid then gin.next w' else (ret tt, refused gin w'))
  unfolding http_interceptor
  check_decides username token true w w' e = rw e refl
  check_decides username token false w w' e = rw e (next_after_refusal w')

  -- For a user name of three bytes or more: where the token check returns false, the request is
  -- aborted and refused and no pending handler runs; where it returns true, nothing is answered and
  -- they run. The context is the documented one.
  pub http_interceptor_decides :
      (username token : Text) (valid : Bool) (w w' : W)
      → 3 ≤ length username
      → is_token_valid j stub clock token username w ≡ (ret valid, w')
      → http_interceptor j stub clock gin username token w
        ≡ (if valid then gin.next w' else (ret tt, refused gin w'))
  http_interceptor_decides username token valid w w' long e =
      check_decides username token valid w w'
        (unfold check in rw (le→not-ltb (length username) 3 long) e)

  check_malformed :
      (username token : Text) (w : W)
      → (length username < 3) ⊎ (length token ≢ 40)
      → check j stub clock username token w ≡ (ret false, w)
  unfolding check is_token_valid
  check_malformed username token w bad = ground arith

  -- A request whose user name has fewer than three bytes, or whose token is not 40 bytes long, is
  -- refused without a look at the clock or the database, and no pending handler runs. The context is
  -- the documented one.
  pub http_interceptor_malformed :
      (username token : Text) (w : W)
      → (length username < 3) ⊎ (length token ≢ 40)
      → http_interceptor j stub clock gin username token w ≡ (ret tt, refused gin w)
  http_interceptor_malformed username token w bad =
      check_decides username token false w w (check_malformed username token w bad)
