-- ===== src/Gateway/Auth.antt =====
-- service/apiwg/handler/auth.go: the token check and the interceptor of the protected routes. gin's
-- context is the parameter `Gin`.
pub mod Tokens
pub mod Intercept
pub mod Session
use filestore_hsz.Prelude.{
  ℕ, ◌/◌, ◌^◌, ◌≡◌, Text, bytes, text_eq, length, take, drop, ℤ, pos, sub_ℕ, ltb_ℤ, List, Option,
  none, some, Bool, true, false, not, ltb, ◌==◌, ◌||◌, if◌then◌else◌,
}
use filestore_hsz.Go.{Result, ok, err, Exit, ret, Go, pure, call, ◌>>=◌, ◌>>◌}
use filestore_hsz.Common.{status_invalid_token}
use filestore_hsz.Util.{hex2dec}
use filestore_hsz.Http.{Response, json}
use filestore_hsz.Dbproxy.Sql.{Clock}
use filestore_hsz.Dbproxy.Json.{Json}
use filestore_hsz.Dbproxy.Client
use filestore_hsz.Dbproxy.Client.{Stub}
use filestore_hsz.Account.User.{unix}

-- `token[32:40]` of a token of 40 bytes
abbrev pub token_time : Text → Text
token_time token = take 8 (drop 32 token)

-- `dbToken, err := …`, and the comparison of the tokens
matches : Result Text → Text → Bool
matches (err e) token = false
matches (ok db_token) token = text_eq db_token token

module _ {W : Type 0} (j : Json) (stub : Stub j W) (clock : Clock W) where
  unfoldable pub is_token_valid : Text → Text → Go W Bool
  unfolding matches unix
  is_token_valid token username = if not (length token == 40) then pure false else do
    now ← unix clock
    if ltb_ℤ (hex2dec (token_time token)) (sub_ℕ now 86400)
        then pure false
        else do db_token ← Client.get_user_token j stub username; pure (matches db_token token)

  -- `len(username) < 3 || !IsTokenValid(token, username)`, which asks only if it has to
  check : Text → Text → Go W Bool
  check username token =
      if ltb (length username) 3 then pure false else is_token_valid token username

-- gin's context, behind the world: `Abort`, `JSON`, and `Next`, which runs the pending handlers.
pub record Gin (W : Type 0) : Type 0 where
  pub abort : W → Unit {0} × W
  pub reply : Response (Unit {0}) → W → Unit {0} × W
  pub next : Go W (Unit {0})

-- The documented behaviour: an aborted context runs no pending handler.
pub record GinLaws {W : Type 0} (gin : Gin W) : Type 0 where
  pub is_aborted : W → Bool
  pub abort_aborts : (w : W) → is_aborted (gin.abort w).1 ≡ true
  pub reply_keeps : (r : Response (Unit {0})) (w : W) → is_aborted (gin.reply r w).1 ≡ is_aborted w
  pub next_stops : (w : W) → is_aborted w ≡ true → gin.next w ≡ (ret tt, w)

abbrev pub refusal : Response (Unit {0})
refusal = json 200 (pos status_invalid_token) (bytes "token无效") none

module _ {W : Type 0} (j : Json) (stub : Stub j W) (clock : Clock W) (gin : Gin W) where
  refuse : Bool → Go W (Unit {0})
  refuse true = pure tt
  refuse false = do call gin.abort; call (gin.reply refusal)

  unfoldable pub http_interceptor : Text → Text → Go W (Unit {0})
  unfolding refuse check
  http_interceptor username token = do
    valid ← check j stub clock username token
    refuse valid
    gin.next
