-- ===== src/Examples/Sessions.antt =====
-- Signing in, tokens and the interceptor.
use filestore_hsz.Util.{digest}
use filestore_hsz.Go.Strconv.{format_uint}
use filestore_hsz.Dbproxy.Mysql.{is_utf8mb3}
use filestore_hsz.Prelude.{
  ℕ, ◌≡◌, refl, ◌+◌, ◌*◌, ◌^◌, Text, bytes, text_eq, pos, [], ◌∷◌, none, some, Bool, true, false,
  if◌then◌else◌, arith,
}
use filestore_hsz.Go.{ok, err, ret, pure}
use filestore_hsz.Common.{status_ok, status_login_failed}
use filestore_hsz.Dbproxy.Sql.{Clock}
use filestore_hsz.Dbproxy.Define.{token}
use filestore_hsz.Dbproxy.Mysql.{Tables}
use filestore_hsz.Dbproxy.Client
use filestore_hsz.Dbproxy.Client.{Stub}
use filestore_hsz.Dbproxy.Client.Delivery.{direct}
use filestore_hsz.Account.User.{signin}
use filestore_hsz.Gateway.Auth.{Gin, GinLaws, is_token_valid, http_interceptor}
use filestore_hsz.Gateway.Auth.Tokens.{token_at, is_token_valid-token_at}
use filestore_hsz.Gateway.Auth.Intercept.{http_interceptor_decides}
use filestore_hsz.Gateway.Auth.Session.{signin-is_token_valid, signin_refused, sent_password}
use filestore_hsz.Examples.Server.{server, server_laws}
use filestore_hsz.Examples.Codec.{codec, codec_laws, texts_of}

abbrev alice : Text
alice = b'a' ∷ b'l' ∷ b'i' ∷ b'c' ∷ b'e' ∷ []

abbrev bob : Text
bob = b'b' ∷ b'o' ∷ b'b' ∷ []

abbrev sixteen_zeros : Text
sixteen_zeros = 0 ∷ 0 ∷ 0 ∷ 0 ∷ 0 ∷ 0 ∷ 0 ∷ 0 ∷ 0 ∷ 0 ∷ 0 ∷ 0 ∷ 0 ∷ 0 ∷ 0 ∷ 0 ∷ []

-- A digest of the right size, and the identity in place of the other.
abbrev md5 : Text → Text
md5 t = sixteen_zeros

abbrev sha1 : Text → Text
sha1 t = t

-- July 2017.
abbrev clock : {W : Type 0} → Clock W
clock = record { now = λ w. (1500000000 * 10 ^ 9, w) }

abbrev tables : Tables
tables = record {
  users = λ u. if text_eq u alice then some (sent_password sha1 bob) else none;
  tokens = λ u. none;
  files = λ h. none;
  user_files = λ u h. none;
}

-- A token that the database has.
abbrev holder : Stub codec (Unit {0})
holder actions = pure (
    ok (
      record { suc = true; code = pos 0; msg = []; payload = token (token_at md5 alice 1500000000) }
      ∷ []))

is_token_valid-token_at_example :
    is_token_valid codec holder clock (token_at md5 alice 1500000000) alice (tt {0})
    ≡ (ret true, tt)
unfolding Client.get_user_token text_eq bytes texts_of
is_token_valid-token_at_example =
    is_token_valid-token_at md5 (λ s. refl) alice 1500000000 (omega arith) (omega arith) codec
      holder clock tt tt tt (1500000000 * 10 ^ 9) refl refl

-- A world that says whether the context is aborted and counts the handlers that have run.
abbrev gin : Gin (Bool × ℕ)
gin = record {
  abort = λ w. (tt, (true, w.1));
  reply = λ r w. (tt, w);
  next = λ w. (ret tt, (if w.0 then w else (w.0, w.1 + 1)));
}

abbrev gin_laws : GinLaws gin
gin_laws = record {
  is_aborted = λ w. w.0;
  abort_aborts = λ w. refl;
  reply_keeps = λ r w. refl;
  next_stops = λ w h. rw h refl;
}

-- A stub that loses every call.
abbrev lost : Stub codec (Bool × ℕ)
lost actions = pure (err [])

http_interceptor_decides_example :
    http_interceptor codec lost clock gin alice bob (false, 0) ≡ (ret tt, (true, 0))
unfolding is_token_valid
http_interceptor_decides_example =
    http_interceptor_decides codec lost clock gin gin_laws alice bob false (false, 0) (false, 0)
      (omega arith) refl

signin-is_token_valid_example :
    (w : Tables) × (signin codec
        (direct server clock codec codec_laws)
        clock
        sha1
        md5
        alice
        bob
        tables
      ≡ (ret (record { code = status_ok; token = token_at md5 alice 1500000000; message = [] }), w))
    × ((is_token_valid codec
          (direct server clock codec codec_laws)
          clock
          (token_at md5 alice 1500000000)
          alice
          w).0
        ≡ ret true)
unfolding is_utf8mb3 server_laws text_eq digest format_uint
signin-is_token_valid_example =
    signin-is_token_valid server server_laws clock codec codec_laws sha1 md5 (λ s. refl) alice bob
      tables (omega arith) (omega arith) (omega arith, refl) refl refl refl refl (λ v. refl) refl

signin_refused_example :
    signin codec (direct server clock codec codec_laws) clock sha1 md5 bob bob tables
    ≡ (ret (record { code = status_login_failed; token = []; message = bytes "登录失败" }), tables)
unfolding server_laws text_eq
signin_refused_example =
    signin_refused server server_laws clock codec codec_laws sha1 md5 (λ s. refl) bob bob tables
      refl refl (λ e. cc)
