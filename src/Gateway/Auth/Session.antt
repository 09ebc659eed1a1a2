-- ===== src/Gateway/Auth/Session.antt =====
-- service/account/handler/user.go, `Signin`, and service/apiwg/handler/auth.go, `IsTokenValid`, over one
-- database: a sign in, and the requests that follow it.
use filestore_hsz.Prelude.{
  ℕ, ◌+◌, ◌/◌, ◌^◌, ◌≤◌, ◌<◌, ◌≡◌, ◌≢◌, refl, ap, ◌∙◌, Text, bytes, text_eq, text_eq_iff,
  text_eq_refl, length, [], ◌∷◌, ◌++◌, Option, none, some, true, false, leb, Bool-cases, inl, inr,
  arith,
}
use filestore_hsz.Go.{ok, ret}
use filestore_hsz.Common.{status_ok, status_login_failed, password_salt}
use filestore_hsz.Util.{digest}
use filestore_hsz.Dbproxy.Sql.{Sql, Clock}
use filestore_hsz.Dbproxy.Define.{success, nil}
use filestore_hsz.Go.Strconv.{format_uint}
use filestore_hsz.Go.Strconv.RoundTrip.{format_uint-last}
use filestore_hsz.Dbproxy.Mysql.{
  FitsChar, ends_in_blank, ends_in_blank-append, Fits, is_utf8mb3, MySql, set_token,
}
use filestore_hsz.Dbproxy.Orm.User.Accounts.{
  user_signin_lem, verdict, mismatch, update_token_lem, get_user_token_lem,
}
use filestore_hsz.Dbproxy.Mapper.{text, Function, key_of, num_in, invoke}
use filestore_hsz.Dbproxy.Json.{Json, JsonLaws}
use filestore_hsz.Dbproxy.Client
use filestore_hsz.Dbproxy.Client.{Stub, WithError}
use filestore_hsz.Dbproxy.Client.Delivery.{direct, answer, request-key_of}
use filestore_hsz.Account.User.{signin, succeeded}
use filestore_hsz.Gateway.Auth.{is_token_valid}
use filestore_hsz.Gateway.Auth.Tokens.{
  token_at, gen_token_lem, length-token_at, is_token_valid-token_at,
}

-- What a sign in sends for a password, and the second that a clock shows.
abbrev pub sent_password : (Text → Text) → Text → Text
sent_password sha1 p = digest sha1 (p ++ password_salt)

abbrev pub second_of : {W : Type 0} → Clock W → W → ℕ
second_of clock w = (clock.now w).0 / 10 ^ 9

verdict_other : (o : Option Text) (q : Text) → o ≢ some q → verdict o q ≡ mismatch
verdict_other none q other = refl
verdict_other (some p) q other = elim (Bool-cases (text_eq p q)) [
  | inl same ↦ elim (other (ap some ((text_eq_iff p q).0 same))) [ ]
  | inr differs ↦ rw differs refl
]

token_at-last : (md5 : Text → Text) (u : Text) (t : ℕ) → ends_in_blank (token_at md5 u t) ≡ false
token_at-last md5 u t =
    let (s, c, high, e) = format_uint-last 16 (omega arith) (omega arith) t in
    let front : Text = digest md5 (u ++ format_uint 16 t ++ bytes "_tokensalt") in
    ap (λ (x : Text). ends_in_blank (front ++ x)) e ∙ ends_in_blank-append front s c high

module _ {W : Type 0} (sql : Sql W) (my : MySql sql) (clock : Clock W) (j : Json)
    (laws : JsonLaws j) where
  abbrev proxy : Stub j W
  proxy = direct sql clock j laws

  -- The three calls of the client that a session makes.
  client_signin :
      (u q : Text) (w : W)
      → j.is_utf8 u ≡ true
      → j.is_utf8 q ≡ true
      → Client.user_signin j proxy u q w
        ≡ (ret (answer sql clock j laws (verdict ((my.view w).users u) q)), w)
  unfolding Client.user_signin num_in key_of invoke
  client_signin u q w pu pq =
      request-key_of sql clock j laws Function.signin (text u ∷ text q ∷ []) w (pu, (pq, tt)) refl
      ∙ rw (user_signin_lem sql my u q w) refl

  client_update_token :
      (u t : Text) (w : W)
      → j.is_utf8 u ≡ true
      → j.is_utf8 t ≡ true
      → Fits u 64
      → FitsChar t 40
      → (w' : W) × (Client.update_token j proxy u t w
          ≡ (ret (answer sql clock j laws (success nil)), w'))
        × (my.view w' ≡ set_token my.same u t (my.view w))
  unfolding Client.update_token num_in key_of invoke
  client_update_token u t w pu pt fu ft =
      let (w', run, stored) = update_token_lem sql my u t w fu ft in
      (
        w',
        request-key_of sql clock j laws Function.token_update (text u ∷ text t ∷ []) w
              (pu, (pt, tt)) refl
            ∙ rw run refl,
        stored,
      )

  client_get_user_token :
      (u t : Text) (w : W)
      → j.is_utf8 u ≡ true
      → j.is_utf8 t ≡ true
      → (my.view w).tokens u ≡ some t
      → Client.get_user_token j proxy u w ≡ (ret (ok t), w)
  unfolding Client.get_user_token num_in key_of invoke
  client_get_user_token u t w pu pt there =
      rw
        (
          request-key_of sql clock j laws Function.user_token (text u ∷ []) w (pu, tt) refl,
          get_user_token_lem sql my u t w there,
          laws.token_arrives t pt,
          text_eq_refl (bytes "token"),
        )
        refl

  module _ (sha1 md5 : Text → Text) (sixteen : (s : Text) → length (md5 s) ≡ 16) where
    session_valid :
        (u : Text) (t : ℕ) (w : W)
        → 2 ^ 28 ≤ t
        → t < 2 ^ 32
        → j.is_utf8 u ≡ true
        → j.is_utf8 (token_at md5 u t) ≡ true
        → ((v : W) → my.view (clock.now v).1 ≡ my.view v)
        → (my.view w).tokens u ≡ some (token_at md5 u t)
        → (is_token_valid j proxy clock (token_at md5 u t) u w).0
          ≡ ret (leb (second_of clock w) (t + 86400))
    session_valid u t w low high pu pt quiet there =
        rw
          (is_token_valid-token_at md5 sixteen u t low high j proxy clock w (clock.now w).1
            (clock.now w).1 (clock.now w).0 refl
            (client_get_user_token u (token_at md5 u t) (clock.now w).1 pu pt (rw (quiet w) there)))
          (elim (Bool-cases (leb (second_of clock w) (t + 86400))) [
            | inl fresh ↦ rw fresh refl
            | inr old ↦ rw old refl
          ])

    -- A sign in with the password that is stored answers with a token, and the gateway accepts that
    -- token for that user exactly while no more than a day has passed since. The account service and
    -- the gateway reach one documented server over a connection that delivers; the clock stands
    -- between 1978 and 2106 at the sign in, and reading it changes no table; the digest of the token
    -- has 16 bytes, the texts are UTF-8, and the name fits its column, with characters of at most three
    -- bytes, and so does the token.
    pub signin-is_token_valid :
        (u p : Text) (w : W)
        → 2 ^ 28 ≤ second_of clock w
        → second_of clock w < 2 ^ 32
        → Fits u 64
        → j.is_utf8 u ≡ true
        → j.is_utf8 (sent_password sha1 p) ≡ true
        → j.is_utf8 (token_at md5 u (second_of clock w)) ≡ true
        → is_utf8mb3 (token_at md5 u (second_of clock w)) ≡ true
        → ((v : W) → my.view (clock.now v).1 ≡ my.view v)
        → (my.view w).users u ≡ some (sent_password sha1 p)
        → (w' : W) × (signin j proxy clock sha1 md5 u p w ≡ (
          ret (record {
            code = status_ok;
            token = token_at md5 u (second_of clock w);
            message = [];
          }),
          w',
        ))
          × ((is_token_valid j proxy clock (token_at md5 u (second_of clock w)) u w').0
              ≡ ret (leb (second_of clock w') (second_of clock w + 86400)))
    unfolding signin succeeded
    signin-is_token_valid u p w low high fu pu pp pt text_ quiet there =
        let tok = token_at md5 u (second_of clock w) in
        let (w', run, stored) = client_update_token u tok (clock.now w).1 pu pt fu (
          (omega (arith, length-token_at md5 sixteen u (second_of clock w) low high), text_),
          token_at-last md5 u (second_of clock w),
        ) in
        (
          w',
          rw
              (
                client_signin u (sent_password sha1 p) w pu pp,
                there,
                text_eq_refl (sent_password sha1 p),
                gen_token_lem md5 sixteen u (second_of clock w) low high clock w (clock.now w).1
                    (clock.now w).0 refl refl,
                run,
              )
              refl,
          session_valid u (second_of clock w) w' low high pu pt quiet
              (rw (stored, my.same_self u) refl),
        )

    -- A sign in under a name that is free or with another password is refused, and changes nothing.
    -- The name and the digest of the password are UTF-8, the server is the documented one and the
    -- connection to it delivers.
    pub signin_refused :
        (u p : Text) (w : W)
        → j.is_utf8 u ≡ true
        → j.is_utf8 (sent_password sha1 p) ≡ true
        → (my.view w).users u ≢ some (sent_password sha1 p)
        → signin j proxy clock sha1 md5 u p w
          ≡ (ret (record { code = status_login_failed; token = []; message = bytes "登录失败" }), w)
    unfolding signin succeeded
    signin_refused u p w pu pp other =
        rw
          (
            client_signin u (sent_password sha1 p) w pu pp,
            verdict_other ((my.view w).users u) (sent_password sha1 p) other,
          )
          refl
