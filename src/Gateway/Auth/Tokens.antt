-- ===== src/Gateway/Auth/Tokens.antt =====
-- A token from service/account/handler/user.go, read by service/apiwg/handler/auth.go.
use mathlib.Core.Path.{subst}
use filestore_hsz.Prelude.{
  ℕ, ◌+◌, ◌*◌, ◌/◌, ◌^◌, ◌≤◌, ◌<◌, ◌≡◌, refl, ap, le→not-ltb, ==_iff, if◌then◌else◌, not,
  Bool-cases, inl, inr, ◌∙◌, Text, bytes, text_eq_refl, length, take, drop, length-append,
  drop-append, [], ◌∷◌, ◌++◌, pos, sub_ℕ, ltb_ℤ, true, false, leb, arith,
}
use filestore_hsz.Go.{ok, ret}
use filestore_hsz.Go.Strconv.{format_uint, parse_int, IntResult}
use filestore_hsz.Go.Strconv.RoundTrip.{parse_int-hex, length-format_uint}
use filestore_hsz.Util.{digest, hex2dec, hex_encode}
use filestore_hsz.Dbproxy.Sql.{Clock}
use filestore_hsz.Dbproxy.Json.{Json}
use filestore_hsz.Dbproxy.Client
use filestore_hsz.Dbproxy.Client.{Stub}
use filestore_hsz.Account.User.{gen_token, slice_to}
use filestore_hsz.Gateway.Auth.{token_time, is_token_valid}

length-hex_encode : (t : Text) → length (hex_encode t) ≡ 2 * length t
unfolding hex_encode
length-hex_encode [] = refl
length-hex_encode (b ∷ t) = omega (arith, length-hex_encode t)

-- `%x` of a time from 1978 to 2106 has eight digits.
length-stamp : (t : ℕ) → 2 ^ 28 ≤ t → t < 2 ^ 32 → length (format_uint 16 t) ≡ 8
length-stamp t low high = length-format_uint 16 (omega arith) (omega arith) 7 t (
  omega arith,
  (
    omega arith,
    (omega arith, (omega arith, (omega arith, (omega arith, (omega arith, omega arith))))),
  ),
)

-- The token of a user for a time.
abbrev pub token_at : (Text → Text) → Text → ℕ → Text
token_at md5 username t =
    digest md5 (username ++ format_uint 16 t ++ bytes "_tokensalt") ++ format_uint 16 t

take-length : (s : Text) → take (length s) s ≡ s
take-length [] = refl
take-length (a ∷ s) = ap (λ (l : Text). a ∷ l) (take-length s)

drop_at : (n : ℕ) (xs ys : Text) → length xs ≡ n → drop n (xs ++ ys) ≡ ys
drop_at n xs ys e = subst (λ k. drop k (xs ++ ys) ≡ ys) e (drop-append xs ys)

take_all : (n : ℕ) (s : Text) → length s ≡ n → take n s ≡ s
take_all n s e = subst (λ k. take k s ≡ s) e (take-length s)

slice_to_all : {W : Type 0} (n : ℕ) (s : Text) (w : W) → length s ≡ n → slice_to n s w ≡ (ret s, w)
unfolding slice_to
slice_to_all n s w e =
    rw (le→not-ltb (length s) n (omega arith)) (ap (λ (x : Text). (ret x, w)) (take_all n s e))

expired_lem : (t now : ℕ) → ltb_ℤ (pos t) (sub_ℕ now 86400) ≡ not (leb now (t + 86400))
expired_lem t now = ground arith

module _ (md5 : Text → Text) (sixteen : (t : Text) → length (md5 t) ≡ 16) where
  length-digest : (t : Text) → length (digest md5 t) ≡ 32
  unfolding digest
  length-digest t = length-hex_encode (md5 t) ∙ omega (arith, sixteen t)

  module _ (username : Text) (t : ℕ) (low : 2 ^ 28 ≤ t) (high : t < 2 ^ 32) where
    pub length-token_at : length (token_at md5 username t) ≡ 40
    length-token_at =
        length-append (digest md5 (username ++ format_uint 16 t ++ bytes "_tokensalt"))
          (format_uint 16 t)
        ∙ omega (
          arith,
          length-digest (username ++ format_uint 16 t ++ bytes "_tokensalt"),
          length-stamp t low high,
        )

    stamp-token_at : token_time (token_at md5 username t) ≡ format_uint 16 t
    stamp-token_at =
        ap (take 8) (
          drop_at 32 (digest md5 (username ++ format_uint 16 t ++ bytes "_tokensalt"))
            (format_uint 16 t) (length-digest _))
        ∙ take_all 8 (format_uint 16 t) (length-stamp t low high)

    pub hex2dec-token_at : hex2dec (token_time (token_at md5 username t)) ≡ pos t
    unfolding hex2dec
    hex2dec-token_at =
        ap (λ (s : Text). (parse_int 16 s).number) stamp-token_at
        ∙ ap (λ (r : IntResult). r.number) (parse_int-hex t (omega arith))

    -- `GenToken` at a time between 1978 and 2106 returns the token of the user for that time,
    -- without a panic: its slice of eight digits is there. The digest of the token has 16 bytes.
    pub gen_token_lem :
        {W : Type 0} (clock : Clock W) (w w' : W) (n : ℕ)
        → clock.now w ≡ (n, w')
        → n / 10 ^ 9 ≡ t
        → gen_token clock md5 username w ≡ (ret (token_at md5 username t), w')
    unfolding gen_token
    gen_token_lem clock w w' n e et =
        rw (e, et, slice_to_all 8 (format_uint 16 t) w' (length-stamp t low high)) refl

    -- A token of a user for a time between 1978 and 2106, where the stored token is that one, is
    -- accepted if no more than a day has passed since that time, and is else refused without a look
    -- at the database. The digest of the token has 16 bytes.
    pub is_token_valid-token_at :
        {W : Type 0} (j : Json) (stub : Stub j W) (clock : Clock W) (w w' w'' : W) (n : ℕ)
        → clock.now w ≡ (n, w')
        → Client.get_user_token j stub username w' ≡ (ret (ok (token_at md5 username t)), w'')
        → is_token_valid j stub clock (token_at md5 username t) username w
          ≡ (if leb (n / 10 ^ 9) (t + 86400) then (ret true, w'') else (ret false, w'))
    unfolding is_token_valid
    is_token_valid-token_at j stub clock w w' w'' n e stored =
        rw ((==_iff (length (token_at md5 username t)) 40).1 length-token_at) (
          rw e (
            rw (hex2dec-token_at, expired_lem t (n / 10 ^ 9))
              (elim (Bool-cases (leb (n / 10 ^ 9) (t + 86400))) [
                | inl fresh ↦
                    rw fresh (rw stored (rw (text_eq_refl (token_at md5 username t)) refl))
                | inr old ↦ rw old refl
              ])))
