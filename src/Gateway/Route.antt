-- ===== src/Gateway/Route.antt =====
-- service/apiwg/route/router.go: the gateway's routes, and the token check before them.
use filestore_hsz.Prelude.{
  ◌≡◌, refl, sym, ◌∙◌, Text, bytes, text_eq, has_prefix, List, [], ◌∷◌, ◌++◌, some, true, false,
}
use filestore_hsz.Http.Router.{
  Method, get, post, Cors, Handler, logger, recovery, cors, own, Registration, static, middleware,
  route, any_covers, Router, RouterLaws, build, chain_of, is_static, are_free,
}
use filestore_hsz.Http.Router.Built.{build-chain_of, chain_of-routes, chain_of-append}

-- The functions of service/apiwg/handler that the router names.
pub data GatewayHandler : Type 0 where
  signup_handler do_signup_handler signin_handler do_signin_handler : GatewayHandler
  http_interceptor : GatewayHandler
  user_info_handler file_query_handler file_meta_update_handler : GatewayHandler
  file_delete_handler file_query_deleted_handler file_recover_handler : GatewayHandler

abbrev pub gateway_cors : Cors
gateway_cors = record {
  allow_origins = bytes "*" ∷ [];
  allow_methods = bytes "GET" ∷ bytes "POST" ∷ bytes "OPTIONS" ∷ [];
  allow_headers =
      bytes "Origin" ∷ bytes "Range" ∷ bytes "x-requested-with" ∷ bytes "content-Type" ∷ [];
  expose_headers =
      bytes "Content-Length"
      ∷ bytes "Accept-Range"
      ∷ bytes "Content-Range"
      ∷ bytes "Content-Disposition"
      ∷ [];
}

-- The four routes before the token check.
abbrev pub public_routes : List (Registration GatewayHandler)
public_routes =
    route get (bytes "/user/signup") signup_handler
    ∷ route post (bytes "/user/signup") do_signup_handler
    ∷ route get (bytes "/user/signin") signin_handler
    ∷ route post (bytes "/user/signin") do_signin_handler
    ∷ []

abbrev pub private_routes : List (Registration GatewayHandler)
private_routes =
    route get (bytes "/user/info") user_info_handler
    ∷ route post (bytes "/file/query") file_query_handler
    ∷ route post (bytes "/file/update") file_meta_update_handler
    ∷ route post (bytes "/file/delete") file_delete_handler
    ∷ route post (bytes "/file/deleted/query") file_query_deleted_handler
    ∷ route post (bytes "/file/recover") file_recover_handler
    ∷ []

unfoldable pub registrations : List (Registration GatewayHandler)
registrations =
    static (bytes "/static/") (bytes "./static") ∷ public_routes
    ++ middleware (cors gateway_cors) ∷ middleware (own http_interceptor) ∷ private_routes

unfoldable pub router : (gin : Router GatewayHandler) → gin.Engine
router gin = build gin registrations gin.default

free : are_free [] registrations ≡ true
unfolding registrations bytes text_eq has_prefix
free = refl

module _ (gin : Router GatewayHandler) (laws : RouterLaws gin) where
  runs :
      (m : Method) (p : Text) (hs : List (Handler GatewayHandler))
      → is_static registrations p ≡ false
      → gin.chain (router gin) m p ≡ some hs
      → any_covers public_routes m p ≡ false
      → chain_of
          (logger ∷ recovery ∷ cors gateway_cors ∷ own http_interceptor ∷ [])
          private_routes
          m
          p
        ≡ some hs
  unfolding router registrations
  runs m p hs path e private =
      sym (
        build-chain_of gin laws registrations m p free path
        ∙ rw laws.default_globals (
            chain_of-append (logger ∷ recovery ∷ []) public_routes
              (middleware (cors gateway_cors) ∷ middleware (own http_interceptor) ∷ private_routes)
              m p refl private))
      ∙ e

  -- Whatever the gateway runs for a request, unless for a file under /static/ or for one of the four
  -- routes of signing up and signing in, the token check runs before the one handler of the route, and
  -- after the logger, the recovery and the cross-origin headers. The engine is the documented one.
  pub router-http_interceptor :
      (m : Method) (p : Text) (hs : List (Handler GatewayHandler))
      → is_static registrations p ≡ false
      → any_covers public_routes m p ≡ false
      → gin.chain (router gin) m p ≡ some hs
      → (h : GatewayHandler) × (hs
          ≡ logger ∷ recovery ∷ cors gateway_cors ∷ own http_interceptor ∷ own h ∷ [])
  router-http_interceptor m p hs path private e =
      chain_of-routes (logger ∷ recovery ∷ cors gateway_cors ∷ own http_interceptor ∷ [])
        private_routes m p hs refl (runs m p hs path e private)
