-- ===== src/Examples/Routes.antt =====
-- The routers on an engine in memory.
use filestore_hsz.Prelude.{
  ◌≡◌, refl, Text, bytes, text_eq, has_prefix, List, [], ◌∷◌, ◌++◌, Option, none, some,
  if◌then◌else◌,
}
use filestore_hsz.Http.Router.{
  Method, get, post, Handler, logger, recovery, cors, own, Registration, static, middleware, route,
  covers, Router, RouterLaws,
}
use filestore_hsz.Gateway.Route.{
  GatewayHandler, http_interceptor, user_info_handler, gateway_cors, router-http_interceptor,
}
use filestore_hsz.Gateway.Route as GatewayRoute
use filestore_hsz.Upload.Route.{UploadHandler, upload_cors, upload_router_lem}
use filestore_hsz.Upload.Route as UploadRoute

-- The middleware so far, and the handlers of a request.
abbrev Table : Type 0 → Type 0
Table H = List (Handler H) × (Method → Text → Option (List (Handler H)))

abbrev register : {H : Type 0} → Registration H → Table H → Table H
register (static path dir) t = t
register (middleware h) t = (t.0 ++ h ∷ [], t.1)
register (route n q h) t =
    (t.0, λ m p. if covers (route n q h) m p then some (t.0 ++ own h ∷ []) else t.1 m p)

abbrev engine : {H : Type 0} → Router H
engine {H} = record {
  Engine = Table H;
  default = (logger ∷ recovery ∷ [], λ m p. none);
  register = register;
  globals = λ t. t.0;
  chain = λ t. t.1;
}

abbrev engine_laws : {H : Type 0} → RouterLaws (engine {H = H})
engine_laws = record {
  default_globals = refl;
  default_chain = λ m p. refl;
  static_globals = λ path dir e. refl;
  static_chain = λ path dir e m p h. refl;
  middleware_globals = λ h e. refl;
  middleware_chain = λ h e m p. refl;
  route_globals = λ n q h e. refl;
  route_chain = λ n q h e m p f. refl;
}

router-http_interceptor_example :
    (h : GatewayHandler) × (logger
        ∷ recovery
        ∷ cors gateway_cors
        ∷ own http_interceptor
        ∷ own user_info_handler
        ∷ []
      ≡ logger ∷ recovery ∷ cors gateway_cors ∷ own http_interceptor ∷ own h ∷ [])
unfolding GatewayRoute.registrations GatewayRoute.router bytes text_eq has_prefix
router-http_interceptor_example =
    router-http_interceptor engine engine_laws get (bytes "/user/info")
      (logger ∷ recovery ∷ cors gateway_cors ∷ own http_interceptor ∷ own user_info_handler ∷ [])
      refl refl refl

upload_router_lem_example :
    (h : UploadHandler) × (logger
        ∷ recovery
        ∷ cors upload_cors
        ∷ own UploadRoute.upload_part_handler
        ∷ []
      ≡ logger ∷ recovery ∷ cors upload_cors ∷ own h ∷ [])
unfolding UploadRoute.registrations UploadRoute.router bytes text_eq has_prefix
upload_router_lem_example =
    upload_router_lem engine engine_laws post (bytes "/file/mpupload/uppart")
      (logger ∷ recovery ∷ cors upload_cors ∷ own UploadRoute.upload_part_handler ∷ []) refl refl
