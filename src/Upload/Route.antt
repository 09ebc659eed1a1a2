-- ===== src/Upload/Route.antt =====
-- service/upload/route/router.go: the routes of the upload service.
use filestore_hsz.Prelude.{
  ◌≡◌, refl, Text, bytes, text_eq, has_prefix, List, [], ◌∷◌, some, true, false,
}
use filestore_hsz.Http.Router.{
  Method, post, Cors, Handler, logger, recovery, cors, own, Registration, static, middleware, route,
  Router, RouterLaws, build, is_static, are_free,
}
use filestore_hsz.Http.Router.Built.{open_chain}

-- The functions that the router names.
pub data UploadHandler : Type 0 where
  do_upload_handler try_fast_upload_handler initial_multipart_upload_handler upload_part_handler
        complete_upload_handler :
      UploadHandler

abbrev pub upload_cors : Cors
upload_cors = record {
  allow_origins = bytes "*" ∷ [];
  allow_methods = bytes "GET" ∷ bytes "POST" ∷ bytes "OPTIONS" ∷ [];
  allow_headers =
      bytes "Origin" ∷ bytes "Range" ∷ bytes "x-requested-with" ∷ bytes "content-Type" ∷ [];
  expose_headers =
      bytes "Content-Length"
      ∷ bytes "Accept-Range"
      ∷ bytes "Content-Range"
      ∷ bytes "Content-Disposition"
      ∷ [];
}

abbrev routes : List (Registration UploadHandler)
routes =
    route post (bytes "/file/upload") do_upload_handler
    ∷ route post (bytes "/file/fastupload") try_fast_upload_handler
    ∷ route post (bytes "/file/mpupload/init") initial_multipart_upload_handler
    ∷ route post (bytes "/file/mpupload/uppart") upload_part_handler
    ∷ route post (bytes "/file/mpupload/complete") complete_upload_handler
    ∷ []

unfoldable pub registrations : List (Registration UploadHandler)
registrations =
    static (bytes "/static/") (bytes "./static") ∷ middleware (cors upload_cors) ∷ routes

unfoldable pub router : (gin : Router UploadHandler) → gin.Engine
router gin = build gin registrations gin.default

free : are_free [] registrations ≡ true
unfolding registrations bytes text_eq has_prefix
free = refl

-- Whatever the upload service runs for a request, unless for a file under /static/, is one of its own
-- handlers after the logger, the recovery and the cross-origin headers alone: no token check is
-- registered before it. The engine is the documented one.
pub upload_router_lem :
    (gin : Router UploadHandler) (laws : RouterLaws gin) (m : Method) (p : Text)
    (hs : List (Handler UploadHandler))
    → is_static registrations p ≡ false
    → gin.chain (router gin) m p ≡ some hs
    → (h : UploadHandler) × (hs ≡ logger ∷ recovery ∷ cors upload_cors ∷ own h ∷ [])
unfolding router registrations
upload_router_lem gin laws m p hs path e =
    open_chain gin laws (bytes "/static/") (bytes "./static") (cors upload_cors) routes m p hs free
      refl path e
