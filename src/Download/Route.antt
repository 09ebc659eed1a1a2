-- ===== src/Download/Route.antt =====
-- service/download/route/router.go: the routes of the download service.
use filestore_hsz.Prelude.{
  ◌≡◌, refl, Text, bytes, text_eq, has_prefix, List, [], ◌∷◌, some, true, false,
}
use filestore_hsz.Http.Router.{
  Method, get, post, Cors, Handler, logger, recovery, cors, own, Registration, static, middleware,
  route, Router, RouterLaws, build, is_static, are_free,
}
use filestore_hsz.Http.Router.Built.{open_chain}

-- The functions that the router names.
pub data DownloadHandler : Type 0 where
  download_handler range_download_handler download_url_handler : DownloadHandler

abbrev pub download_cors : Cors
download_cors = record {
  allow_origins = bytes "*" ∷ [];
  allow_methods = bytes "GET" ∷ bytes "POST" ∷ bytes "OPTIONS" ∷ [];
  allow_headers =
      bytes "Origin" ∷ bytes "Range" ∷ bytes "x-requested-with" ∷ bytes "content-Type" ∷ [];
  expose_headers =
      bytes "Content-Length"
      ∷ bytes "Accept-Ranges"
      ∷ bytes "Content-Range"
      ∷ bytes "Content-Disposition"
      ∷ [];
}

abbrev routes : List (Registration DownloadHandler)
routes =
    route get (bytes "/file/download") download_handler
    ∷ route get (bytes "/file/download/range") range_download_handler
    ∷ route post (bytes "/file/downloadurl") download_url_handler
    ∷ []

unfoldable pub registrations : List (Registration DownloadHandler)
registrations =
    static (bytes "/static/") (bytes "./static") ∷ middleware (cors download_cors) ∷ routes

unfoldable pub router : (gin : Router DownloadHandler) → gin.Engine
router gin = build gin registrations gin.default

free : are_free [] registrations ≡ true
unfolding registrations bytes text_eq has_prefix
free = refl

-- Whatever the download service runs for a request, unless for a file under /static/, is one of its own
-- handlers after the logger, the recovery and the cross-origin headers alone: no token check is
-- registered before it. The engine is the documented one.
pub download_router_lem :
    (gin : Router DownloadHandler) (laws : RouterLaws gin) (m : Method) (p : Text)
    (hs : List (Handler DownloadHandler))
    → is_static registrations p ≡ false
    → gin.chain (router gin) m p ≡ some hs
    → (h : DownloadHandler) × (hs ≡ logger ∷ recovery ∷ cors download_cors ∷ own h ∷ [])
unfolding router registrations
download_router_lem gin laws m p hs path e =
    open_chain gin laws (bytes "/static/") (bytes "./static") (cors download_cors) routes m p hs
      free refl path e
