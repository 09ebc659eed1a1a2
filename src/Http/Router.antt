-- ===== src/Http/Router.antt =====
-- gin's router as the program uses it: the registrations that the routers of service/*/route make, one
-- after another, and the engine, which is a parameter.
pub mod Built
use filestore_hsz.Prelude.{
  ◌≡◌, refl, sym, ◌∙◌, Text, text_eq, has_prefix, List, [], ◌∷◌, ◌++◌, Option, none, some, Bool,
  true, false, not, ◌&&◌, ◌||◌, if◌then◌else◌, Bool-cases, inl, inr, arith,
}

pub data Method : Type 0 where
  get post : Method

-- `cors.Config`
pub record Cors : Type 0 where
  pub allow_origins : List Text
  pub allow_methods : List Text
  pub allow_headers : List Text
  pub expose_headers : List Text

-- What runs for a request: the middleware of `gin.Default()`, cross-origin headers, and what the
-- program registers, by its name.
pub data Handler (H : Type 0) : Type 0 where
  logger recovery : Handler H
  cors : Cors → Handler H
  own : H → Handler H

-- `router.Static`, `router.Use`, and `router.GET` and `router.POST`
pub data Registration (H : Type 0) : Type 0 where
  static : (path dir : Text) → Registration H
  middleware : Handler H → Registration H
  route : Method → Text → H → Registration H

abbrev pub same_method : Method → Method → Bool
same_method get get = true
same_method post post = true
same_method _ _ = false

-- Whether a registration takes the requests with a method and a path.
abbrev pub covers : {H : Type 0} → Registration H → Method → Text → Bool
covers (static path dir) m p = has_prefix p path
covers (middleware h) m p = false
covers (route n q h) m p = same_method n m && text_eq q p

abbrev pub any_covers : {H : Type 0} → List (Registration H) → Method → Text → Bool
any_covers [] m p = false
any_covers (r ∷ rs) m p = covers r m p || any_covers rs m p

-- The engine: what `gin.Default()` makes, a registration, and the handlers that run for a request.
pub record Router (H : Type 0) : Type 1 where
  pub Engine : Type 0
  pub default : Engine
  pub register : Registration H → Engine → Engine
  pub globals : Engine → List (Handler H)
  pub chain : Engine → Method → Text → Option (List (Handler H))

-- The documented behaviour: a route gets the middleware that is registered before it, and nothing else
-- changes what runs for its requests. A route that is taken may not be registered again.
pub record RouterLaws {H : Type 0} (gin : Router H) : Type 0 where
  pub default_globals : gin.globals gin.default ≡ logger ∷ recovery ∷ []
  pub default_chain : (m : Method) (p : Text) → gin.chain gin.default m p ≡ none
  pub static_globals :
      (path dir : Text) (e : gin.Engine)
      → gin.globals (gin.register (static path dir) e) ≡ gin.globals e
  pub static_chain :
      (path dir : Text) (e : gin.Engine) (m : Method) (p : Text)
      → has_prefix p path ≡ false
      → gin.chain (gin.register (static path dir) e) m p ≡ gin.chain e m p
  pub middleware_globals :
      (h : Handler H) (e : gin.Engine)
      → gin.globals (gin.register (middleware h) e) ≡ gin.globals e ++ h ∷ []
  pub middleware_chain :
      (h : Handler H) (e : gin.Engine) (m : Method) (p : Text)
      → gin.chain (gin.register (middleware h) e) m p ≡ gin.chain e m p
  pub route_globals :
      (n : Method) (q : Text) (h : H) (e : gin.Engine)
      → gin.globals (gin.register (route n q h) e) ≡ gin.globals e
  pub route_chain :
      (n : Method) (q : Text) (h : H) (e : gin.Engine) (m : Method) (p : Text)
      → gin.chain e n q ≡ none
      → gin.chain (gin.register (route n q h) e) m p
        ≡ (if covers (route n q h) m p then some (gin.globals e ++ own h ∷ []) else gin.chain e m p)

-- The registrations of a router, one after another.
abbrev pub build : {H : Type 0} (gin : Router H) → List (Registration H) → gin.Engine → gin.Engine
build gin [] e = e
build gin (r ∷ rs) e = build gin rs (gin.register r e)

-- No route is registered where an earlier registration takes its requests.
abbrev pub are_free : {H : Type 0} → List (Registration H) → List (Registration H) → Bool
are_free seen [] = true
are_free seen (static path dir ∷ rs) = are_free (static path dir ∷ seen) rs
are_free seen (middleware h ∷ rs) = are_free (middleware h ∷ seen) rs
are_free seen (route n q h ∷ rs) = not (any_covers seen n q) && are_free (route n q h ∷ seen) rs

-- What runs for a request, read off the registrations.
abbrev pub chain_of :
    {H : Type 0}
    → List (Handler H)
    → List (Registration H)
    → Method
    → Text
    → Option (List (Handler H))
chain_of gs [] m p = none
chain_of gs (static path dir ∷ rs) m p = chain_of gs rs m p
chain_of gs (middleware h ∷ rs) m p = chain_of (gs ++ h ∷ []) rs m p
chain_of gs (route n q h ∷ rs) m p =
    if covers (route n q h) m p then some (gs ++ own h ∷ []) else chain_of gs rs m p

-- Whether a path is that of a file.
abbrev pub is_static : {H : Type 0} → List (Registration H) → Text → Bool
is_static [] p = false
is_static (static path dir ∷ rs) p = has_prefix p path || is_static rs p
is_static (_ ∷ rs) p = is_static rs p

abbrev pub or_else : {A : Type 0} → Option A → Option A → Option A
or_else none o = o
or_else (some a) o = some a
