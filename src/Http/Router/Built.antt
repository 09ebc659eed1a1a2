-- ===== src/Http/Router/Built.antt =====
-- What runs for a request on a router that is built by registrations, one after another.
use filestore_hsz.Prelude.{
  ◌≡◌, refl, sym, ◌∙◌, Text, text_eq, text_eq_iff, has_prefix, List, [], ◌∷◌, ◌++◌, Option, none,
  some, Bool, true, false, not, ◌&&◌, ◌||◌, if◌then◌else◌, Bool-cases, inl, inr, arith,
}
use filestore_hsz.Http.Router.{
  Method, get, post, Handler, logger, recovery, own, Registration, static, middleware, route,
  same_method, covers, any_covers, Router, RouterLaws, build, are_free, chain_of, is_static,
  or_else,
}

same_method_sound : (n m : Method) → same_method n m ≡ true → n ≡ m
same_method_sound get get h = refl
same_method_sound post post h = refl
same_method_sound get post h = ground arith
same_method_sound post get h = ground arith

or_else-none : {A : Type 0} (o : Option A) → or_else o none ≡ o
or_else-none none = refl
or_else-none (some a) = refl

left_false : (a b : Bool) → (a || b) ≡ false → a ≡ false
left_false false b h = refl
left_false true b h = ground arith

right_false : (a b : Bool) → (a || b) ≡ false → b ≡ false
right_false false b h = h
right_false true b h = ground arith

both_true : (a b : Bool) → (a && b) ≡ true → (a ≡ true) × (b ≡ true)
both_true true b h = (refl, h)
both_true false b h = ground arith

not-true : (a : Bool) → not a ≡ true → a ≡ false
not-true false h = refl
not-true true h = ground arith

module _ {H : Type 0} (gin : Router H) (laws : RouterLaws gin) where
  -- An engine whose routes are all among the registrations `seen`.
  abbrev IsSeen : List (Registration H) → gin.Engine → Type 0
  IsSeen seen e = (n : Method) (q : Text) → any_covers seen n q ≡ false → gin.chain e n q ≡ none

  taken :
      (n : Method) (q : Text) (h : H) (e : gin.Engine) (m : Method) (p : Text)
      → gin.chain e n q ≡ none
      → covers (route n q h) m p ≡ true
      → gin.chain e m p ≡ none
  taken n q h e m p free here =
      let (same_n, same_q) = both_true (same_method n m) (text_eq q p) here in
      rw (← (same_method_sound n m same_n), ← ((text_eq_iff q p).0 same_q)) free

  route_first :
      (n : Method) (q : Text) (h : H) (e : gin.Engine) (m : Method) (p : Text)
      (rest : Option (List (Handler H)))
      → gin.chain e n q ≡ none
      → or_else (gin.chain (gin.register (route n q h) e) m p) rest
        ≡ or_else
            (gin.chain e m p)
            (if covers (route n q h) m p then some (gin.globals e ++ own h ∷ []) else rest)
  route_first n q h e m p rest free = elim (Bool-cases (covers (route n q h) m p)) [
    | inl here ↦ rw (laws.route_chain n q h e m p free, here, taken n q h e m p free here) refl
    | inr other ↦ rw (laws.route_chain n q h e m p free, other) refl
  ]

  build_lem :
      (rs seen : List (Registration H)) (e : gin.Engine) (m : Method) (p : Text)
      → IsSeen seen e
      → are_free seen rs ≡ true
      → is_static rs p ≡ false
      → gin.chain (build gin rs e) m p ≡ or_else (gin.chain e m p) (chain_of (gin.globals e) rs m p)
  build_lem [] seen e m p known free path = rw (or_else-none (gin.chain e m p)) refl
  build_lem (static dir_path dir ∷ rs) seen e m p known free path =
      build_lem rs (static dir_path dir ∷ seen) (gin.register (static dir_path dir) e) m p
        (λ n q h.
          laws.static_chain dir_path dir e n q
            (left_false (has_prefix q dir_path) (any_covers seen n q) h)
          ∙ known n q (right_false (has_prefix q dir_path) (any_covers seen n q) h))
        free (right_false (has_prefix p dir_path) (is_static rs p) path)
      ∙ rw
          (
            laws.static_globals dir_path dir e,
            laws.static_chain dir_path dir e m p
                (left_false (has_prefix p dir_path) (is_static rs p) path),
          )
          refl
  build_lem (middleware h ∷ rs) seen e m p known free path =
      build_lem rs (middleware h ∷ seen) (gin.register (middleware h) e) m p
        (λ n q i. laws.middleware_chain h e n q ∙ known n q i) free path
      ∙ rw (laws.middleware_globals h e, laws.middleware_chain h e m p) refl
  build_lem (route n q h ∷ rs) seen e m p known free path =
      let (unseen, rest_free) =
        both_true (not (any_covers seen n q)) (are_free (route n q h ∷ seen) rs) free in
      let new_ : gin.chain e n q ≡ none = known n q (not-true (any_covers seen n q) unseen) in
      build_lem rs (route n q h ∷ seen) (gin.register (route n q h) e) m p
        (λ n' q' i.
          laws.route_chain n q h e n' q' new_
          ∙ rw (left_false (covers (route n q h) n' q') (any_covers seen n' q') i)
              (known n' q' (right_false (covers (route n q h) n' q') (any_covers seen n' q') i)))
        rest_free path
      ∙ rw (laws.route_globals n q h e)
          (route_first n q h e m p (chain_of (gin.globals e) rs m p) new_)

  -- On a router built from nothing by registrations that take no route twice, the handlers of a request
  -- whose path is not that of a file are those that the registrations say.
  pub build-chain_of :
      (rs : List (Registration H)) (m : Method) (p : Text)
      → are_free [] rs ≡ true
      → is_static rs p ≡ false
      → gin.chain (build gin rs gin.default) m p ≡ chain_of (gin.globals gin.default) rs m p
  build-chain_of rs m p free path =
      build_lem rs [] gin.default m p (λ n q h. laws.default_chain n q) free path
      ∙ rw (laws.default_chain m p) refl

-- Registrations of routes alone.
abbrev pub are_routes : {H : Type 0} → List (Registration H) → Bool
are_routes [] = true
are_routes (route n q h ∷ rs) = are_routes rs
are_routes (_ ∷ rs) = false

pub chain_of-routes :
    {H : Type 0} (gs : List (Handler H)) (rs : List (Registration H)) (m : Method) (p : Text)
    (hs : List (Handler H))
    → are_routes rs ≡ true
    → chain_of gs rs m p ≡ some hs
    → (h : H) × (hs ≡ gs ++ own h ∷ [])
chain_of-routes gs [] m p hs all e = cc
chain_of-routes gs (static path dir ∷ rs) m p hs all e = cc
chain_of-routes gs (middleware h ∷ rs) m p hs all e = cc
chain_of-routes gs (route n q h ∷ rs) m p hs all e = elim (Bool-cases (covers (route n q h) m p)) [
  | inl here ↦ (h, ground arith)
  | inr other ↦ chain_of-routes gs rs m p hs all (ground arith)
]

pub chain_of-append :
    {H : Type 0} (gs : List (Handler H)) (rs ss : List (Registration H)) (m : Method) (p : Text)
    → are_routes rs ≡ true
    → any_covers rs m p ≡ false
    → chain_of gs (rs ++ ss) m p ≡ chain_of gs ss m p
chain_of-append gs [] ss m p all none_ = refl
chain_of-append gs (static path dir ∷ rs) ss m p all none_ = cc
chain_of-append gs (middleware h ∷ rs) ss m p all none_ = cc
chain_of-append gs (route n q h ∷ rs) ss m p all none_ =
    rw (left_false (covers (route n q h) m p) (any_covers rs m p) none_) (
      chain_of-append gs rs ss m p all
        (right_false (covers (route n q h) m p) (any_covers rs m p) none_))

-- A router of files, one middleware and routes.
pub open_chain :
    {H : Type 0} (gin : Router H) (laws : RouterLaws gin) (path dir : Text) (c : Handler H)
    (rs : List (Registration H)) (m : Method) (p : Text) (hs : List (Handler H))
    → are_free [] (static path dir ∷ middleware c ∷ rs) ≡ true
    → are_routes rs ≡ true
    → is_static (static path dir ∷ middleware c ∷ rs) p ≡ false
    → gin.chain (build gin (static path dir ∷ middleware c ∷ rs) gin.default) m p ≡ some hs
    → (h : H) × (hs ≡ logger ∷ recovery ∷ c ∷ own h ∷ [])
open_chain gin laws path dir c rs m p hs free all path_is e =
    chain_of-routes (logger ∷ recovery ∷ c ∷ []) rs m p hs all (
      sym (
        build-chain_of gin laws (static path dir ∷ middleware c ∷ rs) m p free path_is
        ∙ rw laws.default_globals refl)
      ∙ e)
