-- ===== src/Auth/Middleware/Admission.antt =====
-- Which requests reach the handler behind the middleware, and with which identity.
use dapr_mcp.Base.{
  String, Bool, true, false, not, ◌&&◌, Option, none, some, List, [], ◌∷◌, ◌==◌, ◌≡◌, ◌≢◌, refl,
  sym, subst, arith, eq_iff, Result, ok, err, inl, inr, All, ◌⊎◌,
}
use dapr_mcp.Auth.{Failure, Identity, Authenticator, with_identity, get_identity, mode_disabled}
use dapr_mcp.Auth.Middleware.{
  Request, Response, Handler, Middleware, http_error, should_skip, extract_token_with_source,
  try_each, finish, handler,
}

-- Authentication is on for the request.
abbrev pub is_required : {W : Type 0} → Middleware W → Request → Bool
is_required m r =
    not (should_skip m.config.skip_paths r.path)
    && (m.config.enabled && not (m.config.mode == mode_disabled))

abbrev pub is_accepted : Result Failure Identity → Bool
is_accepted (ok id) = true
is_accepted (err e) = false

module _ {W : Type 0} where
  -- The authenticators run in order, each in the world that the one before left; the first that
  -- accepts the token ends the search with its identity.
  pub data Tries (token : String) : List (Authenticator W) → W → Option Identity → W → Type 0 where
    exhausted : (w : W) → Tries token [] w none w
    accepted :
        (a : Authenticator W) (rest : List (Authenticator W)) (w w' : W) (id : Identity)
        → a.authenticate token w ≡ (ok id, w')
        → Tries token (a ∷ rest) w (some id) w'
    rejected :
        (a : Authenticator W) (rest : List (Authenticator W)) (w w' w'' : W) (e : Failure)
        (o : Option Identity)
        → a.authenticate token w ≡ (err e, w')
        → Tries token rest w' o w''
        → Tries token (a ∷ rest) w o w''

  try_each-Tries :
      (token : String) (auths : List (Authenticator W)) (w w' : W) (o : Option Identity)
      → Tries token auths w o w'
      → try_each auths token w ≡ (o, w')
  unfolding try_each
  try_each-Tries token auths w w' o (Tries.exhausted _) = refl
  try_each-Tries token auths w w' o (Tries.accepted a rest _ _ id e) = ground (arith, e)
  try_each-Tries token auths w w' o (Tries.rejected a rest _ v _ e _ h t) =
      ground (arith, h, try_each-Tries token rest v w' o t)

  pub handler-Tries :
      (m : Middleware W) (next : Handler W) (r : Request) (w w' : W) (o : Option Identity)
      → is_required m r ≡ true
      → (extract_token_with_source m r).0 ≢ ""
      → Tries (extract_token_with_source m r).0 m.authenticators w o w'
      → handler m next r w ≡ finish next r (o, w')
  unfolding handler
  handler-Tries m next r w w' o h t tries = ground (
    arith,
    try_each-Tries _ m.authenticators w w' o tries,
    eq_iff (extract_token_with_source m r).0 "",
  )

  Tries-tried :
      (token : String) (a : Authenticator W) (rest : List (Authenticator W)) (w : W)
      (x : Result Failure Identity × W)
      → a.authenticate token w ≡ x
      → ((v : W) → Tries token rest v (try_each rest token v).0 (try_each rest token v).1)
      → Tries token (a ∷ rest) w (try_each (a ∷ rest) token w).0 (try_each (a ∷ rest) token w).1
  Tries-tried token a rest w (ok id, v) e more =
      let t : Tries token (a ∷ rest) w (some id) v = Tries.accepted a rest w v id e in
      subst (λ x. Tries token (a ∷ rest) w x.0 x.1)
        (sym (try_each-Tries token (a ∷ rest) w v (some id) t)) t
  Tries-tried token a rest w (err f, v) e more =
      let (o, u) = try_each rest token v in
      let t : Tries token (a ∷ rest) w o u = Tries.rejected a rest w v u f o e (more v) in
      subst (λ x. Tries token (a ∷ rest) w x.0 x.1) (sym (try_each-Tries token (a ∷ rest) w u o t))
        t

  Tries-try_each :
      (token : String) (auths : List (Authenticator W)) (w : W)
      → Tries token auths w (try_each auths token w).0 (try_each auths token w).1
  unfolding try_each
  Tries-try_each token [] w = Tries.exhausted w
  Tries-try_each token (a ∷ rest) w =
      Tries-tried token a rest w (a.authenticate token w) refl (λ v. Tries-try_each token rest v)

  -- What follows the search: an identity that was found is in the context of the request that the
  -- handler behind is asked, which is the same otherwise; without one the answer is 401.
  abbrev pub Continues : Handler W → Request → Option Identity → W → Response × W → Type 0
  Continues next r none w x = x ≡ (http_error "Unauthorized: invalid token" 401, w)
  Continues next r (some id) w x =
      (passed : Request) × (x ≡ next passed w)
      × (get_identity passed.context ≡ some id)
      × (passed.path ≡ r.path)
      × (passed.header ≡ r.header)

  Continues-finish :
      (next : Handler W) (r : Request) (o : Option Identity) (w : W)
      → Continues next r o w (finish next r (o, w))
  Continues-finish next r none w = refl
  Continues-finish next r (some id) w =
      (record r { context = with_identity r.context id }, refl, refl, refl, refl)

  -- Where authentication is on, a request with a token is answered as the authenticators say, which
  -- run in order until the first that accepts the token. If one accepts it, the handler behind is
  -- asked, with the same path and headers, and with the identity of that authenticator in the
  -- context. If none does, the answer is 401, and the handler behind is not asked.
  pub handler-Continues :
      (m : Middleware W) (next : Handler W) (r : Request) (w : W)
      → is_required m r ≡ true
      → (extract_token_with_source m r).0 ≢ ""
      → (o : Option Identity) × (v : W) × Tries
          (extract_token_with_source m r).0
          m.authenticators
          w
          o
          v
        × Continues next r o v (handler m next r w)
  handler-Continues m next r w h t =
      let found = try_each m.authenticators (extract_token_with_source m r).0 w in
      let tries = Tries-try_each (extract_token_with_source m r).0 m.authenticators w in
      (
        found.0,
        found.1,
        tries,
        subst (Continues next r found.0 found.1)
            (sym (handler-Tries m next r w found.1 found.0 h t tries))
            (Continues-finish next r found.0 found.1),
      )

  abbrev pub Rejects : String → Authenticator W → Type 0
  Rejects token a = (v : W) → is_accepted (a.authenticate token v).0 ≡ false

  try_each-Rejects :
      (token : String) (auths : List (Authenticator W)) (w : W)
      → All (Rejects token) auths
      → (try_each auths token w).0 ≡ none
  unfolding try_each
  try_each-Rejects token [] w h = refl
  try_each-Rejects token (a ∷ rest) w h =
      ground (arith, h.0 w, try_each-Rejects token rest (a.authenticate token w).1 h.1)

  finish-none :
      (next : Handler W) (r : Request) (x : Option Identity × W)
      → x.0 ≡ none
      → finish next r x ≡ (http_error "Unauthorized: invalid token" 401, x.1)
  finish-none next r (none, w) h = refl
  finish-none next r (some id, w) h = cc

  -- Where authentication is on, and the request has no token or one that every authenticator
  -- rejects, the handler behind is not asked: whichever it is, the answer is the same, and is 401.
  pub handler_closed :
      (m : Middleware W) (next other : Handler W) (r : Request) (w : W)
      → is_required m r ≡ true
      → ((extract_token_with_source m r).0 ≡ "")
        ⊎ All (Rejects (extract_token_with_source m r).0) m.authenticators
      → (handler m next r w ≡ handler m other r w) × ((handler m next r w).0.status ≡ 401)
  unfolding handler
  handler_closed m next other r w h (inl e) =
      ground (arith, eq_iff (extract_token_with_source m r).0 "")
  handler_closed m next other r w h (inr all) =
      let found = try_each m.authenticators (extract_token_with_source m r).0 w in
      let same = try_each-Rejects (extract_token_with_source m r).0 m.authenticators w all in
      ground (arith, finish-none next r found same, finish-none other r found same)
