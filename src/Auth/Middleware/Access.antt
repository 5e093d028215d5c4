-- ===== src/Auth/Middleware/Access.antt =====
-- Exactly which requests the authentication layer lets through.
use ironfish.Base.{
  true, false, Option, none, some, ◌++◌, Text, text, text_eq, text_eqb_iff, strip_prefix,
  strip_prefix_iff, if◌then◌else◌, ◌≡◌, refl, ap, ◌⊎◌, inl, inr, ◌↔◌, arith, Bool-cases,
  Option-cases,
}
use ironfish.Core.Error.{Result, ok, err}
use ironfish.Core.Cluster.{DateTime}
use ironfish.Core.Token.{ApiToken, is_valid}
use ironfish.Auth.Store.{Codec, Store, get_by_hash}
use ironfish.Auth.Token.{Crypto, token_prefix, validate_format, extract_raw_token, hash_token}
use ironfish.Auth.Middleware.{
  AuthLayer, Request, inner, unauthorized, is_public_path, is_admin_path, admin_response, bearer,
  found, look_up, by_raw, by_token, call,
}

module _ (codec : Codec) (c : Crypto) where
  open c use {decodes}

  -- A token of the expected form whose hash the store knows, and which is valid now.
  abbrev pub Accepts : AuthLayer codec c → DateTime → Store codec → Text → ApiToken → Type 0
  Accepts layer now s raw t =
      (decodes raw ≡ true)
      × ((get_by_hash codec (hash_token c layer.manager raw) s).0 ≡ ok (some t))
      × (is_valid now t ≡ true)

  abbrev pub Allowed : AuthLayer codec c → DateTime → Request → Store codec → Type 0
  Allowed layer now req s =
      (layer.enabled ≡ false)
      ⊎ (is_public_path req ≡ true)
      ⊎ ((is_admin_path req ≡ true)
          × ((key : Text) × (layer.admin_key ≡ some key) × (req.admin_key ≡ some key)))
      ⊎ ((is_admin_path req ≡ false)
          × ((raw : Text) × (t : ApiToken) × (req.authorization
                ≡ some (text "Bearer " ++ (token_prefix ++ raw)))
              × Accepts layer now s raw t))

  module _ (layer : AuthLayer codec c) (now then_ : DateTime) where
    found-inner :
        (r : Result (Option ApiToken))
        → (found codec c now then_ r).0 ≡ inner
        → (t : ApiToken) × (r ≡ ok (some t)) × (is_valid now t ≡ true)
    unfolding found
    found-inner (ok (some t)) e = (t, refl, ground arith)
    found-inner (ok none) e = cc
    found-inner (err x) e = cc

    pub by_token-eq :
        (token : Text) (raw : Text) (s : Store codec)
        → strip_prefix token_prefix token ≡ some raw
        → by_token codec c layer now then_ (some token) s ≡ (
            if decodes raw
            then look_up codec c layer now then_ raw s
            else ((unauthorized (text "invalid token format"), none), s))
    unfolding by_token by_raw validate_format extract_raw_token
    by_token-eq token raw s p = ground (arith, p)

    by_token-missing :
        (s : Store codec)
        → (by_token codec c layer now then_ none s).0.0
          ≡ unauthorized (text "missing authorization header")
    unfolding by_token
    by_token-missing s = refl

    by_token-malformed :
        (token : Text) (s : Store codec)
        → strip_prefix token_prefix token ≡ none
        → (by_token codec c layer now then_ (some token) s).0.0
          ≡ unauthorized (text "invalid token format")
    unfolding by_token validate_format extract_raw_token
    by_token-malformed token s p = ground (arith, p)

    pub by_token-inner :
        (o : Option Text) (s : Store codec)
        → (by_token codec c layer now then_ o s).0.0 ≡ inner
        → (raw : Text) × (t : ApiToken) × (o ≡ some (token_prefix ++ raw))
          × Accepts layer now s raw t
    unfolding look_up
    by_token-inner none s e = cc (by_token-missing s)
    by_token-inner (some token) s e = elim (Option-cases (strip_prefix token_prefix token)) [
      | inl p ↦ cc (by_token-malformed token s p)
      | inr (raw, p) ↦ elim (Bool-cases (decodes raw)) [
        | inl good ↦
            let (t, q, v) =
              found-inner (get_by_hash codec (hash_token c layer.manager raw) s).0
                (ground (arith, by_token-eq token raw s p)) in
            (raw, t, ap some ((strip_prefix_iff token_prefix token raw).0 p), (good, q, v))
        | inr bad ↦ ground (arith, by_token-eq token raw s p)
      ]
    ]

    pub inner-by_token :
        (raw : Text) (t : ApiToken) (s : Store codec)
        → Accepts layer now s raw t
        → (by_token codec c layer now then_ (some (token_prefix ++ raw)) s).0
          ≡ (inner, some (record t { last_used_at = some then_ }))
    unfolding look_up found
    inner-by_token raw t s a = ground (
      arith,
      a,
      by_token-eq (token_prefix ++ raw) raw s
          ((strip_prefix_iff token_prefix (token_prefix ++ raw) raw).1 refl),
    )

    admin_inner :
        (o p : Option Text)
        → (admin_response o p ≡ inner) ↔ ((key : Text) × (o ≡ some key) × (p ≡ some key))
    unfolding admin_response
    admin_inner none p = (λ e. cc, λ (key, q, r). cc)
    admin_inner (some x) none = (λ e. cc, λ (key, q, r). cc)
    admin_inner (some x) (some y) = (
      λ e. (x, refl, ground (arith, text_eqb_iff x y)),
      λ (key, q, r). ground (arith, text_eqb_iff x y),
    )

    bearer_iff :
        (o : Option Text) (token : Text)
        → (bearer o ≡ some token) ↔ (o ≡ some (text "Bearer " ++ token))
    bearer_iff none token = (λ e. cc, λ e. cc)
    bearer_iff (some h) token = ground (arith, strip_prefix_iff (text "Bearer ") h token)

    -- A request reaches the service behind the layer exactly when the layer is off, the path is a
    -- public one, it is an admin path and the request has the configured admin key, or it is any
    -- other path and the request has a bearer token that the store knows and that is valid now.
    pub call-inner_iff :
        (req : Request) (s : Store codec)
        → ((call codec c layer now then_ req s).0.0 ≡ inner) ↔ Allowed layer now req s
    unfolding call
    call-inner_iff req s = (to, from)
      where
        to : (call codec c layer now then_ req s).0.0 ≡ inner → Allowed layer now req s
        to e = elim (Bool-cases layer.enabled) [
          | inr off ↦ inl off
          | inl on ↦ elim (Bool-cases (is_public_path req)) [
            | inl public ↦ inr (inl public)
            | inr private ↦ elim (Bool-cases (is_admin_path req)) [
              | inl admin ↦ inr (inr (inl (admin, (admin_inner _ _).0 (ground arith))))
              | inr plain ↦
                  let (raw, t, p, a) = by_token-inner (bearer req.authorization) s (ground arith) in
                  inr (inr (inr (plain, (raw, t, (bearer_iff _ _).0 p, a))))
            ]
          ]
        ]

        from : Allowed layer now req s → (call codec c layer now then_ req s).0.0 ≡ inner
        from (inl off) = ground arith
        from (inr (inl public)) = ground arith
        from (inr (inr (inl (admin, k)))) = ground (arith, (admin_inner _ _).1 k)
        from (inr (inr (inr (plain, (raw, t, p, a))))) = ground (
          arith,
          (bearer_iff req.authorization (token_prefix ++ raw)).1 p,
          inner-by_token raw t s a,
        )
