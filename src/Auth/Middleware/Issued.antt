-- ===== src/Auth/Middleware/Issued.antt =====
-- From the issue of a token to the request that uses it.
use ironfish.Base.{
  ◌/◌, ℕ, true, false, Option, none, some, Text, text, ◌++◌, ◌≡◌, refl, sym, ap, ◌∙◌, ◌≤◌, nat_eq,
  inl, inr, Option-cases, arith,
}
use ironfish.Core.Error.{ok}
use ironfish.Core.Cluster.{DateTime}
use ironfish.Core.Token.{Uuid, ApiToken, CreateTokenRequest, CreateTokenResponse, is_valid}
use ironfish.Auth.Token.{
  Bytes, Crypto, TokenManager, token_prefix, days_or, raw_from, generate_raw_token, hash_token,
  add_days, issue, create,
}
use ironfish.Auth.Store.{Codec, Store}
use ironfish.Auth.Store
use ironfish.Auth.Store.Laws.{Works, get-create}
use ironfish.Auth.Middleware.{Request, is_admin_path, inner, AuthLayer, call}
use ironfish.Auth.Middleware.Access.{call-inner_iff}

module _ (c : Crypto) where
  open c use {Key, decodes, decodes-encode, latest}

  -- A token and the answer to its owner that go together.
  abbrev pub Issued : TokenManager c → ApiToken → CreateTokenResponse → Type 0
  Issued m t response =
      (raw : Text) × (response.token ≡ token_prefix ++ raw)
      × (t.token_hash ≡ hash_token c m raw)
      × (decodes raw ≡ true)
      × (t.revoked ≡ false)

  raw_from-decodes :
      (k : Key) (id : Uuid) (bytes : Bytes) (time : ℕ) → decodes (raw_from c k id bytes time) ≡ true
  unfolding raw_from
  raw_from-decodes k id bytes time = decodes-encode _

  pub create-Issued :
      (m : TokenManager c) (id : Uuid) (random : Option Bytes) (now then_ : DateTime)
      (request : CreateTokenRequest) (t : ApiToken) (response : CreateTokenResponse)
      → create c m id random now then_ request ≡ some (ok (t, response))
      → Issued m t response
  unfolding create generate_raw_token issue
  create-Issued m id none now then_ request t response e =
      elim (Option-cases (add_days c now (days_or m.default_ttl_days request.expires_in_days))) [
        | inl f ↦ ground (arith, e, f)
        | inr (x, f) ↦ ground (arith, e, f)
      ]
  create-Issued m id (some bytes) now then_ request t response e =
      elim (Option-cases (add_days c now (days_or m.default_ttl_days request.expires_in_days))) [
        | inl f ↦ ground (arith, e, f)
        | inr (x, f) ↦
            let raw = raw_from c m.key id bytes (then_ / 1000000000) in
            (
              raw,
              ground (arith, e, f),
              ground (arith, e, f),
              raw_from-decodes m.key id bytes (then_ / 1000000000),
              ground (arith, e, f),
            )
      ]

  module _ (codec : Codec) (layer : AuthLayer codec c) where
    hash_token-key :
        (m : TokenManager c) (raw : Text)
        → m.key ≡ layer.manager.key
        → hash_token c m raw ≡ hash_token c layer.manager raw
    unfolding hash_token
    hash_token-key m raw k = rw k refl

    -- Wherever a store finds an issued token by its hash, and the manager has the issuer's key.
    pub Issued-inner :
        (m : TokenManager c) (t : ApiToken) (response : CreateTokenResponse)
        (expires at later : DateTime) (req : Request) (s : Store codec)
        → m.key ≡ layer.manager.key
        → Issued m t response
        → t.expires_at ≡ some expires
        → at ≤ expires
        → (Store.get_by_hash codec t.token_hash s).0 ≡ ok (some t)
        → req.authorization ≡ some (text "Bearer " ++ response.token)
        → is_admin_path req ≡ false
        → (call codec c layer at later req s).0.0 ≡ inner
    unfolding is_valid
    Issued-inner m t response expires at later req s k (raw, p, h, d, v) x early found bearer
          plain =
        (call-inner_iff codec c layer at later req s).1 (
          inr (
            inr (
              inr (
                plain,
                (
                  raw,
                  t,
                  bearer ∙ ap (λ z. some (text "Bearer " ++ z)) p,
                  (
                    d,
                    ap (λ z. (Store.get_by_hash codec z s).0) (sym (h ∙ hash_token-key m raw k))
                        ∙ found,
                    ground (arith, v, x, early),
                  ),
                ),
              ))))

    -- A token that was issued and stored lets its owner's request through up to the moment at which
    -- it expires, on every path but the admin ones.
    issued-inner :
        (id : Uuid) (random : Option Bytes) (now then_ : DateTime) (request : CreateTokenRequest)
        (t : ApiToken) (response : CreateTokenResponse) (expires at later : DateTime)
        (req : Request) (s : Store codec)
        → create c layer.manager id random now then_ request ≡ some (ok (t, response))
        → t.expires_at ≡ some expires
        → at ≤ expires
        → Works codec s
        → req.authorization ≡ some (text "Bearer " ++ response.token)
        → is_admin_path req ≡ false
        → (call codec c layer at later req (Store.create codec t s).1).0.0 ≡ inner
    issued-inner id random now then_ request t response expires at later req s e x early w bearer
          plain =
        let issued = create-Issued layer.manager id random now then_ request t response e in
        let (_, _, found, _) = get-create codec t s w in
        Issued-inner layer.manager t response expires at later req (Store.create codec t s).1 refl
          issued x early found bearer plain
