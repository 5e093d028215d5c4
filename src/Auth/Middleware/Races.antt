-- ===== src/Auth/Middleware/Races.antt =====
-- The update that a valid token sets off runs in a task of its own, with the token as it was read.
use ironfish.Base.{true, some, Text, nat_eq, nat_eqb_iff, ◌≡◌, refl, ap, ◌∙◌, arith}
use ironfish.Core.Error.{ok}
use ironfish.Core.Cluster.{DateTime}
use ironfish.Core.Token.{ApiToken, is_valid}
use ironfish.Auth.Store.{Codec, Store, get, get_by_hash, update, revoke}
use ironfish.Auth.Store.Laws.{Works, IsIndexed, get-update, get_by_hash_iff, update-IsIndexed}
use ironfish.Auth.Store.Revocation.{revoked_at, revoke_lem, stored}
use ironfish.Auth.Token.{Crypto, hash_token}
use ironfish.Auth.Middleware.{AuthLayer, Request, inner, bearer, by_token, call}
use ironfish.Auth.Middleware.Access.{by_token-inner, inner-by_token}

is_valid-used :
    (now then_ : DateTime) (t : ApiToken)
    → is_valid now (record t { last_used_at = some then_ }) ≡ is_valid now t
unfolding is_valid
is_valid-used now then_ t = refl

module _ (codec : Codec) (c : Crypto) where
  -- A request that sets off an update was let through for a valid token, and the update is that
  -- token with a new time of use.
  call-update :
      (layer : AuthLayer codec c) (now then_ : DateTime) (req : Request) (s : Store codec)
      (u : ApiToken)
      → (call codec c layer now then_ req s).0 ≡ (inner, some u)
      → (t : ApiToken) × (h : Text) × ((get_by_hash codec h s).0 ≡ ok (some t))
        × (is_valid now t ≡ true)
        × (u ≡ record t { last_used_at = some then_ })
  unfolding call
  call-update layer now then_ req s u e =
      let step : (by_token codec c layer now then_ (bearer req.authorization) s).0
          ≡ (inner, some u) =
        ground arith in
      let (raw, t, o, a) =
        by_token-inner codec c layer now then_ (bearer req.authorization) s (ground arith) in
      (
        t,
        hash_token c layer.manager raw,
        a.1,
        a.2,
        ground (arith, inner-by_token codec c layer now then_ raw t s a, rw o at step),
      )

  -- A revocation that falls between a request with a token and that request's update is undone:
  -- the hash that had found the revoked token then finds the token of the update, as valid as at
  -- the request.
  pub revocation_lost :
      (layer : AuthLayer codec c) (now then_ later : DateTime) (req : Request) (s : Store codec)
      (u : ApiToken)
      → Works codec s
      → IsIndexed codec s
      → (call codec c layer now then_ req s).0 ≡ (inner, some u)
      → let s₁ = (revoke codec later u.id s).1 in
        let s₂ = (update codec u s₁).1 in
        ((t : ApiToken) × ((get_by_hash codec u.token_hash s₁).0 ≡ ok (some t))
          × (t.revoked ≡ true))
        × ((get_by_hash codec u.token_hash s₂).0 ≡ ok (some u))
        × (is_valid now u ≡ true)
  revocation_lost layer now then_ later req s u w v e =
      let (t, h, found, valid, k) = call-update layer now then_ req s u e in
      let same : u.id ≡ t.id = ap (λ x. x.id) k in
      let hash : u.token_hash ≡ t.token_hash = ap (λ x. x.token_hash) k in
      let g = ((get_by_hash_iff codec s h t w v).0 found).0 in
      let (_, w₁, v₁, h₁, others) = revoke_lem codec later t.id t s w v g in
      let s₁ = (revoke codec later t.id s).1 in
      let t' = revoked_at codec later t in
      let g₁ : (get codec t.id s₁).0 ≡ ok (some t') =
        others t.id ∙ ground (arith, nat_eqb_iff t.id t.id) in
      let (f₁, _, _) = stored codec s₁ t.id t' _ w₁ v₁ refl g₁ in
      let u' = record t { last_used_at = some then_ } in
      let v₂ = update-IsIndexed codec u' t' s₁ w₁ v₁ f₁ refl in
      let (_, w₂, _, others₂) = get-update codec u' s₁ w₁ in
      rw k (
        (t', h₁, refl),
        (get_by_hash_iff codec _ t.token_hash u' w₂ v₂).1
            (others₂ t.id ∙ ground (arith, nat_eqb_iff t.id t.id), refl),
        is_valid-used now then_ t ∙ valid,
      )
