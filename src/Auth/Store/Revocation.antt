-- ===== src/Auth/Store/Revocation.antt =====
-- Revoking and deleting a token, while sled works.
use ironfish.Base.{
  true, Option, none, some, text_eq, text_eqb_iff, nat_eq, nat_eqb_iff, get as find, remove,
  get-remove, ◌==◌, if◌then◌else◌, ◌≡◌, refl, ap, ◌∙◌, arith,
}
use ironfish.Core.Error.{ok}
use ironfish.Core.Cluster.{DateTime}
use ironfish.Core.Token.{Uuid, ApiToken}
use ironfish.Auth.Store.{Codec, Store, get, get_by_hash, update, delete, revoke}
use ironfish.Auth.Store.Laws.{Works, IsIndexed, update-IsIndexed, get-update, get_by_hash_iff}

module _ (codec : Codec) where
  open codec use {Bytes, to_vec, from_slice, round_trip}

  -- The token as `revoke` writes it back.
  abbrev pub revoked_at : DateTime → ApiToken → ApiToken
  revoked_at now t = record t { revoked = true; last_used_at = some now }

  pub stored :
      (s : Store codec) (id : Uuid) (t : ApiToken) (o : Option Bytes)
      → Works codec s
      → IsIndexed codec s
      → find id s.tokens_tree ≡ o
      → (get codec id s).0 ≡ ok (some t)
      → (find id s.tokens_tree ≡ some (to_vec t))
        × (t.id ≡ id)
        × (find t.token_hash s.hash_index ≡ some id)
  unfolding get
  stored s id t none w v e g = ground (arith, w, e)
  stored s id t (some d) w v e g =
      let (u, p, same, q) = v.tokens id d e in ground (arith, w, e, round_trip u)

  revoke-update :
      (now : DateTime) (id : Uuid) (t : ApiToken) (s : Store codec)
      → Works codec s
      → find id s.tokens_tree ≡ some (to_vec t)
      → revoke codec now id s ≡ update codec (revoked_at now t) s
  unfolding revoke
  revoke-update now id t s w f = ground (arith, w, f, round_trip t)

  -- Revoking a stored token succeeds, marks that token revoked under its identifier and for its
  -- hash, leaves the other identifiers alone, and keeps the store indexed.
  pub revoke_lem :
      (now : DateTime) (id : Uuid) (t : ApiToken) (s : Store codec)
      → Works codec s
      → IsIndexed codec s
      → (get codec id s).0 ≡ ok (some t)
      → let (r, s') = revoke codec now id s in
        (r ≡ ok tt)
        × Works codec s'
        × IsIndexed codec s'
        × ((get_by_hash codec t.token_hash s').0 ≡ ok (some (revoked_at now t)))
        × ((j : Uuid)
            → (get codec j s').0
              ≡ (if id == j then ok (some (revoked_at now t)) else (get codec j s).0))
  unfolding revoke
  revoke_lem now id t s w v g =
      let t' = revoked_at now t in
      let (f, same, q) = stored s id t _ w v refl g in
      let (r, w', h, others) = get-update codec t' s w in
      let v' = update-IsIndexed codec t' t s w v (ground (arith, f, same)) refl in
      rw (revoke-update now id t s w f) (
        r,
        w',
        v',
        (get_by_hash_iff codec _ t.token_hash t' w' v').1
            ((others t'.id ∙ ground (arith, nat_eqb_iff t'.id t'.id)), refl),
        λ j. ground (arith, others j, same),
      )

  removed : Uuid → ApiToken → Store codec → Store codec
  removed id t s = record s {
    tokens_tree = remove id s.tokens_tree;
    hash_index = remove t.token_hash s.hash_index;
  }

  delete-removed :
      (id : Uuid) (t : ApiToken) (s : Store codec)
      → Works codec s
      → find id s.tokens_tree ≡ some (to_vec t)
      → delete codec id s ≡ (ok tt, removed id t s)
  unfolding delete removed
  delete-removed id t s w f = ground (arith, w, f, round_trip t)

  removed-IsIndexed :
      (id : Uuid) (t : ApiToken) (s : Store codec)
      → IsIndexed codec s
      → find id s.tokens_tree ≡ some (to_vec t)
      → find t.token_hash s.hash_index ≡ some id
      → IsIndexed codec (removed id t s)
  unfolding removed
  removed-IsIndexed id t s v f q = record {
    tokens = λ j d e.
        let (u, p, same, h) = v.tokens j d (ground (arith, get-remove id j s.tokens_tree, e)) in
        (
          u,
          p,
          same,
          ground (
            arith,
            get-remove t.token_hash u.token_hash s.hash_index,
            text_eqb_iff t.token_hash u.token_hash,
            h,
            q,
            get-remove id j s.tokens_tree,
            e,
            nat_eqb_iff id j,
          ),
        );
    hashes = λ h j e.
        let (u, g, p) = v.hashes h j (ground (arith, get-remove t.token_hash h s.hash_index, e)) in
        (
          u,
          ground (
            arith,
            get-remove id j s.tokens_tree,
            nat_eqb_iff id j,
            g,
            f,
            ap from_slice,
            round_trip t,
            round_trip u,
            get-remove t.token_hash h s.hash_index,
            e,
            text_eqb_iff t.token_hash h,
            p,
          ),
          p,
        );
  }

  -- Deleting a stored token succeeds: neither its identifier nor its hash finds anything, the
  -- other identifiers are as before, and the store stays indexed.
  pub delete_lem :
      (id : Uuid) (t : ApiToken) (s : Store codec)
      → Works codec s
      → IsIndexed codec s
      → (get codec id s).0 ≡ ok (some t)
      → let (r, s') = delete codec id s in
        (r ≡ ok tt)
        × IsIndexed codec s'
        × ((get_by_hash codec t.token_hash s').0 ≡ ok none)
        × ((j : Uuid) → (get codec j s').0 ≡ (if id == j then ok none else (get codec j s).0))
  unfolding get get_by_hash removed
  delete_lem id t s w v g =
      let (f, same, q) = stored s id t _ w v refl g in
      rw (delete-removed id t s w f) (
        refl,
        removed-IsIndexed id t s v f q,
        ground (
          arith,
          w,
          get-remove t.token_hash t.token_hash s.hash_index,
          text_eqb_iff t.token_hash t.token_hash,
        ),
        λ j. ground (arith, w, get-remove id j s.tokens_tree),
      )
