-- ===== src/Auth/Store/Refinement/Removal.antt =====
-- Deleting and revoking a token, as a caller of the store sees them.
use ironfish.Base.{
  Option, none, some, text_eq, nat_eq, nat_eqb_iff, get as find, remove, get-remove, ◌≡◌, refl, ap,
  ◌∙◌, arith,
}
use ironfish.Core.Error.{ok}
use ironfish.Core.Cluster.{DateTime}
use ironfish.Core.Token.{Uuid, ApiToken}
use ironfish.Auth.Store.{Codec, Store, get, delete, revoke}
use ironfish.Auth.Store.Laws.{Works}
use ironfish.Auth.Store.Revocation.{stored, revoke_lem, delete_lem}
use ironfish.Auth.Store.Refinement.{
  IsStep, delete_token, revoke_token, done, Tokens, perform, Implements,
}
use ironfish.Auth.Store.Refinement.Writes.{answered, absent}

module _ (codec : Codec) where
  open codec use {Bytes, to_vec, round_trip}

  delete_absent :
      (id : Uuid) (s : Store codec)
      → Works codec s
      → find id s.tokens_tree ≡ none
      → delete codec id s ≡ (ok tt, record s { tokens_tree = remove id s.tokens_tree })
  unfolding delete
  delete_absent id s w f = ground (arith, w, f)

  delete_absent-IsStep :
      (id : Uuid) (s : Store codec) (m : Tokens)
      → Implements codec s m
      → find id s.tokens_tree ≡ none
      → IsStep codec (delete_token id) s m
  unfolding perform get
  delete_absent-IsStep id s m i f = rw (delete_absent id s i.works f) (
    refl,
    record {
      works = i.works;
      indexed = record {
        tokens = λ j d e. i.indexed.tokens j d (ground (arith, get-remove id j s.tokens_tree, e));
        hashes = λ h j e.
            let (u, g, q) = i.indexed.hashes h j e in
            (u, ground (arith, get-remove id j s.tokens_tree, g, f, nat_eqb_iff id j), q);
      };
      agrees = λ j. ground (arith, i.works, get-remove id j s.tokens_tree, i.agrees j);
    },
  )

  delete-Works :
      (id : Uuid) (t : ApiToken) (s : Store codec)
      → Works codec s
      → find id s.tokens_tree ≡ some (to_vec t)
      → Works codec (delete codec id s).1
  unfolding delete
  delete-Works id t s w f = ground (arith, w, f, round_trip t)

  pub delete-IsStep :
      (id : Uuid) (s : Store codec) (m : Tokens) (o : Option ApiToken)
      → Implements codec s m
      → m id ≡ o
      → IsStep codec (delete_token id) s m
  unfolding perform
  delete-IsStep id s m none i e =
      delete_absent-IsStep id s m i
        (absent codec s id _ i.works i.indexed refl (i.agrees id ∙ ap ok e))
  delete-IsStep id s m (some t) i e =
      let (f, _, _) = stored codec s id t _ i.works i.indexed refl (i.agrees id ∙ ap ok e) in
      let (r, v, h, others) = delete_lem codec id t s i.works i.indexed (i.agrees id ∙ ap ok e) in
      rw (answered codec (λ _. done) (delete codec id s) r) (
        refl,
        record {
          works = delete-Works id t s i.works f;
          indexed = v;
          agrees = λ j. ground (arith, others j, i.agrees j);
        },
      )

  revoke_absent :
      (now : DateTime) (id : Uuid) (s : Store codec)
      → Works codec s
      → (get codec id s).0 ≡ ok none
      → revoke codec now id s ≡ (ok tt, s)
  unfolding revoke get
  revoke_absent now id s w g = ground (arith, w, g)

  pub revoke-IsStep :
      (now : DateTime) (id : Uuid) (s : Store codec) (m : Tokens) (o : Option ApiToken)
      → Implements codec s m
      → m id ≡ o
      → IsStep codec (revoke_token now id) s m
  unfolding perform
  revoke-IsStep now id s m none i e =
      rw (revoke_absent now id s i.works (i.agrees id ∙ ap ok e), e) (refl, i)
  revoke-IsStep now id s m (some t) i e =
      let g = i.agrees id ∙ ap ok e in
      let (r, w, v, h, others) = revoke_lem codec now id t s i.works i.indexed g in
      let (_, same, _) = stored codec s id t _ i.works i.indexed refl g in
      rw (answered codec (λ _. done) (revoke codec now id s) r, e)
        (
          refl,
          record {
            works = w;
            indexed = v;
            agrees = λ j. ground (arith, others j, i.agrees j, same);
          },
        )
