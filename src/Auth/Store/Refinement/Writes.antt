-- ===== src/Auth/Store/Refinement/Writes.antt =====
-- Creating and updating a token, as a caller of the store sees them.
use ironfish.Base.{
  Option, none, some, Text, text_eq, nat_eq, get as find, ◌≡◌, ◌≢◌, refl, ap, ◌∙◌, arith,
}
use ironfish.Core.Error.{Result, ok, err}
use ironfish.Core.Token.{Uuid, ApiToken}
use ironfish.Auth.Store.{Codec, Store, create, get, update}
use ironfish.Auth.Store.Laws.{
  Works, IsIndexed, get-create, get-update, create-IsIndexed, update-IsIndexed, indexed,
}
use ironfish.Auth.Store.Revocation.{stored}
use ironfish.Auth.Store.Refinement.{
  IsStep, create_token, update_token, Answer, done, Tokens, Allowed, answer, perform, Implements,
}

module _ (codec : Codec) where
  open codec use {Bytes, to_vec, round_trip}

  pub answered :
      {A : Type 0} {x : A} (f : A → Answer) (r : Result A × Store codec)
      → r.0 ≡ ok x
      → answer f r ≡ (ok (f x), r.1)
  answered f (ok a, s) e = ground (arith, e)
  answered f (err e', s) e = ground (arith, e)

  pub get-to_vec :
      (s : Store codec) (id : Uuid) (t : ApiToken)
      → Works codec s
      → find id s.tokens_tree ≡ some (to_vec t)
      → get codec id s ≡ (ok (some t), s)
  unfolding get
  get-to_vec s id t w f = ground (arith, w, f, round_trip t)

  pub absent :
      (s : Store codec) (id : Uuid) (o : Option Bytes)
      → Works codec s
      → IsIndexed codec s
      → find id s.tokens_tree ≡ o
      → (get codec id s).0 ≡ ok none
      → find id s.tokens_tree ≡ none
  unfolding get
  absent s id none w v e g = e
  absent s id (some d) w v e g =
      let (u, p, same, q) = v.tokens id d e in ground (arith, w, e, round_trip u)

  -- The index has no hash that no token of the map has.
  unused :
      (s : Store codec) (m : Tokens) (h : Text) (o : Option Uuid)
      → Implements codec s m
      → ((u : ApiToken) → m u.id ≡ some u → u.token_hash ≢ h)
      → find h s.hash_index ≡ o
      → find h s.hash_index ≡ none
  unused s m h none i free e = e
  unused s m h (some id) i free e =
      let (u, f, same, q) = indexed codec s h id i.indexed e in
      absurd (free u (ground (arith, i.agrees id, get-to_vec s id u i.works f, same)) q)

  pub create-IsStep :
      (t : ApiToken) (s : Store codec) (m : Tokens)
      → Implements codec s m
      → Allowed (create_token t) m
      → IsStep codec (create_token t) s m
  unfolding perform
  create-IsStep t s m i (new_id, new_hash) =
      let (r, w, h, others) = get-create codec t s i.works in
      rw (answered (λ _. done) (create codec t s) r) (
        refl,
        record {
          works = w;
          indexed =
              create-IsIndexed codec t s i.works i.indexed
                (absent s t.id _ i.works i.indexed refl (ground (arith, i.agrees t.id, new_id)))
                (unused s m t.token_hash _ i new_hash refl);
          agrees = λ id. ground (arith, others id, i.agrees id);
        },
      )

  pub update-IsStep :
      (t : ApiToken) (s : Store codec) (m : Tokens)
      → Implements codec s m
      → Allowed (update_token t) m
      → IsStep codec (update_token t) s m
  unfolding perform
  update-IsStep t s m i (u, held, same) =
      let (r, w, h, others) = get-update codec t s i.works in
      let (f, _, _) = stored codec s t.id u _ i.works i.indexed refl (i.agrees t.id ∙ ap ok held) in
      rw (answered (λ _. done) (update codec t s) r) (
        refl,
        record {
          works = w;
          indexed = update-IsIndexed codec t u s i.works i.indexed f same;
          agrees = λ id. ground (arith, others id, i.agrees id);
        },
      )
