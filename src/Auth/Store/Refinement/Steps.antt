-- ===== src/Auth/Store/Refinement/Steps.antt =====
-- The token store keeps what it promises, call by call and over any sequence of calls.
use ironfish.Base.{
  Option, none, some, List, [], ◌∷◌, Text, text_eq, nat_eq, get as find, ◌≡◌, refl, ap, ◌∙◌, arith,
}
use ironfish.Core.Error.{ok}
use ironfish.Core.Token.{Uuid, ApiToken}
use ironfish.Auth.Store.{Codec, Store, empty, get, get_by_hash}
use ironfish.Auth.Store.Laws.{Works, IsIndexed, get_by_hash_iff, indexed}
use ironfish.Auth.Store.Refinement.{
  IsStep, Call, create_token, update_token, get_token, delete_token, find_by_hash, revoke_token,
  token, Tokens, no_tokens, next, Allowed, AllAllowed, AllMeet, perform, perform_all, Implements,
}
use ironfish.Auth.Store.Refinement.Writes.{answered, get-to_vec, create-IsStep, update-IsStep}
use ironfish.Auth.Store.Refinement.Removal.{delete-IsStep, revoke-IsStep}

module _ (codec : Codec) where
  open codec use {Bytes, to_vec, round_trip}

  get-same : (id : Uuid) (s : Store codec) → Works codec s → (get codec id s).1 ≡ s
  unfolding get
  get-same id s w = ground (arith, w)

  get-IsStep :
      (id : Uuid) (s : Store codec) (m : Tokens)
      → Implements codec s m
      → IsStep codec (get_token id) s m
  unfolding perform
  get-IsStep id s m i =
      rw (answered codec token (get codec id s) (i.agrees id), get-same id s i.works) (refl, i)

  by_index :
      (s : Store codec) (h : Text) (o : Option Uuid)
      → Works codec s
      → IsIndexed codec s
      → find h s.hash_index ≡ o
      → (x : Option ApiToken) × (get_by_hash codec h s ≡ (ok x, s))
  unfolding get_by_hash
  by_index s h none w v e = (none, ground (arith, w, e))
  by_index s h (some id) w v e =
      let (u, f, same, q) = indexed codec s h id v e in
      (some u, ground (arith, w, e, get-to_vec codec s id u w f))

  find_by_hash-IsStep :
      (h : Text) (s : Store codec) (m : Tokens)
      → Implements codec s m
      → IsStep codec (find_by_hash h) s m
  unfolding perform
  find_by_hash-IsStep h s m i =
      let (x, e) = by_index s h _ i.works i.indexed refl in
      (
        λ t.
            let (to, from) = get_by_hash_iff codec s h t i.works i.indexed in
            (
              λ r. ground (arith, to (ground (arith, e, r)), i.agrees t.id),
              λ held. ground (arith, e, from ((i.agrees t.id ∙ ap ok held.0), held.1)),
            ),
        rw e i,
      )

  -- A call that is allowed in a store that implements a map meets its specification, and the store
  -- after it implements the map after it.
  call-IsStep :
      (c : Call) (s : Store codec) (m : Tokens)
      → Implements codec s m
      → Allowed c m
      → IsStep codec c s m
  call-IsStep (create_token t) s m i a = create-IsStep codec t s m i a
  call-IsStep (update_token t) s m i a = update-IsStep codec t s m i a
  call-IsStep (get_token id) s m i a = get-IsStep id s m i
  call-IsStep (find_by_hash h) s m i a = find_by_hash-IsStep h s m i
  call-IsStep (delete_token id) s m i a = delete-IsStep codec id s m _ i refl
  call-IsStep (revoke_token now id) s m i a = revoke-IsStep codec now id s m _ i refl

  perform_all-Implements :
      (cs : List Call) (s : Store codec) (m : Tokens)
      → Implements codec s m
      → AllAllowed cs m
      → AllMeet cs m (perform_all codec cs s)
  unfolding perform_all
  perform_all-Implements [] s m i a = tt
  perform_all-Implements (c ∷ cs) s m i (a, rest) =
      let (meets, i') = call-IsStep c s m i a in
      (meets, perform_all-Implements cs (perform codec c s).1 (next c m) i' rest)

  empty-Implements : Implements codec (empty codec) no_tokens
  unfolding empty find get
  empty-Implements = record {
    works = refl;
    indexed = record { tokens = λ id d e. ground (arith, e); hashes = λ h id e. ground (arith, e) };
    agrees = λ id. refl;
  }

  -- The store refines a map from identifiers to tokens: over any sequence of calls on a new store
  -- whose database works, in which a token is created with an identifier and a hash that no stored
  -- token has and updated under its own hash, every call succeeds, a lookup by identifier gives
  -- the map's token, and a lookup by hash gives exactly the token of the map with that hash.
  pub perform_all_meets :
      (cs : List Call)
      → AllAllowed cs no_tokens
      → AllMeet cs no_tokens (perform_all codec cs (empty codec))
  perform_all_meets cs a = perform_all-Implements cs (empty codec) no_tokens empty-Implements a
