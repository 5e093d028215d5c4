-- ===== src/Auth/Store/Failures.antt =====
-- The token store when calls of sled fail part of the way, and when two callers interleave.
use ironfish.Base.{
  Option, none, some, List, [], ◌∷◌, Text, text_eq, text_eqb_iff, nat_eq, nat_eqb_iff, get as find,
  insert, get-insert, ◌≡◌, arith,
}
use ironfish.Core.Error.{storage, ok, err}
use ironfish.Core.Token.{ApiToken}
use ironfish.Auth.Store.{Codec, Store, create, get, get_by_hash}

module _ (codec : Codec) where
  open codec use {Bytes, to_vec, from_slice, round_trip}

  -- The store once its database works again.
  abbrev pub recovered : Store codec → Store codec
  recovered s = record s { faults = [] }

  -- A `create` whose second write fails reports the error and leaves the token half stored: its
  -- identifier finds it, and a hash that was new still finds nothing.
  create_half_done :
      (t : ApiToken) (s : Store codec) (e : Text) (fs : List (Option Text))
      → s.faults ≡ none ∷ some e ∷ fs
      → find t.token_hash s.hash_index ≡ none
      → let (r, s') = create codec t s in
        (r ≡ err (storage e))
        × ((get codec t.id (recovered s')).0 ≡ ok (some t))
        × ((get_by_hash codec t.token_hash (recovered s')).0 ≡ ok none)
  unfolding create get get_by_hash
  create_half_done t s e fs f new = ground (
    arith,
    f,
    new,
    round_trip t,
    get-insert t.id t.id (to_vec t) s.tokens_tree,
    nat_eqb_iff t.id t.id,
  )

  create-trees :
      (t : ApiToken) (s : Store codec)
      → (create codec t s).0 ≡ ok tt
      → ((create codec t s).1.tokens_tree ≡ insert t.id (to_vec t) s.tokens_tree)
        × ((create codec t s).1.hash_index ≡ insert t.token_hash t.id s.hash_index)
  unfolding create
  create-trees t s k = ground arith

  -- Whatever fails, a `create` that reports success has stored the token under its identifier and
  -- its hash.
  create_ok :
      (t : ApiToken) (s : Store codec)
      → (create codec t s).0 ≡ ok tt
      → ((get codec t.id (recovered (create codec t s).1)).0 ≡ ok (some t))
        × ((get_by_hash codec t.token_hash (recovered (create codec t s).1)).0 ≡ ok (some t))
  unfolding get get_by_hash
  create_ok t s k =
      let (p, q) = create-trees t s k in
      rw (p, q)
        (ground (
          arith,
          round_trip t,
          get-insert t.id t.id (to_vec t) s.tokens_tree,
          nat_eqb_iff t.id t.id,
          get-insert t.token_hash t.token_hash t.id s.hash_index,
          text_eqb_iff t.token_hash t.token_hash,
        ))
