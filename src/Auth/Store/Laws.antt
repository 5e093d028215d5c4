-- ===== src/Auth/Store/Laws.antt =====
-- The token store as a map from identifiers to tokens with an index by hash, while sled works.
use ironfish.Base.{
  Option, none, some, [], Text, text_eq, text_eqb_iff, nat_eq, nat_eqb_iff, get as find, get-insert,
  ◌==◌, if◌then◌else◌, ◌≡◌, refl, ap, ◌∙◌, ◌↔◌, inl, inr, arith, Bool-cases,
}
use ironfish.Core.Error.{ok}
use ironfish.Core.Token.{Uuid, ApiToken}
use ironfish.Auth.Store.{Codec, Store, create, get, get_by_hash, update}

module _ (codec : Codec) where
  open codec use {Bytes, to_vec, from_slice, round_trip}

  -- No call of sled fails any more.
  abbrev pub Works : Store codec → Type 0
  Works s = s.faults ≡ []

  -- Every token is stored under its identifier and indexed by its hash, and the index holds
  -- nothing else.
  pub record IsIndexed (s : Store codec) : Type 0 where
    pub tokens :
        (id : Uuid) (d : Bytes)
        → find id s.tokens_tree ≡ some d
        → (t : ApiToken) × (d ≡ to_vec t) × (t.id ≡ id) × (find t.token_hash s.hash_index ≡ some id)
    pub hashes :
        (h : Text) (id : Uuid)
        → find h s.hash_index ≡ some id
        → (t : ApiToken) × (find id s.tokens_tree ≡ some (to_vec t)) × (t.token_hash ≡ h)

  -- After `create`, the token is found under its identifier and by its hash, and the other
  -- identifiers are as before.
  pub get-create :
      (t : ApiToken) (s : Store codec)
      → Works s
      → let (r, s') = create codec t s in
        (r ≡ ok tt)
        × Works s'
        × ((get_by_hash codec t.token_hash s').0 ≡ ok (some t))
        × ((id : Uuid)
            → (get codec id s').0 ≡ (if t.id == id then ok (some t) else (get codec id s).0))
  unfolding create get get_by_hash
  get-create t s w = (
    ground (arith, w),
    ground (arith, w),
    ground (
      arith,
      w,
      round_trip t,
      get-insert t.id t.id (to_vec t) s.tokens_tree,
      get-insert t.token_hash t.token_hash t.id s.hash_index,
      nat_eqb_iff t.id t.id,
      text_eqb_iff t.token_hash t.token_hash,
    ),
    λ id. ground (arith, w, round_trip t, get-insert t.id id (to_vec t) s.tokens_tree),
  )

  -- `update` replaces the token of its identifier and no other, and leaves the index alone.
  pub get-update :
      (t : ApiToken) (s : Store codec)
      → Works s
      → let (r, s') = update codec t s in
        (r ≡ ok tt)
        × Works s'
        × (s'.hash_index ≡ s.hash_index)
        × ((id : Uuid)
            → (get codec id s').0 ≡ (if t.id == id then ok (some t) else (get codec id s).0))
  unfolding update get
  get-update t s w = (
    ground (arith, w),
    ground (arith, w),
    ground (arith, w),
    λ id. ground (arith, w, round_trip t, get-insert t.id id (to_vec t) s.tokens_tree),
  )

  to_vec_injective : (a b : ApiToken) → to_vec a ≡ to_vec b → a ≡ b
  to_vec_injective a b e = ground (arith, round_trip a, round_trip b, ap from_slice e)

  -- What the index points at, with its identifier.
  pub indexed :
      (s : Store codec) (h : Text) (id : Uuid)
      → IsIndexed s
      → find h s.hash_index ≡ some id
      → (t : ApiToken) × (find id s.tokens_tree ≡ some (to_vec t))
        × (t.id ≡ id)
        × (t.token_hash ≡ h)
  indexed s h id v e =
      let (t, f, q) = v.hashes h id e in
      let (u, p, same, _) = v.tokens id (to_vec t) f in
      (t, f, ap (λ x. x.id) (to_vec_injective t u p) ∙ same, q)

  by_hash :
      (s : Store codec) (h : Text) (t : ApiToken) (o : Option Uuid)
      → Works s
      → IsIndexed s
      → find h s.hash_index ≡ o
      → (get_by_hash codec h s).0 ≡ ok (some t)
      → (find t.id s.tokens_tree ≡ some (to_vec t)) × (t.token_hash ≡ h)
  unfolding get_by_hash
  by_hash s h t none w v e g = ground (arith, w, e)
  by_hash s h t (some id) w v e g =
      let (u, f, same, q) = indexed s h id v e in ground (arith, w, e, f, round_trip u)

  by_id :
      (s : Store codec) (t : ApiToken) (o : Option Bytes)
      → Works s
      → IsIndexed s
      → find t.id s.tokens_tree ≡ o
      → (get codec t.id s).0 ≡ ok (some t)
      → (find t.token_hash s.hash_index ≡ some t.id) × (find t.id s.tokens_tree ≡ some (to_vec t))
  unfolding get
  by_id s t none w v e g = ground (arith, w, e)
  by_id s t (some d) w v e g =
      let (u, p, same, q) = v.tokens t.id d e in ground (arith, w, e, round_trip u)

  -- In an indexed store, a hash finds a token exactly when the token is stored and has that hash.
  pub get_by_hash_iff :
      (s : Store codec) (h : Text) (t : ApiToken)
      → Works s
      → IsIndexed s
      → ((get_by_hash codec h s).0 ≡ ok (some t))
        ↔ (((get codec t.id s).0 ≡ ok (some t)) × (t.token_hash ≡ h))
  unfolding get_by_hash get
  get_by_hash_iff s h t w v = (
    λ g. let (f, q) = by_hash s h t _ w v refl g in (ground (arith, w, f, round_trip t), q),
    λ g. let (f, q) = by_id s t _ w v refl g.0 in ground (arith, w, f, q, round_trip t, g.1),
  )

  -- A token with a new identifier and a new hash keeps the store indexed.
  pub create-IsIndexed :
      (t : ApiToken) (s : Store codec)
      → Works s
      → IsIndexed s
      → find t.id s.tokens_tree ≡ none
      → find t.token_hash s.hash_index ≡ none
      → IsIndexed (create codec t s).1
  unfolding create
  create-IsIndexed t s w v new_id new_hash = rw w (record {
    tokens = λ id d e. elim (Bool-cases (t.id == id)) [
      | inl p ↦ (
        t,
        ground (arith, get-insert t.id id (to_vec t) s.tokens_tree, e, p),
        (nat_eqb_iff _ _).0 p,
        ground (
          arith,
          get-insert t.token_hash t.token_hash t.id s.hash_index,
          text_eqb_iff t.token_hash t.token_hash,
          nat_eqb_iff t.id id,
          p,
        ),
      )
      | inr p ↦
          let (u, q, same, f) =
            v.tokens id d (ground (arith, get-insert t.id id (to_vec t) s.tokens_tree, e, p)) in
          (
            u,
            q,
            same,
            ground (
              arith,
              get-insert t.token_hash u.token_hash t.id s.hash_index,
              text_eqb_iff t.token_hash u.token_hash,
              new_hash,
              f,
            ),
          )
    ];
    hashes = λ h id e. elim (Bool-cases (t.token_hash == h)) [
      | inl p ↦ (
        t,
        ground (
          arith,
          get-insert t.token_hash h t.id s.hash_index,
          e,
          p,
          get-insert t.id id (to_vec t) s.tokens_tree,
          nat_eqb_iff t.id id,
        ),
        (text_eqb_iff _ _).0 p,
      )
      | inr p ↦
          let (u, f, q) =
            v.hashes h id (ground (arith, get-insert t.token_hash h t.id s.hash_index, e, p)) in
          (
            u,
            ground (
              arith,
              get-insert t.id id (to_vec t) s.tokens_tree,
              nat_eqb_iff t.id id,
              new_id,
              f,
            ),
            q,
          )
    ];
  })

  -- A token with the hash that its identifier has in the store keeps the store indexed.
  pub update-IsIndexed :
      (t u : ApiToken) (s : Store codec)
      → Works s
      → IsIndexed s
      → find t.id s.tokens_tree ≡ some (to_vec u)
      → t.token_hash ≡ u.token_hash
      → IsIndexed (update codec t s).1
  unfolding update
  update-IsIndexed t u s w v old same = rw w (record {
    tokens = λ id d e. elim (Bool-cases (t.id == id)) [
      | inl p ↦
          let (u', q, _, f) = v.tokens t.id (to_vec u) old in
          let k : u ≡ u' = to_vec_injective u u' q in
          (
            t,
            ground (arith, get-insert t.id id (to_vec t) s.tokens_tree, e, p),
            (nat_eqb_iff _ _).0 p,
            ground (arith, f, same, k, nat_eqb_iff t.id id, p),
          )
      | inr p ↦ v.tokens id d (ground (arith, get-insert t.id id (to_vec t) s.tokens_tree, e, p))
    ];
    hashes = λ h id e. elim (Bool-cases (t.id == id)) [
      | inl p ↦
          let (u', f, q) = v.hashes h id e in
          (
            t,
            ground (arith, get-insert t.id id (to_vec t) s.tokens_tree, p),
            same
                ∙ ap (λ x. x.token_hash)
                    (to_vec_injective u u' (ground (arith, old, f, nat_eqb_iff t.id id, p)))
                ∙ q,
          )
      | inr p ↦
          let (u', f, q) = v.hashes h id e in
          (u', ground (arith, get-insert t.id id (to_vec t) s.tokens_tree, p, f), q)
    ];
  })
