-- ===== src/Cluster/Gossip/Convergence.antt =====
-- Gossip as a state-based register for each key: nodes that have seen the same entries agree.
use ironfish.Base.{
  true, false, Option, none, some, List, [], ◌∷◌, Text, text_eq, text_eqb_iff, nat_eq,
  text_ltb_irrefl, text_ltb_trans, text_ltb-total, get, get-insert, ◌==◌, In, ◌≡◌, ◌≢◌, refl, sym,
  subst, ap, ◌∙◌, ◌⊎◌, inl, inr, ◌↔◌, arith, Bool-cases, Option-cases,
}
use ironfish.Core.Cluster.{NodeId}
use ironfish.Core.Token.{Uuid}
use ironfish.Cluster.Gossip.{
  GossipEntry, GossipService, new, keeps_place, entry_key, is_stale, apply_message, apply_all,
}

keeps_place_refl : (a : GossipEntry) → keeps_place a a ≡ true
unfolding keeps_place
keeps_place_refl a = ground (arith, text_ltb_irrefl a.origin)

keeps_place_trans :
    (a b c : GossipEntry) → keeps_place a b ≡ true → keeps_place b c ≡ true → keeps_place a c ≡ true
unfolding keeps_place
keeps_place_trans a b c h k = ground (
  arith,
  text_ltb_trans a.origin c.origin b.origin,
  text_ltb_trans b.origin a.origin c.origin,
  text_ltb-total a.origin b.origin,
  text_ltb-total b.origin c.origin,
  text_ltb-total a.origin c.origin,
)

keeps_place-total : (a b : GossipEntry) → keeps_place a b ≡ false → keeps_place b a ≡ true
unfolding keeps_place
keeps_place-total a b h =
    ground (arith, text_ltb_trans a.origin b.origin a.origin, text_ltb_irrefl a.origin)

-- Two entries that each keep their place before the other have one version and one origin.
keeps_place-antisym :
    (a b : GossipEntry)
    → keeps_place a b ≡ true
    → keeps_place b a ≡ true
    → (a.version ≡ b.version) × (a.origin ≡ b.origin)
unfolding keeps_place
keeps_place-antisym a b h k = ground (arith, text_ltb-total a.origin b.origin)

same_entry : (y z : GossipEntry) → some y ≡ some z → y ≡ z
same_entry y z p = cc

module _ (show_uuid : Uuid → Text) where
  abbrev key : GossipEntry → Text
  key e = entry_key show_uuid e.message

  -- What a node that has seen the entries of `Seen` holds for a key: nothing if none has the key,
  -- and otherwise one of them which keeps its place before each of the others.
  abbrev pub Holds : (GossipEntry → Type 0) → Text → Option GossipEntry → Type 0
  Holds Seen k none = (x : GossipEntry) → Seen x → key x ≢ k
  Holds Seen k (some e) =
      Seen e × (key e ≡ k) × ((x : GossipEntry) → Seen x → key x ≡ k → keeps_place e x ≡ true)

  abbrev Add : GossipEntry → (GossipEntry → Type 0) → GossipEntry → Type 0
  Add e Seen x = (x ≡ e) ⊎ Seen x

  Holds-kept :
      (Seen : GossipEntry → Type 0) (e : GossipEntry) (k : Text) (o : Option GossipEntry)
      → Holds Seen k o
      → (key e ≡ k → (x : GossipEntry) × (o ≡ some x) × (keeps_place x e ≡ true))
      → Holds (Add e Seen) k o
  Holds-kept Seen e k none h covered = λ x m q. elim m [
    | inl p ↦ absurd (none_some (covered (subst (λ y. key y ≡ k) p q)))
    | inr s ↦ h x s q
  ]
    where
      none_some :
          (x : GossipEntry) × (◌≡◌ {A = Option GossipEntry} none (some x))
            × (keeps_place x e ≡ true)
          → ⊥
      none_some (x, p, _) = cc
  Holds-kept Seen e k (some y) h covered = (
    inr h.0,
    h.1,
    λ x m q. elim m [
      | inl p ↦
          let (z, same, before) = covered (subst (λ w. key w ≡ k) p q) in
          subst (λ w. keeps_place y w ≡ true) (sym p)
            (subst (λ w. keeps_place w e ≡ true) (sym (same_entry y z same)) before)
      | inr s ↦ h.2 x s q
    ],
  )

  Holds-new :
      (Seen : GossipEntry → Type 0) (e : GossipEntry) (o : Option GossipEntry)
      → Holds Seen (key e) o
      → is_stale show_uuid o e ≡ false
      → Holds (Add e Seen) (key e) (some e)
  unfolding is_stale
  Holds-new Seen e none h fresh = (
    inl refl,
    refl,
    λ x m q. elim m [
      | inl p ↦ subst (λ w. keeps_place e w ≡ true) (sym p) (keeps_place_refl e)
      | inr s ↦ absurd (h x s q)
    ],
  )
  Holds-new Seen e (some y) h fresh = (
    inl refl,
    refl,
    λ x m q. elim m [
      | inl p ↦ subst (λ w. keeps_place e w ≡ true) (sym p) (keeps_place_refl e)
      | inr s ↦ keeps_place_trans e y x (keeps_place-total y e fresh) (h.2 x s q)
    ],
  )

  abbrev AllHold : (GossipEntry → Type 0) → GossipService → Type 0
  AllHold Seen g = (k : Text) → Holds Seen k (get k g.entries)

  stale_covers :
      (g : GossipService) (e : GossipEntry) (k : Text)
      → is_stale show_uuid (get (key e) g.entries) e ≡ true
      → key e ≡ k
      → (x : GossipEntry) × (get k g.entries ≡ some x) × (keeps_place x e ≡ true)
  unfolding is_stale
  stale_covers g e k stale q =
      subst (λ j. (x : GossipEntry) × (get j g.entries ≡ some x) × (keeps_place x e ≡ true)) q
        (elim (Option-cases (get (key e) g.entries)) [
          | inl p ↦ ground arith
          | inr (x, p) ↦ (x, p, ground arith)
        ])

  apply_message-Holds :
      (Seen : GossipEntry → Type 0) (e : GossipEntry) (g : GossipService)
      → AllHold Seen g
      → AllHold (Add e Seen) (apply_message show_uuid e g)
  unfolding apply_message
  apply_message-Holds Seen e g h k =
      elim (Bool-cases (is_stale show_uuid (get (key e) g.entries) e)) [
        | inl stale ↦ rw stale (Holds-kept Seen e k _ (h k) (stale_covers g e k stale))
        | inr fresh ↦
            rw (fresh, get-insert (key e) k e g.entries)
              (elim (Bool-cases (key e == k)) [
                | inl same ↦ rw same (
                    subst (λ j. Holds (Add e Seen) j (some e)) ((text_eqb_iff _ _).0 same)
                      (Holds-new Seen e _ (h (key e)) fresh))
                | inr other ↦
                    rw other
                      (Holds-kept Seen e k _ (h k) (λ q. ground (arith, text_eqb_iff (key e) k)))
              ])
      ]

  Holds-iff :
      (Seen Seen' : GossipEntry → Type 0) (k : Text) (o : Option GossipEntry)
      → ((x : GossipEntry) → Seen x ↔ Seen' x)
      → Holds Seen k o
      → Holds Seen' k o
  Holds-iff Seen Seen' k none eq h = λ x s q. h x ((eq x).1 s) q
  Holds-iff Seen Seen' k (some e) eq h = ((eq e).0 h.0, h.1, λ x s q. h.2 x ((eq x).1 s) q)

  abbrev Later : List GossipEntry → (GossipEntry → Type 0) → GossipEntry → Type 0
  Later es Seen x = In x es ⊎ Seen x

  apply_all-Holds :
      (Seen : GossipEntry → Type 0) (es : List GossipEntry) (g : GossipService)
      → AllHold Seen g
      → AllHold (Later es Seen) (apply_all show_uuid es g)
  unfolding apply_all
  apply_all-Holds Seen [] g h k = Holds-iff Seen (Later [] Seen) k _ (λ x. ground arith) (h k)
  apply_all-Holds Seen (e ∷ es) g h k =
      Holds-iff (Later es (Add e Seen)) (Later (e ∷ es) Seen) k _ (λ x. ground arith)
        (apply_all-Holds (Add e Seen) es (apply_message show_uuid e g)
          (apply_message-Holds Seen e g h) k)

  -- A node that starts empty and applies entries holds, for each key, the entry that keeps its
  -- place before all the others that it was given, and nothing for a key that none had.
  apply_all_newest :
      (node : NodeId) (es : List GossipEntry) (k : Text)
      → Holds (λ x. In x es) k (get k (apply_all show_uuid es (new node)).entries)
  unfolding new get
  apply_all_newest node es k =
      Holds-iff (Later es (λ _. ⊥)) (λ x. In x es) k _ (λ x. ground arith)
        (apply_all-Holds (λ _. ⊥) es (new node) (λ j x s. absurd s) k)

  Holds-unique :
      (Seen : GossipEntry → Type 0) (k : Text) (o o' : Option GossipEntry)
      → ((x y : GossipEntry)
          → Seen x
          → Seen y
          → key x ≡ key y
          → x.version ≡ y.version
          → x.origin ≡ y.origin
          → x ≡ y)
      → Holds Seen k o
      → Holds Seen k o'
      → o ≡ o'
  Holds-unique Seen k none none one h h' = refl
  Holds-unique Seen k none (some y) one h h' = absurd (h y h'.0 h'.1)
  Holds-unique Seen k (some x) none one h h' = absurd (h' x h.0 h.1)
  Holds-unique Seen k (some x) (some y) one h h' =
      let (v, o) = keeps_place-antisym x y (h.2 y h'.0 h'.1) (h'.2 x h.0 h.1) in
      ap some (one x y h.0 h'.0 (h.1 ∙ sym h'.1) v o)

  -- Two nodes that were given the same entries hold the same for every key, in whatever order and
  -- however often each was given them, if no two entries of one key share version and origin.
  pub gossip_converges :
      (node node' : NodeId) (es es' : List GossipEntry)
      → ((x : GossipEntry) → In x es ↔ In x es')
      → ((x y : GossipEntry)
          → In x es
          → In y es
          → key x ≡ key y
          → x.version ≡ y.version
          → x.origin ≡ y.origin
          → x ≡ y)
      → (k : Text)
      → get k (apply_all show_uuid es (new node)).entries
        ≡ get k (apply_all show_uuid es' (new node')).entries
  gossip_converges node node' es es' same one k =
      Holds-unique (λ x. In x es) k _ _ one (apply_all_newest node es k)
        (Holds-iff (λ x. In x es') (λ x. In x es) k _ (λ x. ((same x).1, (same x).0))
          (apply_all_newest node' es' k))
