-- ===== src/Maintenance/Sealed.antt =====
-- The verdict of `verify` on a sealed block while maintenance deletes and replaces rows
-- (src/mark/memory/working.py, consolidation.py and src/mark/plasticity/pruner.py).
use mark_sdk.Prelude.{
  String, ◌≡◌, refl, ap, sym, ◌∙◌, subst, Bool, true, false, Option, none, some, not, ◌&&◌, ◌==◌,
  eq_sound, eq_iff, any, if◌then◌else◌, HasUniqueKeys-map, HasUniqueKeys-append, IsFresh, List, [],
  ◌∷◌, inl, inr, Bool-cases, Option-cases, find?, leb, All, All-imp, All-filter, All-sort_by,
  All-same_key, HasUniqueKeys, sort_by, arith, some_eq, is_in,
}
use mark_sdk.Types.Fragment.{Fragment}
use mark_sdk.Blocks.Hashing.{Sha256, Edge}
use mark_sdk.Blocks.Store.{
  Store, get_block, opt_is, fragments_for_block, nodes_in_block, edges_in_block,
}
use mark_sdk.Blocks.Chain.{verify, member_hashes_of}
use mark_sdk.Blocks.Seal.{verify-of_same}
use mark_sdk.Blocks.Members.{SealedMembership, protects_fragment, protects_edge, is_in?}
use mark_sdk.Maintenance.Listing.{
  list_by_agent, listed_before, surfaces, delete, upsert, store_fragment, list_edges, delete_edge,
}
use mark_sdk.Maintenance.Away.{IsAway, filter-delete, filter-upsert, IsAway-upsert}

-- The block `j` and its members are in `t` as they are in `s`.
unfoldable pub IsKept : String → Store → Store → Type 0
IsKept j s t =
    (get_block t j ≡ get_block s j)
    × ((fragments_for_block t j ≡ fragments_for_block s j)
        × ((nodes_in_block t j ≡ nodes_in_block s j) × (edges_in_block t j ≡ edges_in_block s j)))

pub IsKept-refl : (j : String) (s : Store) → IsKept j s s
unfolding IsKept
IsKept-refl j s = (refl, (refl, (refl, refl)))

pub IsKept-trans : (j : String) (s t u : Store) → IsKept j s t → IsKept j t u → IsKept j s u
unfolding IsKept
IsKept-trans j s t u (b, (f, (n, e))) (b', (f', (n', e'))) = (b' ∙ b, (f' ∙ f, (n' ∙ n, e' ∙ e)))

pub IsKept-verify :
    (sha : Sha256) (j : String) (s t : Store) → IsKept j s t → verify sha j t ≡ verify sha j s
unfolding IsKept member_hashes_of
IsKept-verify sha j s t (b, (f, (n, e))) = verify-of_same sha j t s b (rw (f, n, e) refl)

IsFresh-of_any {ℓ} :
    {A : Type ℓ} (key : A → String) (i : String) (xs : List A)
    → any (λ x. key x == i) xs ≡ false
    → IsFresh key i xs
IsFresh-of_any key i [] h = tt
IsFresh-of_any key i (x ∷ xs) h = (ground arith, IsFresh-of_any key i xs (ground arith))

module _ (j : String) where
  -- The fragment, and every row with its id, is outside the block.
  unfoldable pub IsOutside : Store → Fragment → Type 0
  IsOutside s f =
      IsAway (λ x. x.id) (λ x. opt_is j x.block_id) f.id s.fragments × (opt_is j f.block_id ≡ false)

  pub IsKept-delete : (s : Store) (f : Fragment) → IsOutside s f → IsKept j s (delete f.id s)
  unfolding IsKept IsOutside delete get_block fragments_for_block nodes_in_block edges_in_block
  IsKept-delete s f (away, off) = (
    refl,
    (
      ap (sort_by (λ f g. leb g.importance f.importance))
          (filter-delete (λ x. x.id) (λ x. opt_is j x.block_id) f.id s.fragments away),
      (refl, refl),
    ),
  )

  pub IsOutside-delete : (s : Store) (f g : Fragment) → IsOutside s g → IsOutside (delete f.id s) g
  unfolding IsOutside delete
  IsOutside-delete s f g (away, off) = (
    All-filter (λ x. (x.id == g.id) ≡ true → opt_is j x.block_id ≡ false) (λ x. not (x.id == f.id))
        s.fragments away,
    off,
  )

  -- A write that succeeds is the upsert.
  pub store_fragment-ok :
      (f : Fragment) (s t : Store)
      → store_fragment f s ≡ some t
      → t ≡ record s { fragments = upsert f s.fragments }
  unfolding store_fragment
  store_fragment-ok f s t h = elim (Option-cases (find? (λ g. g.id == f.id) s.fragments)) [
    | inl n ↦ sym (some_eq _ _ (rw (n, store_fragment) at h))
    | inr (g, found) ↦ elim (Bool-cases (g.agent_id == f.agent_id)) [
      | inl y ↦ sym (some_eq _ _ (rw (found, y, store_fragment) at h))
      | inr n ↦ absurd (cc (rw (found, n, store_fragment) at h))
    ]
  ]

  pub edges-store_fragment :
      (f : Fragment) (s t : Store) → store_fragment f s ≡ some t → t.edges ≡ s.edges
  edges-store_fragment f s t h = ap (λ u. u.edges) (store_fragment-ok f s t h)

  pub HasUniqueKeys-store_fragment :
      (f : Fragment) (s t : Store)
      → store_fragment f s ≡ some t
      → HasUniqueKeys (λ g. g.id) s.fragments
      → HasUniqueKeys (λ g. g.id) t.fragments
  unfolding upsert
  HasUniqueKeys-store_fragment f s t h u =
      subst (λ x. HasUniqueKeys (λ g. g.id) x.fragments) (sym (store_fragment-ok f s t h))
        (elim (Bool-cases (any (λ g. g.id == f.id) s.fragments)) [
          | inl y ↦
              rw (y, upsert)
                (HasUniqueKeys-map (λ g. g.id) (λ g. if g.id == f.id then f else g)
                  (λ g. ground (arith, eq_iff g.id f.id)) s.fragments u)
          | inr n ↦
              rw (n, upsert)
                (HasUniqueKeys-append (λ g. g.id) s.fragments f
                  (IsFresh-of_any (λ g. g.id) f.id s.fragments n) u)
        ])

  pub IsKept-store_fragment :
      (f : Fragment) (s t : Store) → store_fragment f s ≡ some t → IsOutside s f → IsKept j s t
  unfolding IsKept IsOutside upsert get_block fragments_for_block nodes_in_block edges_in_block
  IsKept-store_fragment f s t h (away, off) = subst (IsKept j s) (sym (store_fragment-ok f s t h)) (
    refl,
    (
      ap (sort_by (λ f g. leb g.importance f.importance))
          (filter-upsert (λ x. x.id) (λ x. opt_is j x.block_id) f off s.fragments away),
      (refl, refl),
    ),
  )

  pub IsOutside-store_fragment :
      (f : Fragment) (s t : Store) (g : Fragment)
      → store_fragment f s ≡ some t
      → opt_is j f.block_id ≡ false
      → IsOutside s g
      → IsOutside t g
  unfolding IsOutside upsert
  IsOutside-store_fragment f s t g h off (away, off') =
      subst (λ u. IsOutside u g) (sym (store_fragment-ok f s t h))
        (IsAway-upsert (λ x. x.id) (λ x. opt_is j x.block_id) f off g.id s.fragments away, off')

  module _ (m : SealedMembership) (sealed_block : is_in m.block_ids j ≡ true) where
    unprotected_off :
        (block_id : Option String) → is_in? m.block_ids block_id ≡ false → opt_is j block_id ≡ false
    unfolding opt_is
    unprotected_off none h = refl
    unprotected_off (some k) h = elim (Bool-cases (k == j)) [
      | inl y ↦
          absurd (cc (subst (λ i. is_in m.block_ids i ≡ false) (eq_sound k j y) h, sealed_block))
      | inr n ↦ n
    ]

    unprotected_fragment :
        (f : Fragment) → protects_fragment m f ≡ false → opt_is j f.block_id ≡ false
    unfolding protects_fragment
    unprotected_fragment f h = unprotected_off f.block_id (ground arith)

    -- Every listed fragment that is not protected is outside the block.
    pub listed-IsOutside :
        (s : Store) (agent_id : String) (wanted : Fragment → Bool)
        → HasUniqueKeys (λ f. f.id) s.fragments
        → All (λ f. protects_fragment m f ≡ false → IsOutside s f) (list_by_agent s agent_id wanted)
    unfolding list_by_agent IsOutside
    listed-IsOutside s agent_id wanted unique =
        All-sort_by listed_before (λ f. protects_fragment m f ≡ false → IsOutside s f) _
          (All-filter (λ f. protects_fragment m f ≡ false → IsOutside s f)
            (λ f. (f.agent_id == agent_id) && (surfaces s f.block_id && wanted f)) s.fragments
            (All-imp (λ x. All (λ y. (y.id == x.id) ≡ true → y ≡ x) s.fragments)
              (λ f. protects_fragment m f ≡ false → IsOutside s f)
              (λ f same h. (
                All-imp (λ y. (y.id == f.id) ≡ true → y ≡ f)
                    (λ y. (y.id == f.id) ≡ true → opt_is j y.block_id ≡ false)
                    (λ y e k. rw (e k) (unprotected_fragment f h)) s.fragments same,
                unprotected_fragment f h,
              ))
              s.fragments (All-same_key (λ f. f.id) s.fragments unique)))

    -- Deleting an edge that is not protected leaves the block's edges.
    unfoldable pub IsEdgeOutside : Store → Edge → Type 0
    IsEdgeOutside s e = IsAway (λ x. x.id) (λ x. opt_is j x.block_id) e.id s.edges

    pub IsKept-delete_edge :
        (s : Store) (e : Edge) → IsEdgeOutside s e → IsKept j s (delete_edge e.id s)
    unfolding IsKept IsEdgeOutside delete_edge get_block fragments_for_block nodes_in_block
        edges_in_block
    IsKept-delete_edge s e away = (
      refl,
      (
        refl,
        (
          refl,
          ap (sort_by (λ e f. leb e.created_at f.created_at))
              (filter-delete (λ x. x.id) (λ x. opt_is j x.block_id) e.id s.edges away),
        ),
      ),
    )

    pub IsEdgeOutside-delete_edge :
        (s : Store) (e g : Edge) → IsEdgeOutside s g → IsEdgeOutside (delete_edge e.id s) g
    unfolding IsEdgeOutside delete_edge
    IsEdgeOutside-delete_edge s e g away =
        All-filter (λ x. (x.id == g.id) ≡ true → opt_is j x.block_id ≡ false)
          (λ x. not (x.id == e.id)) s.edges away

    unprotected_edge : (e : Edge) → protects_edge m e ≡ false → opt_is j e.block_id ≡ false
    unfolding protects_edge
    unprotected_edge e h = unprotected_off e.block_id (ground arith)

    pub listed-IsEdgeOutside :
        (s : Store) (agent_id : String)
        → HasUniqueKeys (λ e. e.id) s.edges
        → All (λ e. protects_edge m e ≡ false → IsEdgeOutside s e) (list_edges s agent_id)
    unfolding list_edges IsEdgeOutside
    listed-IsEdgeOutside s agent_id unique =
        All-sort_by (λ e f. leb f.weight e.weight)
          (λ e. protects_edge m e ≡ false → IsEdgeOutside s e) _
          (All-filter (λ e. protects_edge m e ≡ false → IsEdgeOutside s e)
            (λ e. e.agent_id == agent_id) s.edges
            (All-imp (λ x. All (λ y. (y.id == x.id) ≡ true → y ≡ x) s.edges)
              (λ e. protects_edge m e ≡ false → IsEdgeOutside s e)
              (λ e same h.
                All-imp (λ y. (y.id == e.id) ≡ true → y ≡ e)
                  (λ y. (y.id == e.id) ≡ true → opt_is j y.block_id ≡ false)
                  (λ y g k. rw (g k) (unprotected_edge e h)) s.edges same)
              s.edges (All-same_key (λ e. e.id) s.edges unique)))
