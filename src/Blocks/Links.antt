-- ===== src/Blocks/Links.antt =====
-- The links between the blocks of a chain when a block is stored (`seal` and `verify_chain` of
-- src/mark/memory/block_chain.py).
use mark_sdk.Prelude.{
  String, ◌≡◌, refl, ap, ◌∙◌, subst, false, Option, none, some, List, [], ◌∷◌, ◌==◌, eq_sound, inl,
  inr, Bool-cases, filter, find?, All, keep_if, find?-filter, find?-sort_by, find?-of_fresh,
  HasUniqueKeys, HasUniqueKeys-filter, HasUniqueKeys-sort_by, Dict, dict_get, dict_put,
  dict_get-dict_put, Option-cases, ◌⊎◌, eq_refl, true,
}
use mark_sdk.Blocks.Store.{Block, Store, get_block, sealed_chain, is_chained, sealed_before}
use mark_sdk.Blocks.Chain.{hashes_by_id, broken_links_of, broken_link, is_empty}

-- What `prev_hash_by_id` gives: the content hash of the block, if the chain has it.
unfoldable pub hash_of_block : Option Block → Option (Option String)
hash_of_block none = none
hash_of_block (some b) = some b.content_hash

or_else : Option (Option String) → Option Block → Option (Option String)
or_else d none = d
or_else d (some b) = some b.content_hash

hashes_by_id-of_find? :
    (bs : List Block) (d : Dict (Option String)) (j : String)
    → HasUniqueKeys (λ b. b.id) bs
    → dict_get j (hashes_by_id bs d) ≡ or_else (dict_get j d) (find? (λ b. b.id == j) bs)
unfolding hashes_by_id or_else
hashes_by_id-of_find? [] d j u = refl
hashes_by_id-of_find? (b ∷ bs) d j u = elim (Bool-cases (b.id == j)) [
  | inl y ↦
      let absent : find? (λ c. c.id == j) bs ≡ none =
        find?-of_fresh (λ c. c.id) j bs
          (subst (λ k. All (λ c. (c.id == k) ≡ false) bs) (eq_sound b.id j y) u.0) in
      hashes_by_id-of_find? bs (dict_put b.id b.content_hash d) j u.1
      ∙ rw (absent, y, dict_get-dict_put b.id j b.content_hash d, y)
  | inr n ↦
      hashes_by_id-of_find? bs (dict_put b.id b.content_hash d) j u.1
      ∙ rw (n, dict_get-dict_put b.id j b.content_hash d, n)
]

module _ (agent_id : String) (s : Store) (unique : HasUniqueKeys (λ b. b.id) s.blocks) where
  pub prev_hash :
      (j : String)
      → dict_get j (hashes_by_id (sealed_chain s agent_id) [])
        ≡ hash_of_block (keep_if (is_chained agent_id) (get_block s j))
  unfolding sealed_chain get_block hash_of_block or_else
  prev_hash j =
      hashes_by_id-of_find? (sealed_chain s agent_id) [] j (
        HasUniqueKeys-sort_by (λ b. b.id) sealed_before (filter (is_chained agent_id) s.blocks)
          (HasUniqueKeys-filter (λ b. b.id) (is_chained agent_id) s.blocks unique))
      ∙ ap (or_else none) (
          find?-sort_by (λ b. b.id) sealed_before j (filter (is_chained agent_id) s.blocks)
            (HasUniqueKeys-filter (λ b. b.id) (is_chained agent_id) s.blocks unique)
          ∙ find?-filter (λ b. b.id) (is_chained agent_id) j s.blocks unique)
      ∙ or_else_none (keep_if (is_chained agent_id) (get_block s j))
    where
      or_else_none : (o : Option Block) → or_else none o ≡ hash_of_block o
      or_else_none none = refl
      or_else_none (some b) = refl

module _ (h : Dict (Option String)) where
  pub no_broken_links :
      (bs : List Block)
      → is_empty (broken_links_of h bs) ≡ true
      → All (λ b. broken_link h b ≡ []) bs
  unfolding broken_links_of is_empty
  no_broken_links [] e = tt
  no_broken_links (b ∷ bs) e = elim (List-cases (broken_link h b)) [
    | inl n ↦ (n, no_broken_links bs (rw n at e))
    | inr (l, (ls, c)) ↦ absurd (cc (rw c at e))
  ]
    where
      List-cases :
          {A : Type 0} (xs : List A) → (xs ≡ []) ⊎ ((x : A) × ((ys : List A) × (xs ≡ x ∷ ys)))
      List-cases [] = inl refl
      List-cases (x ∷ xs) = inr (x, (xs, refl))

  pub broken_links_of-none :
      (bs : List Block) → All (λ b. broken_link h b ≡ []) bs → broken_links_of h bs ≡ []
  unfolding broken_links_of
  broken_links_of-none [] a = refl
  broken_links_of-none (b ∷ bs) a = rw (a.0, broken_links_of-none bs a.1)

  -- A recorded link that its predecessor bears out.
  pub link_holds :
      (c : Block) (p e : String)
      → c.prev_block_id ≡ some p
      → c.prev_block_hash ≡ some e
      → dict_get p h ≡ some (some e)
      → broken_link h c ≡ []
  unfolding broken_link
  link_holds c p e prev hash got = rw (prev, got, hash, eq_refl, broken_link)

-- A dict that still gives what the other gave keeps the links that hold.
pub link_kept :
    (h k : Dict (Option String)) (c : Block)
    → ((p e : String) → dict_get p h ≡ some (some e) → dict_get p k ≡ some (some e))
    → broken_link h c ≡ []
    → broken_link k c ≡ []
unfolding broken_link
link_kept h k c keeps e = elim (Option-cases c.prev_block_id) [
  | inl n ↦ rw (n, broken_link)
  | inr (p, prev) ↦ elim (Option-cases (dict_get p h)) [
    | inl n ↦ absurd (cc (rw (prev, n, broken_link) at e))
    | inr (o, got) ↦ elim (Option-cases o) [
      | inl n ↦ absurd (cc (rw (prev, got ∙ ap some n, broken_link) at e))
      | inr (g, is_some) ↦
          let kept = keeps p g (got ∙ ap some is_some) in
          rw (prev, kept, broken_link) (rw (prev, got ∙ ap some is_some, broken_link) at e)
    ]
  ]
]

pub link-of_none :
    (h : Dict (Option String)) (c : Block) → c.prev_block_id ≡ none → broken_link h c ≡ []
unfolding broken_link
link-of_none h c n = rw (n, broken_link)
