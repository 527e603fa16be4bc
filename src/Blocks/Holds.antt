-- ===== src/Blocks/Holds.antt =====
-- When `verify_chain` finds a chain valid, block by block (src/mark/memory/block_chain.py).
use mark_sdk.Prelude.{
  String, ◌≡◌, refl, ap, ◌∙◌, subst, true, false, none, some, List, [], ◌∷◌, not, ◌==◌,
  eq_false_sym, &&-eq-true, filter, All, All-imp, All-imp₂, All-append, All-filter_self,
  All-filter_imp, All-sort_by, All-of_sort_by, All-of_filter, sort_by, HasUniqueKeys,
  HasUniqueKeys-filter, HasUniqueKeys-append, Dict, arith, some_eq,
}
use mark_sdk.Blocks.Hashing.{Sha256}
use mark_sdk.Blocks.Store.{
  Block, Store, store_block, get_block, latest_sealed_block, sealed_chain, is_chained,
  sealed_before, first_row, is_latest,
}
use mark_sdk.Blocks.Chain.{
  ok, verify, verdict, is_broken, broken_link, hashes_by_id, verify_chain, is_empty,
  BlockVerification, is_invalid, member_hashes_of,
}
use mark_sdk.Blocks.Verdict.{is_empty-eq-nil, filter-none, filter-eq-nil}
use mark_sdk.Blocks.Seal.{get_block-store_block, member_hashes_of-store_block, verify-of_same}
use mark_sdk.Blocks.Links.{no_broken_links, broken_links_of-none}

abbrev pub HasUniqueBlocks : Store → Type 0
HasUniqueBlocks s = HasUniqueKeys (λ b. b.id) s.blocks

pub HasUniqueBlocks-store_block :
    (b : Block) (s : Store) → HasUniqueBlocks s → HasUniqueBlocks (store_block b s)
unfolding store_block
HasUniqueBlocks-store_block b s u =
    HasUniqueKeys-append (λ x. x.id) (filter (λ x. not (x.id == b.id)) s.blocks) b
      (All-imp (λ x. not (x.id == b.id) ≡ true) (λ x. (x.id == b.id) ≡ false) (λ x e. ground arith)
        (filter (λ x. not (x.id == b.id)) s.blocks)
        (All-filter_self (λ x. not (x.id == b.id)) s.blocks))
      (HasUniqueKeys-filter (λ x. x.id) (λ x. not (x.id == b.id)) s.blocks u)

-- A row that was replaced is gone: what holds of the new row and of the others holds of all.
pub All-store_block :
    (P : Block → Type 0) (b : Block) (s : Store)
    → All (λ x. (x.id == b.id) ≡ false → P x) s.blocks
    → P b
    → All P (store_block b s).blocks
unfolding store_block
All-store_block P b s others here =
    All-append P (filter (λ x. not (x.id == b.id)) s.blocks) (b ∷ [])
      (All-filter_imp P (λ x. not (x.id == b.id)) s.blocks
        (All-imp (λ x. (x.id == b.id) ≡ false → P x) (λ x. not (x.id == b.id) ≡ true → P x)
          (λ x f e. f (ground arith)) s.blocks others))
      (here, tt)

-- The row that a LIMIT 1 query gives is one of the selected rows.
All-first_row :
    (P : Block → Type 0) (xs : List Block) (x : Block) → All P xs → first_row xs ≡ some x → P x
unfolding first_row
All-first_row P [] x a e = absurd (ground arith)
All-first_row P (y ∷ ys) x a e = subst P (some_eq y x e) a.0

pub latest-is_latest :
    (s : Store) (agent_id i : String) (p : Block) (P : Block → Type 0)
    → All (λ b. is_latest agent_id i b ≡ true → P b) s.blocks
    → latest_sealed_block s agent_id i ≡ some p
    → P p
unfolding latest_sealed_block is_latest
latest-is_latest s agent_id i p P a e =
    All-first_row P (sort_by (λ b c. sealed_before c b) (filter (is_latest agent_id i) s.blocks)) p
      (All-sort_by (λ b c. sealed_before c b) P (filter (is_latest agent_id i) s.blocks)
        (All-filter_imp P (is_latest agent_id i) s.blocks a))
      e

-- Where the verification of a block is found broken.
module _ (sha : Sha256) where
  invalid_never_sealed :
      (c : Block) (m : Dict String)
      → c.content_hash ≡ none
      → is_invalid (verdict sha c.id m (some c)) ≡ true
  unfolding verdict is_invalid
  invalid_never_sealed c m n = rw (n, verdict)

  pub never_sealed-is_broken :
      (s : Store) (c : Block)
      → get_block s c.id ≡ some c
      → c.content_hash ≡ none
      → is_broken sha s c ≡ true
  unfolding is_broken verify
  never_sealed-is_broken s c found n =
      ap (λ o. is_invalid (verdict sha c.id (member_hashes_of sha s c.id) o)) found
      ∙ invalid_never_sealed c (member_hashes_of sha s c.id) n

  pub is_broken-of_valid :
      (s : Store) (c : Block) (i : String) (v : BlockVerification)
      → c.id ≡ i
      → verify sha i s ≡ ok v
      → v.valid ≡ true
      → is_broken sha s c ≡ false
  unfolding is_broken is_invalid
  is_broken-of_valid s c i v id verified valid =
      ap (λ j. is_invalid (verify sha j s)) id ∙ ap is_invalid verified ∙ ap not valid

  pub is_broken-store_block :
      (b : Block) (s : Store) (c : Block)
      → (c.id == b.id) ≡ false
      → is_broken sha (store_block b s) c ≡ is_broken sha s c
  unfolding is_broken
  is_broken-store_block b s c n = ap is_invalid (
      verify-of_same sha c.id (store_block b s) s
        (get_block-store_block b s c.id ∙ rw (eq_false_sym c.id b.id n))
        (member_hashes_of-store_block sha b s c.id))

  -- A valid chain: no block is broken, every link holds.
  unfoldable pub ChainHolds : String → Store → Block → Type 0
  ChainHolds agent_id s c =
      (is_broken sha s c ≡ false) × (broken_link (hashes_by_id (sealed_chain s agent_id) []) c ≡ [])

  pub verify_chain-holds :
      (agent_id : String) (s : Store)
      → (verify_chain sha agent_id s).valid ≡ true
      → All (λ c. is_chained agent_id c ≡ true → ChainHolds agent_id s c) s.blocks
  unfolding verify_chain sealed_chain ChainHolds
  verify_chain-holds agent_id s valid =
      let (blocks, links) = &&-eq-true _ _ valid in
      let chain : List Block = sealed_chain s agent_id in
      let h = hashes_by_id chain [] in
      All-of_filter (ChainHolds agent_id s) (is_chained agent_id) s.blocks (
        All-of_sort_by sealed_before (ChainHolds agent_id s) (filter (is_chained agent_id) s.blocks)
          (All-imp₂ (λ c. is_broken sha s c ≡ false) (λ c. broken_link h c ≡ [])
            (ChainHolds agent_id s) (λ c x y. (x, y)) chain
            (filter-none (λ b. b.id) (is_broken sha s) chain (is_empty-eq-nil _ blocks))
            (no_broken_links h chain links)))

  pub verify_chain-of_holds :
      (agent_id : String) (s : Store)
      → All (λ c. is_chained agent_id c ≡ true → ChainHolds agent_id s c) s.blocks
      → (verify_chain sha agent_id s).valid ≡ true
  unfolding verify_chain sealed_chain ChainHolds is_empty
  verify_chain-of_holds agent_id s a =
      let chain : List Block = sealed_chain s agent_id in
      let h = hashes_by_id chain [] in
      let holds : All (ChainHolds agent_id s) chain =
        All-sort_by sealed_before (ChainHolds agent_id s) (filter (is_chained agent_id) s.blocks)
          (All-filter_imp (ChainHolds agent_id s) (is_chained agent_id) s.blocks a) in
      rw
        (
          filter-eq-nil (is_broken sha s) chain (
              All-imp (ChainHolds agent_id s) (λ c. is_broken sha s c ≡ false) (λ c x. x.0) chain
                holds),
          broken_links_of-none h chain (
              All-imp (ChainHolds agent_id s) (λ c. broken_link h c ≡ []) (λ c x. x.1) chain holds),
        )
        refl
