-- ===== src/Blocks/Quarantine.antt =====
-- Quarantine and release of a sealed block (src/mark/memory/block_chain.py).
use mark_sdk.Prelude.{
  String, ◌≡◌, refl, ap, ap₂, sym, ◌∙◌, some, ◌==◌, eq_refl, eq_sound, inl, inr, Bool-cases,
}
use mark_sdk.Types.Enums.{BlockStatus, sealed}
use mark_sdk.Blocks.Hashing.{Sha256}
use mark_sdk.Blocks.Store.{Block, Store, store_block, get_block}
use mark_sdk.Blocks.Chain.{ok, quarantine, release, verify, verdict, member_hashes_of}
use mark_sdk.Blocks.Seal.{get_block-store_block, get_block-id, member_hashes_of-store_block}

unfoldable pub in_quarantine : Block → Block
in_quarantine b = record b { status = BlockStatus.quarantined }

quarantine-ok :
    (i : String) (s : Store) (b : Block)
    → get_block s i ≡ some b
    → quarantine i s ≡ ok (in_quarantine b, store_block (in_quarantine b) s)
unfolding quarantine in_quarantine
quarantine-ok i s b found = rw (found, quarantine)

release-of_sealed :
    (i : String) (s : Store) (c : Block) (h : String)
    → get_block s i ≡ some c
    → c.content_hash ≡ some h
    → release i s ≡ ok (record c { status = sealed }, store_block (record c { status = sealed }) s)
unfolding release
release-of_sealed i s c h found hashed = rw (found, hashed, release)

in_quarantine-undone :
    (b : Block) → b.status ≡ sealed → record (in_quarantine b) { status = sealed } ≡ b
unfolding in_quarantine
in_quarantine-undone b status = ap (λ x. record b { status = x }) (sym status)

-- The status is no part of the verdict.
verdict-in_quarantine :
    (sha : Sha256) (i : String) (s : Store) (b : Block)
    → verdict sha i (member_hashes_of sha s i) (some (in_quarantine b))
      ≡ verdict sha i (member_hashes_of sha s i) (some b)
unfolding verdict in_quarantine
verdict-in_quarantine sha i s b = refl

module _ (sha : Sha256) (i : String) (s : Store) (b : Block) (found : get_block s i ≡ some b) where
  verify-in_quarantine :
      (j : String) → verify sha j (store_block (in_quarantine b) s) ≡ verify sha j s
  unfolding verify in_quarantine
  verify-in_quarantine j = elim (Bool-cases (b.id == j)) [
    | inl y ↦
        let same : j ≡ i = sym (eq_sound b.id j y) ∙ get_block-id s i b found in
        ap₂ (verdict sha j) (member_hashes_of-store_block sha (in_quarantine b) s j)
          (get_block-store_block (in_quarantine b) s j ∙ rw y refl)
        ∙ verdict-in_quarantine sha j s b
        ∙ ap (verdict sha j (member_hashes_of sha s j)) (sym (ap (get_block s) same ∙ found))
    | inr n ↦
        ap₂ (verdict sha j) (member_hashes_of-store_block sha (in_quarantine b) s j)
          (get_block-store_block (in_quarantine b) s j ∙ rw n refl)
  ]

  there : get_block (store_block (in_quarantine b) s) i ≡ some (in_quarantine b)
  unfolding in_quarantine
  there =
      get_block-store_block (in_quarantine b) s i
      ∙ rw (ap (λ k. k == i) (get_block-id s i b found) ∙ eq_refl i) refl

  get_block_restored :
      (j : String) → get_block (store_block b (store_block (in_quarantine b) s)) j ≡ get_block s j
  unfolding in_quarantine
  get_block_restored j = elim (Bool-cases (b.id == j)) [
    | inl y ↦
        get_block-store_block b (store_block (in_quarantine b) s) j
        ∙ rw y (sym (ap (get_block s) (sym (eq_sound b.id j y) ∙ get_block-id s i b found) ∙ found))
    | inr n ↦
        get_block-store_block b (store_block (in_quarantine b) s) j
        ∙ rw n (get_block-store_block (in_quarantine b) s j ∙ rw n refl)
  ]

  -- For a block that is sealed and has a content hash, quarantine and then release succeed and
  -- give back the block; quarantine changes the verdict of verify for no block, and after the
  -- release every id gives the block it gave before.
  pub release-quarantine :
      (h : String)
      → b.status ≡ sealed
      → b.content_hash ≡ some h
      → (q : Store) × ((r : Store) × ((quarantine i s ≡ ok (in_quarantine b, q))
            × ((release i q ≡ ok (b, r))
                × (((j : String) → verify sha j q ≡ verify sha j s)
                    × ((j : String) → get_block r j ≡ get_block s j)))))
  release-quarantine h status hashed =
      let q : Store = store_block (in_quarantine b) s in
      let r : Store = store_block b q in
      (
        q,
        (
          r,
          (
            quarantine-ok i s b found,
            (
              release-of_sealed i q (in_quarantine b) h there (unfold in_quarantine in hashed)
                  ∙ ap (λ x. ok (x, store_block x q)) (in_quarantine-undone b status),
              (verify-in_quarantine, get_block_restored),
            ),
          ),
        ),
      )
