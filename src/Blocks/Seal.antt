-- ===== src/Blocks/Seal.antt =====
-- `verify` of src/mark/memory/block_chain.py against what was sealed.
use mark_sdk.Prelude.{
  ℕ, String, ◌≡◌, refl, ap, ap₂, ◌∙◌, true, false, none, some, [], ◌==◌, inl, inr, ◌↔◌, eq_refl,
  eq_sound, if◌then◌else◌, Bool-cases, Option-cases, find?-eq-true, find?-replace, Dict, dict_get,
  HasUniqueNames,
}
use mark_sdk.Types.Enums.{is_open}
use mark_sdk.Blocks.Hashing.{
  Sha256, block_content_hash, fragment_payload, node_payload, edge_payload,
}
use mark_sdk.Blocks.Store.{
  Block, Store, store_block, get_block, fragments_for_block, nodes_in_block, edges_in_block,
  latest_sealed_block,
}
use mark_sdk.Blocks.Chain.{
  ok, raise, key_error, value_error, member_hashes_of, sealed_copy, seal, judge, verify, verdict,
  BlockVerification,
}
use mark_sdk.Blocks.Verdict.{judge-valid, put_hashes-HasUniqueNames}

pub get_block-store_block :
    (b : Block) (s : Store) (j : String)
    → get_block (store_block b s) j ≡ (if b.id == j then some b else get_block s j)
unfolding get_block store_block
get_block-store_block b s j = find?-replace (λ x. x.id) j b s.blocks

pub get_block-id : (s : Store) (i : String) (b : Block) → get_block s i ≡ some b → b.id ≡ i
unfolding get_block
get_block-id s i b found = eq_sound b.id i (find?-eq-true (λ x. x.id == i) s.blocks b found)

module _ (sha : Sha256) where
  pub member_hashes_of-store_block :
      (b : Block) (s : Store) (j : String)
      → member_hashes_of sha (store_block b s) j ≡ member_hashes_of sha s j
  unfolding member_hashes_of store_block fragments_for_block nodes_in_block edges_in_block
  member_hashes_of-store_block b s j = refl

  pub member_hashes_of-HasUniqueNames :
      (s : Store) (i : String) → HasUniqueNames (member_hashes_of sha s i)
  unfolding member_hashes_of
  member_hashes_of-HasUniqueNames s i =
      put_hashes-HasUniqueNames (λ e. e.id) (λ e. sha.canonical_hash (edge_payload e))
        (edges_in_block s i) _
        (put_hashes-HasUniqueNames (λ n. n.id) (λ n. sha.canonical_hash (node_payload n))
          (nodes_in_block s i) _
          (put_hashes-HasUniqueNames (λ f. f.id) (λ f. sha.canonical_hash (fragment_payload f))
            (fragments_for_block s i) [] tt))

  module _ (agent_id i : String) (now : ℕ) (s : Store) where
    -- The block that `seal` writes for the one that it finds.
    unfoldable pub sealed_for : Block → Block
    sealed_for old =
        sealed_copy sha old (member_hashes_of sha s i) (latest_sealed_block s agent_id i) now

    pub seal-missing : get_block s i ≡ none → seal sha agent_id i now s ≡ raise key_error
    unfolding seal
    seal-missing n = rw (n, seal)

    pub seal-not_open :
        (old : Block)
        → get_block s i ≡ some old
        → is_open old.status ≡ false
        → seal sha agent_id i now s ≡ raise value_error
    unfolding seal
    seal-not_open old found n = rw (found, n, seal)

    pub seal-ok :
        (old : Block)
        → get_block s i ≡ some old
        → is_open old.status ≡ true
        → seal sha agent_id i now s ≡ ok (sealed_for old, store_block (sealed_for old) s)
    unfolding seal sealed_for
    seal-ok old found o = rw (found, o, seal)

    -- What `seal` returns, from the block that it finds.
    pub seal-cases :
        {b : Block} {s' : Store}
        → seal sha agent_id i now s ≡ ok (b, s')
        → (old : Block) × ((get_block s i ≡ some old)
            × ((is_open old.status ≡ true) × ((b ≡ sealed_for old) × (s' ≡ store_block b s))))
    seal-cases h = elim (Option-cases (get_block s i)) [
      | inl n ↦ absurd (cc (seal-missing n))
      | inr (old, found) ↦ elim (Bool-cases (is_open old.status)) [
        | inl o ↦ let e = seal-ok old found o in (old, (found, (o, (cc, cc))))
        | inr n ↦ absurd (cc (seal-not_open old found n))
      ]
    ]

  verify-of_found :
      (i : String) (s : Store) (b : Block) (h : String)
      → get_block s i ≡ some b
      → b.content_hash ≡ some h
      → verify sha i s ≡ ok (judge sha i h b.member_hashes (member_hashes_of sha s i))
  unfolding verify verdict
  verify-of_found i s b h found e = rw (found, e, verify)

  -- Two stores with the same block and the same member hashes.
  pub verify-of_same :
      (i : String) (s t : Store)
      → get_block s i ≡ get_block t i
      → member_hashes_of sha s i ≡ member_hashes_of sha t i
      → verify sha i s ≡ verify sha i t
  unfolding verify
  verify-of_same i s t b m = ap₂ (verdict sha i) m b

  -- The hashes of a block sealed in `s`, read from any store.
  module _ (agent_id i : String) (now : ℕ) (s : Store) {b : Block} {s' : Store}
      (sealing : seal sha agent_id i now s ≡ ok (b, s')) where
    -- In every store that holds the sealed block, `verify` is valid exactly when the members have
    -- the hashes that they had at the time of the seal.
    pub verify-of_seal :
        (t : Store)
        → get_block t i ≡ some b
        → (v : BlockVerification) × ((verify sha i t ≡ ok v)
            × (v.valid ≡ true ↔ (
                (j : String)
                → dict_get j (member_hashes_of sha t i) ≡ dict_get j (member_hashes_of sha s i))))
    unfolding sealed_for sealed_copy
    verify-of_seal t found =
        let (old, (_, (_, (copy, _)))) = seal-cases agent_id i now s sealing in
        let hashes : Dict String = member_hashes_of sha s i in
        let verdict : BlockVerification =
          judge sha i (block_content_hash sha hashes) hashes (member_hashes_of sha t i) in
        let judged =
          judge-valid sha i (block_content_hash sha hashes) hashes (member_hashes_of sha t i)
            (member_hashes_of-HasUniqueNames s i) (member_hashes_of-HasUniqueNames t i) in
        (
          verdict,
          (
            verify-of_found i t b (block_content_hash sha hashes) found
                  (ap (λ x. x.content_hash) copy)
                ∙ ap
                    (λ x. ok (
                      judge sha i (block_content_hash sha hashes) x.member_hashes
                        (member_hashes_of sha t i)))
                    copy,
            (
              λ valid. (judged.0 valid).0,
              λ same. judged.1 (same, eq_refl (block_content_hash sha hashes)),
            ),
          ),
        )
