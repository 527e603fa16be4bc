-- ===== src/Blocks/Tamper.antt =====
-- Tamper evidence of a seal (src/mark/memory/block_chain.py): `verify` against the members themselves,
-- where the members' hashes do not collide.
use mark_sdk.Prelude.{
  ℕ, String, ◌≡◌, refl, ap, sym, ◌∙◌, true, some, List, [], ◌∷◌, ◌↔◌, ◌==◌, eq_refl, inl, inr,
  Bool-cases, Option-cases, All, Dict, dict_get, dict_put, dict_get-dict_put, some_eq,
  All-dict_get_imp,
}
use mathlib.Core.Option
use mark_sdk.Blocks.Hashing.{Sha256, Payload, fragment_payload, node_payload, edge_payload}
use mark_sdk.Blocks.Store.{
  Block, Store, get_block, fragments_for_block, nodes_in_block, edges_in_block,
}
use mark_sdk.Blocks.Chain.{
  sealed_copy, ok, put_hashes, member_hashes_of, seal, verify, BlockVerification,
}
use mark_sdk.Blocks.Seal.{
  seal-cases, verify-of_seal, get_block-store_block, get_block-id, sealed_for,
  member_hashes_of-store_block,
}

unfoldable pub put_payloads {ℓ} :
    {A : Type ℓ} (id_of : A → String) (payload_of : A → Payload)
    → List A
    → Dict Payload
    → Dict Payload
put_payloads id_of payload_of [] d = d
put_payloads id_of payload_of (x ∷ xs) d =
    put_payloads id_of payload_of xs (dict_put (id_of x) (payload_of x) d)

-- The immutable content of a block's members, by their ids.
unfoldable pub member_payloads : Store → String → Dict Payload
member_payloads s i =
    put_payloads (λ e. e.id) edge_payload (edges_in_block s i)
      (put_payloads (λ n. n.id) node_payload (nodes_in_block s i)
        (put_payloads (λ f. f.id) fragment_payload (fragments_for_block s i) []))

module _ (hash : Payload → String) where
  IsHashed : Dict String → Dict Payload → Type 0
  IsHashed d e = (j : String) → dict_get j d ≡ Option.map hash (dict_get j e)

  IsHashed-dict_put :
      (k : String) (p : Payload) (d : Dict String) (e : Dict Payload)
      → IsHashed d e
      → IsHashed (dict_put k (hash p) d) (dict_put k p e)
  unfolding IsHashed
  IsHashed-dict_put k p d e h j = elim (Bool-cases (k == j)) [
    | inl y ↦ rw (dict_get-dict_put k j (hash p) d, dict_get-dict_put k j p e, y)
    | inr n ↦ rw (dict_get-dict_put k j (hash p) d, dict_get-dict_put k j p e, n) (h j)
  ]

  IsHashed-put_hashes {ℓ} :
      {A : Type ℓ} (id_of : A → String) (payload_of : A → Payload) (xs : List A) (d : Dict String)
      (e : Dict Payload)
      → IsHashed d e
      → IsHashed
          (put_hashes id_of (λ x. hash (payload_of x)) xs d)
          (put_payloads id_of payload_of xs e)
  unfolding put_hashes put_payloads
  IsHashed-put_hashes id_of payload_of [] d e h = h
  IsHashed-put_hashes id_of payload_of (x ∷ xs) d e h =
      IsHashed-put_hashes id_of payload_of xs _ _ (IsHashed-dict_put (id_of x) (payload_of x) d e h)

-- No two of the members have the same hash unless their contents are the same.
abbrev pub IsCollisionFree : (Payload → String) → Dict Payload → Dict Payload → Type 0
IsCollisionFree hash d e = All (λ x. All (λ y. hash x.1 ≡ hash y.1 → x.1 ≡ y.1) e) d

module _ (sha : Sha256) where
  member_hashes_of-member_payloads :
      (s : Store) (i j : String)
      → dict_get j (member_hashes_of sha s i)
        ≡ Option.map sha.canonical_hash (dict_get j (member_payloads s i))
  unfolding member_hashes_of member_payloads IsHashed
  member_hashes_of-member_payloads s i =
      let hash : Payload → String = sha.canonical_hash in
      IsHashed-put_hashes hash (λ e. e.id) edge_payload (edges_in_block s i) _ _
        (IsHashed-put_hashes hash (λ n. n.id) node_payload (nodes_in_block s i) _ _
          (IsHashed-put_hashes hash (λ f. f.id) fragment_payload (fragments_for_block s i) [] []
            (λ j. refl)))

  equal_contents :
      (d e : Dict Payload) (j : String)
      → IsCollisionFree sha.canonical_hash d e
      → Option.map sha.canonical_hash (dict_get j d) ≡ Option.map sha.canonical_hash (dict_get j e)
      → dict_get j d ≡ dict_get j e
  equal_contents d e j free same = elim (Option-cases (dict_get j d)) [
    | inl n ↦ elim (Option-cases (dict_get j e)) [
      | inl m ↦ n ∙ sym m
      | inr (q, found) ↦ absurd (cc (rw (n, found) at same))
    ]
    | inr (p, got) ↦ elim (Option-cases (dict_get j e)) [
      | inl m ↦ absurd (cc (rw (got, m) at same))
      | inr (q, found) ↦
          got
          ∙ ap some (
              All-dict_get_imp (λ _ y. sha.canonical_hash p ≡ sha.canonical_hash y → p ≡ y) j q e
                (All-dict_get_imp
                  (λ _ x. All (λ y. sha.canonical_hash x ≡ sha.canonical_hash y.1 → x ≡ y.1) e) j p
                  d free got)
                found (some_eq _ _ (rw (got, found) at same)))
          ∙ sym found
    ]
  ]

  module _ (agent_id i : String) (now : ℕ) (s : Store) {b : Block} {s' : Store}
      (sealing : seal sha agent_id i now s ≡ ok (b, s')) where
    -- After a block is sealed, in any store that still holds the sealed block and where the hashes
    -- of the current members do not collide with those of the sealed ones, verify answers, and its
    -- verdict is valid exactly when every id has the immutable content it had at the seal: an
    -- edited, removed or added member is always found, and importance, state and weights never
    -- break the seal.
    pub verify-untampered :
        (t : Store)
        → get_block t i ≡ some b
        → IsCollisionFree sha.canonical_hash (member_payloads t i) (member_payloads s i)
        → (v : BlockVerification) × ((verify sha i t ≡ ok v)
            × (v.valid ≡ true ↔ (
                (j : String)
                → dict_get j (member_payloads t i) ≡ dict_get j (member_payloads s i))))
    verify-untampered t found free =
        let (v, (verified, judged)) = verify-of_seal sha agent_id i now s sealing t found in
        let before = member_hashes_of-member_payloads s i in
        let after = member_hashes_of-member_payloads t i in
        (
          v,
          (
            verified,
            (
              (λ valid j.
                  equal_contents (member_payloads t i) (member_payloads s i) j free
                    (sym (after j) ∙ judged.0 valid j ∙ before j)),
              λ same.
                  judged.1
                    (λ j. after j ∙ ap (Option.map sha.canonical_hash) (same j) ∙ sym (before j)),
            ),
          ),
        )

    -- A seal that returns leaves a store in which verify finds the block valid.
    pub verify-seal : (v : BlockVerification) × ((verify sha i s' ≡ ok v) × v.valid ≡ true)
    unfolding sealed_for sealed_copy
    verify-seal =
        let (old, (found, (_, (copy, stored)))) = seal-cases sha agent_id i now s sealing in
        let same_id : b.id ≡ i = ap (λ x. x.id) copy ∙ get_block-id s i old found in
        let there : get_block s' i ≡ some b =
          rw stored (get_block-store_block b s i ∙ rw (same_id, eq_refl)) in
        let (v, (verified, judged)) = verify-of_seal sha agent_id i now s sealing s' there in
        (
          v,
          (
            verified,
            judged.1 (λ j. rw stored (ap (dict_get j) (member_hashes_of-store_block sha b s i))),
          ),
        )
