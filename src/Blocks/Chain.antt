-- ===== src/Blocks/Chain.antt =====
-- `BlockChain` (src/mark/memory/block_chain.py): sealing, verification and quarantine.
use mark_sdk.Prelude.{
  ℕ, String, Bool, true, false, Option, none, some, List, [], ◌∷◌, ◌++◌, not, ◌&&◌, ◌==◌, is_none,
  if◌then◌else◌, filter, map, length, Dict, dict_get, dict_put, sort_by, text_le,
}
use mark_sdk.Types.Enums.{BlockStatus, opened, sealed, is_open}
use mark_sdk.Blocks.Hashing.{
  Sha256, fragment_payload, node_payload, edge_payload, block_content_hash,
}
use mark_sdk.Blocks.Store.{
  Block, Store, store_block, get_block, fragments_for_block, nodes_in_block, edges_in_block,
  latest_sealed_block, sealed_chain,
}

pub data Error : Type 0 where
  key_error value_error : Error

pub data Result {ℓ} (A : Type ℓ) : Type ℓ where
  ok : A → Result A
  raise : Error → Result A

pub data Reason : Type 0 where
  valid_seal never_sealed seal_record_tampered : Reason
  members_changed : (corrupted missing added : ℕ) → Reason

pub record BlockVerification : Type 0 where
  pub valid : Bool
  pub block_id : String
  pub corrupted_member_ids : List String
  pub missing_member_ids : List String
  pub added_member_ids : List String
  pub reason : Reason

pub data LinkReason : Type 0 where
  previous_gone hash_mismatch : LinkReason

pub record ChainVerification : Type 0 where
  pub valid : Bool
  pub checked : ℕ
  pub broken_block_ids : List String
  pub broken_links : List (String × LinkReason)

-- One of the three loops of `_member_hashes`.
unfoldable pub put_hashes {ℓ} :
    {A : Type ℓ} (id_of hash_of : A → String) → List A → Dict String → Dict String
put_hashes id_of hash_of [] d = d
put_hashes id_of hash_of (x ∷ xs) d = put_hashes id_of hash_of xs (dict_put (id_of x) (hash_of x) d)

unfoldable pub is_empty {ℓ} : {A : Type ℓ} → List A → Bool
is_empty [] = true
is_empty (x ∷ xs) = false

unfoldable pub names : Dict String → List String
names d = sort_by text_le (map (λ e. e.0) d)

unfoldable pub is_corrupted : Dict String → String × String → Bool
is_corrupted current (i, h) = elim (dict_get i current) [ none ↦ false | some g ↦ not (g == h) ]

-- The keys of the first dict that the second lacks.
unfoldable pub missing_from : Dict String → Dict String → List String
missing_from d e = names (filter (λ x. is_none (dict_get x.0 e)) d)

unfoldable pub corrupted_in : Dict String → Dict String → List String
corrupted_in current d = names (filter (is_corrupted current) d)

module _ (sha : Sha256) where
  unfoldable pub member_hashes_of : Store → String → Dict String
  member_hashes_of s block_id =
      put_hashes (λ e. e.id) (λ e. sha.canonical_hash (edge_payload e)) (edges_in_block s block_id)
        (put_hashes (λ n. n.id) (λ n. sha.canonical_hash (node_payload n))
          (nodes_in_block s block_id)
          (put_hashes (λ f. f.id) (λ f. sha.canonical_hash (fragment_payload f))
            (fragments_for_block s block_id) []))

  unfoldable pub sealed_copy : Block → Dict String → Option Block → ℕ → Block
  sealed_copy b hashes prev now = record b {
    status = sealed;
    content_hash = some (block_content_hash sha hashes);
    prev_block_id = elim prev [ none ↦ none | some p ↦ some p.id ];
    prev_block_hash = elim prev [ none ↦ none | some p ↦ p.content_hash ];
    sealed_at = some now;
    member_hashes = hashes;
  }

  unfoldable pub seal : String → String → ℕ → Store → Result (Block × Store)
  seal agent_id block_id now s = elim (get_block s block_id) [
    | none ↦ raise key_error
    | some b ↦
        if is_open b.status
        then (let copy : Block =
              sealed_copy b (member_hashes_of s block_id) (latest_sealed_block s agent_id block_id)
                now in
            ok (copy, store_block copy s))
        else raise value_error
  ]

  -- The verdict of `verify` from the two dicts.
  unfoldable pub judge : String → String → Dict String → Dict String → BlockVerification
  judge block_id recorded_hash sealed_hashes current =
      let corrupted : List String = corrupted_in current sealed_hashes in
      let missing : List String = missing_from sealed_hashes current in
      let added : List String = missing_from current sealed_hashes in
      let unchanged : Bool = is_empty corrupted && (is_empty missing && is_empty added) in
      let content_ok : Bool = block_content_hash sha sealed_hashes == recorded_hash in
      record {
        valid = unchanged && content_ok;
        block_id = block_id;
        corrupted_member_ids = corrupted;
        missing_member_ids = missing;
        added_member_ids = added;
        reason =
            if unchanged && content_ok
            then valid_seal
            else if not content_ok && unchanged
            then seal_record_tampered
            else members_changed (length corrupted) (length missing) (length added);
      }

  unfoldable pub verdict : String → Dict String → Option Block → Result BlockVerification
  verdict block_id current none = raise key_error
  verdict block_id current (some b) = elim b.content_hash [
    | none ↦ ok (record {
      valid = false;
      block_id = block_id;
      corrupted_member_ids = [];
      missing_member_ids = [];
      added_member_ids = [];
      reason = never_sealed;
    })
    | some h ↦ ok (judge block_id h b.member_hashes current)
  ]

  unfoldable pub verify : String → Store → Result BlockVerification
  verify block_id s = verdict block_id (member_hashes_of s block_id) (get_block s block_id)

-- A link breaks when the predecessor is gone or its hash is not the one recorded.
unfoldable pub broken_link : Dict (Option String) → Block → List (String × LinkReason)
broken_link prev_hash_by_id b = elim b.prev_block_id [
  | none ↦ []
  | some p ↦ elim (dict_get p prev_hash_by_id) [
    | none ↦ (b.id, previous_gone) ∷ []
    | some none ↦ (b.id, previous_gone) ∷ []
    | some (some expected) ↦ elim b.prev_block_hash [
      | none ↦ (b.id, hash_mismatch) ∷ []
      | some h ↦ if expected == h then [] else (b.id, hash_mismatch) ∷ []
    ]
  ]
]

unfoldable pub broken_links_of : Dict (Option String) → List Block → List (String × LinkReason)
broken_links_of prev_hash_by_id [] = []
broken_links_of prev_hash_by_id (b ∷ bs) =
    broken_link prev_hash_by_id b ++ broken_links_of prev_hash_by_id bs

unfoldable pub hashes_by_id : List Block → Dict (Option String) → Dict (Option String)
hashes_by_id [] d = d
hashes_by_id (b ∷ bs) d = hashes_by_id bs (dict_put b.id b.content_hash d)

-- A block of the chain is in the store, so that `verify` does not raise for it.
unfoldable pub is_invalid : Result BlockVerification → Bool
is_invalid (raise e) = true
is_invalid (ok v) = not v.valid

module _ (sha : Sha256) where
  unfoldable pub is_broken : Store → Block → Bool
  is_broken s b = is_invalid (verify sha b.id s)

  unfoldable pub verify_chain : String → Store → ChainVerification
  verify_chain agent_id s =
      let chain : List Block = sealed_chain s agent_id in
      let broken : List String = map (λ b. b.id) (filter (is_broken s) chain) in
      let links : List (String × LinkReason) = broken_links_of (hashes_by_id chain []) chain in
      record {
        valid = is_empty broken && is_empty links;
        checked = length chain;
        broken_block_ids = broken;
        broken_links = links;
      }

unfoldable pub quarantine : String → Store → Result (Block × Store)
quarantine block_id s = elim (get_block s block_id) [
  | none ↦ raise key_error
  | some b ↦
      let updated : Block = record b { status = BlockStatus.quarantined } in
      ok (updated, store_block updated s)
]

unfoldable pub release : String → Store → Result (Block × Store)
release block_id s = elim (get_block s block_id) [
  | none ↦ raise key_error
  | some b ↦
      let restored : BlockStatus = elim b.content_hash [ none ↦ opened | some h ↦ sealed ] in
      let updated : Block = record b { status = restored } in ok (updated, store_block updated s)
]
