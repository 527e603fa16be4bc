-- ===== src/Facts/Ops.antt =====
-- The methods of `FactMixin` and `FactMultiMixin` (src/mark/store/_sqlite/facts.py, facts_multi.py),
-- each one transaction: the table after it beside its result, or the error that rolls it back.
use mark_sdk.Prelude.{
  ℕ, String, Bool, true, false, Option, none, some, List, [], ◌∷◌, ◌++◌, reverse, map, ◌&&◌, ◌||◌,
  ◌==◌, ltb, leb, is_none, if◌then◌else◌, filter, find?, get_last?, sort_by, length,
}
use mark_sdk.Facts.Select.{
  rechain_facts, same_time_rows, ended_by_set, retract_same_time, is_blank_key, open_rows,
  rechain_each, distinct_keys, by_keys, wanted, collapse,
}
use mark_sdk.Facts.Table.{
  Row, Table, Timeline, on_timeline, before, covers, set_valid_to, set_retracted, update_each,
  ids_of,
}

pub data Error : Type 0 where
  value_error : Error
  type_error : Error

pub data Result {ℓ} (A : Type ℓ) : Type ℓ where
  ok : A → Result A
  raise : Error → Result A

infixl 5 ◌>>=◌
abbrev pub ◌>>=◌ {ℓ κ} : {A : Type ℓ} {B : Type κ} → Result A → (A → Result B) → Result B
ok a >>= f = f a
raise e >>= f = raise e

-- The store's encryption of a value's text, and the JSON renderings of fact_codec.py by which
-- `_same_value` compares: `reencode` is `encode_value` after `decode_value`, `text_of` is
-- `value_text` after `decode_value`. Stored texts are taken to decrypt and to decode, as those that
-- this store wrote under its key do: on any other, `decrypt_str` and `decode_value` raise where a
-- method of the store reads the value, and nothing is stated of such a table.
pub record Codec : Type 0 where
  pub encrypt_str : String → String
  pub decrypt_str : String → String
  pub reencode : String → String
  pub text_of : String → String

module _ (c : Codec) where
  unfoldable pub row_to_fact : Row → Row
  row_to_fact r = record r { value = c.decrypt_str r.value }

  unfoldable pub fact_by_id : Table → String → Result Row
  fact_by_id t id = elim (find? (λ r. r.id == id) t) [
    | none ↦ raise type_error
    | some r ↦ ok (row_to_fact r)
  ]

  unfoldable pub new_row : Timeline → String → ℕ → Option String → ℕ → Bool → String → Row
  new_row k encoded valid_from source now multi fact_id = record {
    id = fact_id;
    agent_id = k.agent_id;
    subject_key = k.subject_key;
    attribute_key = k.attribute_key;
    value = c.encrypt_str encoded;
    valid_from = valid_from;
    valid_to = none;
    recorded_at = now;
    retracted_at = none;
    source_fragment_id = source;
    multi_valued = multi;
  }

  -- INSERT, end the added values, re-chain: the part of `fact_set` after its early return.
  unfoldable pub insert_value : Timeline → String → ℕ → Option String → ℕ → String → Table → Table
  insert_value k encoded valid_from source now fact_id t =
      let inserted : Table = t ++ new_row k encoded valid_from source now false fact_id ∷ [] in
      let ended : Table =
        update_each (ids_of (ended_by_set k valid_from inserted)) (set_valid_to (some valid_from))
          inserted in
      rechain_facts k ended

  unfoldable pub write_value :
      Timeline → String → ℕ → Option String → ℕ → String → Table → Result (Row × Table)
  write_value k encoded valid_from source now fact_id t =
      let t' : Table = insert_value k encoded valid_from source now fact_id t in
      fact_by_id t' fact_id >>= λ fact. ok (fact, t')

  -- Re-asserting the latest value for this time returns it and writes nothing.
  unfoldable pub write_unless_latest :
      Timeline → String → ℕ → Option String → ℕ → String → Table → Option Row → Result (Row × Table)
  write_unless_latest k encoded valid_from source now fact_id t none =
      write_value k encoded valid_from source now fact_id t
  write_unless_latest k encoded valid_from source now fact_id t (some row) =
      if c.decrypt_str row.value == encoded
      then (fact_by_id t row.id >>= λ fact. ok (fact, t))
      else write_value k encoded valid_from source now fact_id t

  unfoldable pub fact_set :
      Timeline → String → ℕ → Option String → Bool → ℕ → String → Table → Result (Row × Table)
  fact_set k encoded valid_from source correction now fact_id t =
      if is_blank_key k
      then raise value_error
      else if correction
      then write_value k encoded valid_from source now fact_id
          (retract_same_time k valid_from now t)
      else write_unless_latest k encoded valid_from source now fact_id t
          (get_last? (same_time_rows k valid_from t))

  unfoldable pub fact_add :
      Timeline → String → ℕ → Option String → ℕ → String → Table → Result (Row × Table)
  fact_add k encoded valid_from source now fact_id t =
      if is_blank_key k
      then raise value_error
      else elim (find? (λ r. c.decrypt_str r.value == encoded) (open_rows k valid_from t)) [
        | some r ↦ fact_by_id t r.id >>= λ fact. ok (fact, t)
        | none ↦
            let t' : Table = t ++ new_row k encoded valid_from source now true fact_id ∷ [] in
            fact_by_id t' fact_id >>= λ fact. ok (fact, t')
      ]

  unfoldable pub fact_remove : Timeline → String → ℕ → Table → ℕ × Table
  fact_remove k encoded stamp t =
      let ending : List Row =
        filter (λ r. r.multi_valued && (c.decrypt_str r.value == encoded)) (open_rows k stamp t) in
      (length ending, update_each (ids_of ending) (set_valid_to (some stamp)) t)

  -- `_same_value`, against the encoded form and the rendering of the wanted value
  unfoldable pub same_value : String × String → Row → Bool
  same_value (encoded, text) r =
      (c.reencode (c.decrypt_str r.value) == encoded) || (c.text_of (c.decrypt_str r.value) == text)

  unfoldable pub is_retracted_by :
      String → String → Option String → Option (String × String) → Row → Bool
  is_retracted_by agent_id subject_key attribute_key value r =
      ((r.agent_id == agent_id) && ((r.subject_key == subject_key) && is_none r.retracted_at))
      && (elim attribute_key [ none ↦ true | some a ↦ r.attribute_key == a ]
          && elim value [ none ↦ true | some v ↦ same_value v r ])

  unfoldable pub fact_retract :
      String → String → Option String → Option (String × String) → ℕ → Table → ℕ × Table
  fact_retract agent_id subject_key attribute_key value now t =
      let rows : List Row = filter (is_retracted_by agent_id subject_key attribute_key value) t in
      let timeline_of : String → Timeline =
        λ a. record { agent_id = agent_id; subject_key = subject_key; attribute_key = a } in
      (
        length rows,
        rechain_each (map timeline_of (distinct_keys rows))
            (update_each (ids_of rows) (set_retracted now) t),
      )

  -- ORDER BY subject_key, attribute_key, valid_from, recorded_at, rowid
  unfoldable pub fact_current : String → Option String → Option String → ℕ → Table → List Row
  fact_current agent_id subject_key attribute_key now t = map row_to_fact (
      sort_by by_keys (filter (λ r. wanted agent_id subject_key attribute_key r && covers now r) t))

  unfoldable pub fact_scheduled : String → Option String → Option String → ℕ → Table → List Row
  fact_scheduled agent_id subject_key attribute_key now t = map row_to_fact (
      sort_by before
        (filter (λ r. wanted agent_id subject_key attribute_key r && ltb now r.valid_from) t))

  -- ORDER BY valid_from DESC LIMIT 1
  unfoldable pub fact_as_of : Timeline → ℕ → Table → Option Row
  fact_as_of k stamp t =
      elim (sort_by (λ r s. leb s.valid_from r.valid_from)
        (filter (λ r. on_timeline k r && (is_none r.retracted_at && covers stamp r)) t)) [
          | [] ↦ none
          | r ∷ rs ↦ some (row_to_fact r)
        ]

  unfoldable pub fact_history : Timeline → Table → List Row
  fact_history k t = reverse (
      collapse [] (
        map row_to_fact
          (sort_by before (filter (λ r. on_timeline k r && is_none r.retracted_at) t))))
