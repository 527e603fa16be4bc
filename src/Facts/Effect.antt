-- ===== src/Facts/Effect.antt =====
-- When the value that `fact_set` (src/mark/store/_sqlite/facts.py) asserts is what `fact_as_of`
-- answers, and that it answers as before at every other time.
use mathlib.Core.Option
use mark_sdk.Prelude.{
  ℕ, String, ◌≡◌, refl, sym, ap, ◌∙◌, Bool, true, false, Option, none, some, List, [], ◌∷◌, ◌++◌,
  map, arith, not, ◌&&◌, ltb, leb, inl, inr, if◌then◌else◌, Bool-cases, eq_refl, filter, All,
  All-imp₂, any, any-filter_self, sort_by, get_last?,
}
use mark_sdk.Facts.Table.{
  Row, Table, Timeline, on_timeline, single, before, chain_rows, set_valid_to, update_each, ids_of,
}
use mark_sdk.Facts.Select.{chain_updates, rechain_facts, ended_by_set}
use mark_sdk.Facts.Ops.{Codec, row_to_fact, new_row, insert_value, fact_as_of}
use mark_sdk.Facts.Update.{map-update_each}
use mark_sdk.Facts.Invariant.{IsValid}
use mark_sdk.Facts.AsOf.{HasNoAdded, fact_as_of-latest}
use mark_sdk.Facts.Writes.{map-apply_updates}
use mark_sdk.Facts.InForce.{
  last_row, has_started, latest_started-last_row, last_row-later, last_row-append,
  filter-append_off, last_value_of, last_value_of-map,
}

-- A row that starts after the asserted time and has started by the asked one.
abbrev pub is_later : Timeline → ℕ → ℕ → Row → Bool
is_later k valid_from stamp r = has_started k stamp r && ltb valid_from r.valid_from

-- The asserted value has started by the asked time, and no later one has.
unfoldable pub takes_effect : Timeline → ℕ → ℕ → Table → Bool
takes_effect k valid_from stamp t =
    leb valid_from stamp && not (any (is_later k valid_from stamp) t)

-- The value that fact_as_of answers.
abbrev pub value_as_of : Codec → Timeline → ℕ → Table → Option String
value_as_of c k stamp t = Option.map (λ r. r.value) (fact_as_of c k stamp t)

value_of-row_to_fact :
    (c : Codec) (o : Option Row)
    → Option.map (λ r. r.value) (Option.map (row_to_fact c) o)
      ≡ Option.map c.decrypt_str (Option.map (λ r. r.value) o)
unfolding row_to_fact
value_of-row_to_fact c none = refl
value_of-row_to_fact c (some r) = refl

pub value_as_of-last_value_of :
    (c : Codec) (k : Timeline) (stamp : ℕ) (t : Table)
    → IsValid t
    → HasNoAdded k t
    → value_as_of c k stamp t ≡ Option.map c.decrypt_str (last_value_of (has_started k stamp) t)
value_as_of-last_value_of c k stamp t v plain =
    ap (Option.map (λ r. r.value)) (
      fact_as_of-latest c k stamp t v plain
      ∙ ap (Option.map (row_to_fact c)) (latest_started-last_row k stamp t))
    ∙ value_of-row_to_fact c (last_row (has_started k stamp) t)

last_value_of-later :
    (k : Timeline) (valid_from stamp : ℕ) (t : Table)
    → any (is_later k valid_from stamp) t ≡ true
    → last_value_of (has_started k stamp) t ≡ last_value_of (is_later k valid_from stamp) t
last_value_of-later k valid_from stamp t h = ap (Option.map (λ r. r.value)) (
    last_row-later (has_started k stamp) (λ r. ltb valid_from r.valid_from) t
      (unfold before in λ r s e d. ground arith) h)

pub any_none :
    {A : Type 0} (p : A → Bool) (xs : List A) → any p xs ≡ false → All (λ x. p x ≡ false) xs
any_none p [] h = tt
any_none p (x ∷ xs) h = (ground arith, any_none p xs (ground arith))

-- Inserting into a table `t₂` that differs from `t` only in rows that start at the same time.
module _ (c : Codec) (k : Timeline) (encoded : String) (valid_from : ℕ) (source : Option String)
    (now : ℕ) (fact_id : String) (stamp : ℕ) where
  abbrev unended : Row → Row
  unended r = record r { valid_to = none }

  abbrev written : Row
  written = new_row c k encoded valid_from source now false fact_id

  map-unended-insert_value :
      (t : Table)
      → map unended (insert_value c k encoded valid_from source now fact_id t)
        ≡ map unended (t ++ written ∷ [])
  unfolding insert_value rechain_facts set_valid_to
  map-unended-insert_value t =
      let inserted : Table = t ++ written ∷ [] in
      let ids : List String = ids_of (ended_by_set k valid_from inserted) in
      let ended : Table = update_each ids (set_valid_to (some valid_from)) inserted in
      map-apply_updates unended (λ end r. refl) (chain_updates (chain_rows k ended)) ended
      ∙ map-update_each unended (set_valid_to (some valid_from)) (λ r. refl) ids inserted

  last_value_of-unended :
      (t : Table)
      → last_value_of (has_started k stamp) (map unended t) ≡ last_value_of (has_started k stamp) t
  unfolding single on_timeline before
  last_value_of-unended t =
      last_value_of-map (has_started k stamp) unended (λ r. refl) (λ r s. refl) (λ r. refl) t

  -- The ends that the insertion writes do not matter to which value is the last that has started.
  last_value_of-insert_value :
      (t : Table)
      → last_value_of
          (has_started k stamp)
          (insert_value c k encoded valid_from source now fact_id t)
        ≡ last_value_of (has_started k stamp) (t ++ written ∷ [])
  last_value_of-insert_value t =
      sym (last_value_of-unended (insert_value c k encoded valid_from source now fact_id t))
      ∙ ap (last_value_of (has_started k stamp)) (map-unended-insert_value t)
      ∙ last_value_of-unended (t ++ written ∷ [])

  written-has_started : leb valid_from stamp ≡ true → has_started k stamp written ≡ true
  unfolding single on_timeline new_row
  written-has_started h = rw (eq_refl k.agent_id, eq_refl k.subject_key, eq_refl k.attribute_key, h)

  written-not_started : leb valid_from stamp ≡ false → has_started k stamp written ≡ false
  unfolding new_row
  written-not_started h = ground arith

  written-not_later : is_later k valid_from stamp written ≡ false
  unfolding new_row
  written-not_later = ground arith

  before-written :
      (r : Row)
      → leb r.recorded_at now ≡ true
      → is_later k valid_from stamp r ≡ false
      → has_started k stamp r ≡ true
      → before r written ≡ true
  unfolding before new_row
  before-written r h g e = ground arith

  any-later_append :
      (t : Table)
      → any (is_later k valid_from stamp) (t ++ written ∷ []) ≡ any (is_later k valid_from stamp) t
  any-later_append t =
      any-filter_self (is_later k valid_from stamp) (t ++ written ∷ [])
      ∙ ap (any (λ _. true))
          (filter-append_off (is_later k valid_from stamp) written t written-not_later)
      ∙ sym (any-filter_self (is_later k valid_from stamp) t)

  -- `t₂` is the table or what a correction leaves of it.
  module _ (t t₂ : Table)
      (agree : leb valid_from stamp ≡ false
        → filter (has_started k stamp) t₂ ≡ filter (has_started k stamp) t)
      (agree_later : filter (is_later k valid_from stamp) t₂
        ≡ filter (is_later k valid_from stamp) t) where
    any-later_agree : any (is_later k valid_from stamp) t₂ ≡ any (is_later k valid_from stamp) t
    any-later_agree =
        any-filter_self (is_later k valid_from stamp) t₂
        ∙ ap (any (λ _. true)) agree_later
        ∙ sym (any-filter_self (is_later k valid_from stamp) t)

    append-early :
        leb valid_from stamp ≡ false
        → last_value_of (has_started k stamp) (t₂ ++ written ∷ [])
          ≡ last_value_of (has_started k stamp) t
    append-early h =
        ap (λ rows. Option.map (λ r. r.value) (get_last? (sort_by before rows)))
          (filter-append_off (has_started k stamp) written t₂ (written-not_started h) ∙ agree h)

    append-overtaken :
        any (is_later k valid_from stamp) t ≡ true
        → last_value_of (has_started k stamp) (t₂ ++ written ∷ [])
          ≡ last_value_of (has_started k stamp) t
    append-overtaken h =
        last_value_of-later k valid_from stamp (t₂ ++ written ∷ [])
          (any-later_append t₂ ∙ any-later_agree ∙ h)
        ∙ ap (λ rows. Option.map (λ r. r.value) (get_last? (sort_by before rows)))
            (filter-append_off (is_later k valid_from stamp) written t₂ written-not_later
              ∙ agree_later)
        ∙ sym (last_value_of-later k valid_from stamp t h)

    append-in_force :
        All (λ r. leb r.recorded_at now ≡ true) t₂
        → leb valid_from stamp ≡ true
        → any (is_later k valid_from stamp) t ≡ false
        → last_value_of (has_started k stamp) (t₂ ++ written ∷ []) ≡ some written.value
    append-in_force recorded h g = ap (Option.map (λ r. r.value)) (
        last_row-append (has_started k stamp) written t₂ (written-has_started h) (
          All-imp₂ (λ r. leb r.recorded_at now ≡ true) (λ r. is_later k valid_from stamp r ≡ false)
            (λ r. has_started k stamp r ≡ true → before r written ≡ true) before-written t₂ recorded
            (any_none (is_later k valid_from stamp) t₂ (any-later_agree ∙ g))))

    -- The asserted value while it is in force, and what there was at any other time.
    pub insert_value-effect :
        All (λ r. leb r.recorded_at now ≡ true) t₂
        → last_value_of
            (has_started k stamp)
            (insert_value c k encoded valid_from source now fact_id t₂)
          ≡ (if takes_effect k valid_from stamp t
              then some (c.encrypt_str encoded)
              else last_value_of (has_started k stamp) t)
    unfolding takes_effect new_row
    insert_value-effect recorded =
        last_value_of-insert_value t₂ ∙ elim (Bool-cases (leb valid_from stamp)) [
          | inr h ↦ rw h (append-early h)
          | inl h ↦ elim (Bool-cases (any (is_later k valid_from stamp) t)) [
            | inl g ↦ rw (h, g) (append-overtaken g)
            | inr g ↦ rw (h, g) (append-in_force recorded h g)
          ]
        ]
