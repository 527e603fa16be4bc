-- ===== src/Facts/Imported.antt =====
-- What an import leaves (src/mark/store/_sqlite/fact_import.py).
use mark_sdk.Prelude.{
  ℕ, String, ◌≡◌, refl, sym, subst, ◌∙◌, Bool, true, false, Option, none, some, List, [], ◌∷◌, ◌++◌,
  ◌==◌, nat_eq, inl, inr, arith, eq_refl, Bool-cases, if◌then◌else◌, any, any-append,
  any-map_of_imp, IsFresh, HasUniqueKeys-append,
}
use mark_sdk.Facts.Table.{Row, Table, Timeline, on_timeline, update, set_valid_to}
use mark_sdk.Facts.Select.{is_blank_key, rechain_facts, apply_updates, rechain_each}
use mark_sdk.Facts.Ops.{Codec, Result, ok, new_row}
use mark_sdk.Facts.Chain.{Chained}
use mark_sdk.Facts.Invariant.{IsValid, rechain_each-IsValid}
use mark_sdk.Facts.Keeps.{chain_rows-append, single-new_row, chain_rows-add}
use mark_sdk.Facts.Import.{
  ExportedFact, is_imported, is_recorded_at, recorded_time, chain_imported, imported_row,
  insert_imported, import_fact_row,
}

table-eq :
    {a b : Bool} {t u : Table} → ◌≡◌ {A = Result (Bool × Table)} (ok (a, t)) (ok (b, u)) → t ≡ u
table-eq h = ground arith

nat_eq_refl : (n : ℕ) → nat_eq n n ≡ true
nat_eq_refl n = ground arith

is_recorded_at-recorded_time :
    (m : Option ℕ) (now : ℕ) → is_recorded_at m (recorded_time m now) ≡ true
unfolding is_recorded_at recorded_time
is_recorded_at-recorded_time none now = refl
is_recorded_at-recorded_time (some m) now = nat_eq_refl m

module _ (c : Codec) (k : Timeline) (x : ExportedFact) where
  -- Re-chaining changes ends only.
  is_imported-set_valid_to :
      (b : Bool) (end : Option ℕ) (r : Row)
      → is_imported c k x (if b then set_valid_to end r else r) ≡ is_imported c k x r
  unfolding is_imported set_valid_to on_timeline
  is_imported-set_valid_to true end r = refl
  is_imported-set_valid_to false end r = refl

  any-apply_updates :
      (us : List (String × Option ℕ)) (t : Table)
      → any (is_imported c k x) t ≡ true
      → any (is_imported c k x) (apply_updates us t) ≡ true
  unfolding apply_updates update
  any-apply_updates [] t h = h
  any-apply_updates ((id, end) ∷ us) t h = any-apply_updates us (update id (set_valid_to end) t) (
      any-map_of_imp (is_imported c k x) (is_imported c k x)
        (λ r. if r.id == id then set_valid_to end r else r) t
        (λ r e. is_imported-set_valid_to (r.id == id) end r ∙ e) h)

  any-chain_imported :
      (multi : Bool) (t : Table)
      → any (is_imported c k x) t ≡ true
      → any (is_imported c k x) (chain_imported multi k t) ≡ true
  unfolding chain_imported rechain_facts
  any-chain_imported true t h = h
  any-chain_imported false t h = any-apply_updates _ t h

  is_imported-imported_row :
      (now : ℕ) (fact_id : String)
      → c.decrypt_str (c.encrypt_str x.encoded) ≡ x.encoded
      → is_imported c k x (imported_row c k x now fact_id) ≡ true
  unfolding is_imported imported_row new_row on_timeline
  is_imported-imported_row now fact_id opens =
      rw
        (
          opens,
          is_recorded_at-recorded_time x.recorded_at now,
          nat_eq_refl,
          eq_refl k.agent_id,
          eq_refl k.subject_key,
          eq_refl k.attribute_key,
          eq_refl x.encoded,
        )
        refl

  insert_imported-has :
      (now : ℕ) (fact_id : String) (t : Table)
      → c.decrypt_str (c.encrypt_str x.encoded) ≡ x.encoded
      → any (is_imported c k x) (insert_imported c k x now fact_id t) ≡ true
  unfolding insert_imported
  insert_imported-has now fact_id t opens =
      let row : Row = imported_row c k x now fact_id in
      any-chain_imported x.multi_valued (t ++ row ∷ []) (
        any-append (is_imported c k x) t (row ∷ [])
          (rw (is_imported-imported_row now fact_id opens) refl))

  again-of_any :
      (now : ℕ) (fact_id : String) (t : Table)
      → is_blank_key k ≡ false
      → any (is_imported c k x) t ≡ true
      → import_fact_row c k x now fact_id t ≡ ok (false, t)
  unfolding import_fact_row
  again-of_any now fact_id t e h = rw (e, h) refl

  -- An import is idempotent: if decryption undoes encryption on the value, then after an import
  -- that returns, whether it added the row or not, importing the same record again, at any clock
  -- and with any id, adds nothing and leaves the table.
  pub import_fact_row-again :
      (now now' : ℕ) (fact_id fact_id' : String) (t : Table) {added : Bool} {t' : Table}
      → c.decrypt_str (c.encrypt_str x.encoded) ≡ x.encoded
      → import_fact_row c k x now fact_id t ≡ ok (added, t')
      → import_fact_row c k x now' fact_id' t' ≡ ok (false, t')
  unfolding import_fact_row
  import_fact_row-again now now' fact_id fact_id' t {added} {t'} opens h =
      elim (Bool-cases (is_blank_key k)) [
        | inl e ↦ absurd (ground arith)
        | inr e ↦ again-of_any now' fact_id' t' e (elim (Bool-cases (any (is_imported c k x) t)) [
          | inl y ↦ subst (λ u. any (is_imported c k x) u ≡ true) (table-eq (rw (e, y) at h)) y
          | inr n ↦
              subst (λ u. any (is_imported c k x) u ≡ true) (table-eq (rw (e, n) at h))
                (insert_imported-has now fact_id t opens)
        ])
      ]

  chain_imported-IsValid :
      (multi : Bool) (recorded : ℕ) (fact_id : String) (t : Table)
      → IsValid t
      → IsFresh (λ r. r.id) fact_id t
      → IsValid (
          chain_imported multi k (
            t
            ++ new_row c k x.encoded x.valid_from x.source_fragment_id recorded multi fact_id ∷ []))
  unfolding chain_imported
  chain_imported-IsValid true recorded fact_id t v fresh =
      chain_rows-add c k x.encoded x.valid_from x.source_fragment_id recorded fact_id t v fresh
  chain_imported-IsValid false recorded fact_id t v fresh =
      let r : Row =
        new_row c k x.encoded x.valid_from x.source_fragment_id recorded false fact_id in
      unfold rechain_each in
      (rechain_each-IsValid (k ∷ []) (t ++ r ∷ [])
        (HasUniqueKeys-append (λ s. s.id) t r (unfold new_row in fresh) v.unique)
        (λ j out.
          subst Chained
            (sym (
              chain_rows-append j t r (
                single-new_row c k x.encoded x.valid_from x.source_fragment_id recorded fact_id
                  false j (ground arith))))
            (v.chained j)))

  pub import_fact_row-IsValid :
      (now : ℕ) (fact_id : String) (t : Table) {added : Bool} {t' : Table}
      → IsValid t
      → IsFresh (λ r. r.id) fact_id t
      → import_fact_row c k x now fact_id t ≡ ok (added, t')
      → IsValid t'
  unfolding import_fact_row insert_imported imported_row
  import_fact_row-IsValid now fact_id t v fresh h = elim (Bool-cases (is_blank_key k)) [
    | inl e ↦ absurd (ground arith)
    | inr e ↦ elim (Bool-cases (any (is_imported c k x) t)) [
      | inl y ↦ subst IsValid (table-eq (rw (e, y) at h)) v
      | inr n ↦ subst IsValid (table-eq (rw (e, n) at h)) (
          chain_imported-IsValid x.multi_valued (recorded_time x.recorded_at now) fact_id t v fresh)
    ]
  ]
