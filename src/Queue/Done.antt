-- ===== src/Queue/Done.antt =====
-- Lemmas about jobs that are done, for each method of the queue
-- (src/mark/store/_sqlite/fact_jobs.py).
use mark_sdk.Prelude.{
  ℕ, String, ◌≡◌, refl, sym, ◌∙◌, Bool, true, false, Option, none, some, List, [], ◌∷◌, ◌&&◌, ◌||◌,
  ◌==◌, eq_iff, inl, inr, Bool-cases, if◌then◌else◌, filter, any, any-map_of_imp, All, All-imp,
  All-map, All-append, arith, leb, ltb, false_of_both, All-of, &&-eq-true, ◌+◌,
}
use mark_sdk.Queue.Table.{
  Status, pending, running, done, failed, is_pending, is_running, is_done, Job, Owner, Queue,
  is_job, update_where, delete_owner, put_owner, is_owner_row,
}
use mark_sdk.Queue.Ops.{
  abandon, owned_by, running_owned, reclaim_one, reclaim_each, reclaim_dead, is_runnable, claim_one,
  claim_each,
}

-- The job of the fragment and the extractor is there and done.
unfoldable pub IsDone : String → String → Queue → Type 0
IsDone f x q =
    (any (is_job f x) q.jobs ≡ true)
    × All (λ j. is_job f x j ≡ true → is_done j.status ≡ true) q.jobs

module _ (f x : String) where
  -- An update that spares done jobs and moves no key.
  pub IsDone-update_where :
      (test : Job → Bool) (g : Job → Job) (q : Queue)
      → ((j : Job) → is_job f x j ≡ true → is_done j.status ≡ true → test j ≡ false)
      → ((j : Job) → is_job f x (g j) ≡ is_job f x j)
      → IsDone f x q
      → IsDone f x (update_where test g q)
  unfolding IsDone update_where
  IsDone-update_where test g q spared keyed (there, all_done) = (
    any-map_of_imp (is_job f x) (is_job f x) (λ j. if test j then g j else j) q.jobs
        (λ j h. elim (Bool-cases (test j)) [ inl y ↦ rw y (keyed j ∙ h) | inr n ↦ rw n h ]) there,
    All-map (λ j. if test j then g j else j) (λ j. is_job f x j ≡ true → is_done j.status ≡ true)
        q.jobs
        (All-imp (λ j. is_job f x j ≡ true → is_done j.status ≡ true)
          (λ j.
            is_job f x (if test j then g j else j) ≡ true
            → is_done (if test j then g j else j).status ≡ true)
          (λ j h. elim (Bool-cases (test j)) [
            | inl y ↦ rw y (λ k.
                let mine = sym (keyed j) ∙ k in absurd (false_of_both (spared j mine (h mine)) y))
            | inr n ↦ rw n h
          ])
          q.jobs all_done),
  )

  pub IsDone-delete_owner :
      (f' x' : String) (q : Queue) → IsDone f x q → IsDone f x (delete_owner f' x' q)
  unfolding IsDone delete_owner
  IsDone-delete_owner f' x' q h = h

  IsDone-put_owner :
      (f' x' owner : String) (q : Queue) → IsDone f x q → IsDone f x (put_owner f' x' owner q)
  unfolding IsDone put_owner
  IsDone-put_owner f' x' owner q h = h

  other_key :
      (f' x' : String) (j : Job)
      → ((f' == f) && (x' == x)) ≡ false
      → is_job f x j ≡ true
      → is_job f' x' j ≡ false
  unfolding is_job
  other_key f' x' j n h = ground (
    arith,
    eq_iff j.fragment_id f,
    eq_iff j.fragment_id f',
    eq_iff j.extractor x,
    eq_iff j.extractor x',
    eq_iff f' f,
    eq_iff x' x,
  )

  IsDone-abandon :
      (f' x' reason : String) (now : ℕ) (q : Queue)
      → ((f' == f) && (x' == x)) ≡ false
      → IsDone f x q
      → IsDone f x (abandon f' x' reason now q)
  unfolding abandon is_job
  IsDone-abandon f' x' reason now q n h =
      IsDone-delete_owner f' x' _ (
        IsDone-update_where (is_job f' x') _ q (λ j mine _. other_key f' x' j n mine) (λ j. refl) h)

  -- A row that is not the done job.
  IsOther : Job → Type 0
  IsOther j = ((j.fragment_id == f) && (j.extractor == x)) ≡ false

  pub running_is_not_done : (st : Status) → is_running st ≡ true → is_done st ≡ false
  running_is_not_done running h = refl
  running_is_not_done pending h = refl
  running_is_not_done failed h = refl
  running_is_not_done done h = absurd (ground arith)

  pub pending_is_not_done : (st : Status) → is_pending st ≡ true → is_done st ≡ false
  pending_is_not_done pending h = refl
  pending_is_not_done running h = refl
  pending_is_not_done failed h = refl
  pending_is_not_done done h = absurd (ground arith)

  All-owned_by :
      (owners : List Owner) (j : Job) → IsOther j → All (λ r. IsOther r.0) (owned_by owners j)
  unfolding owned_by IsOther
  All-owned_by owners j h =
      All-map (λ o. (j, o.owner)) (λ r. IsOther r.0)
        (filter (is_owner_row j.fragment_id j.extractor) owners)
        (All-of (λ _. IsOther j) (λ _. h) _)

  All-running_owned :
      (wanted : Job → Bool) (owners : List Owner) (js : List Job)
      → All (λ j. is_job f x j ≡ true → is_done j.status ≡ true) js
      → All (λ r. IsOther r.0) (running_owned wanted owners js)
  unfolding running_owned is_job IsOther
  All-running_owned wanted owners [] h = tt
  All-running_owned wanted owners (j ∷ js) h = elim (Bool-cases (is_running j.status && wanted j)) [
    | inr n ↦ rw n (All-running_owned wanted owners js h.1)
    | inl y ↦ rw y (
        All-append (λ r. IsOther r.0) (owned_by owners j) (running_owned wanted owners js)
          (All-owned_by owners j (elim (Bool-cases ((j.fragment_id == f) && (j.extractor == x))) [
            | inr n ↦ n
            | inl mine ↦ absurd (
                false_of_both (running_is_not_done j.status (&&-eq-true _ (wanted j) y).0)
                  (h.0 mine))
          ]))
          (All-running_owned wanted owners js h.1))
  ]

  module _ (owner_is_dead : String → Bool) where
    IsDone-reclaim_one :
        (max_attempts now : ℕ) (r : Job × String) (n : ℕ) (q : Queue)
        → IsOther r.0
        → IsDone f x q
        → IsDone f x (reclaim_one owner_is_dead max_attempts now r (n, q)).1
    unfolding reclaim_one IsOther is_job
    IsDone-reclaim_one max_attempts now (j, owner) n q o h =
        elim (Bool-cases (owner_is_dead owner)) [
          | inr a ↦ rw a h
          | inl d ↦ elim (Bool-cases (leb max_attempts j.attempts)) [
            | inl y ↦ rw (d, y) (IsDone-abandon j.fragment_id j.extractor _ now q o h)
            | inr y ↦
                rw (d, y)
                  (IsDone-delete_owner j.fragment_id j.extractor _ (
                    IsDone-update_where (is_job j.fragment_id j.extractor)
                      (λ k. record k { status = pending }) q
                      (λ k mine _. other_key j.fragment_id j.extractor k o mine) (λ k. refl) h))
          ]
        ]

    IsDone-reclaim_each :
        (max_attempts now : ℕ) (rows : List (Job × String)) (r : ℕ × Queue)
        → All (λ row. IsOther row.0) rows
        → IsDone f x r.1
        → IsDone f x (reclaim_each owner_is_dead max_attempts now rows r).1
    unfolding reclaim_each
    IsDone-reclaim_each max_attempts now [] r o h = h
    IsDone-reclaim_each max_attempts now (row ∷ rows) r o h =
        IsDone-reclaim_each max_attempts now rows (reclaim_one owner_is_dead max_attempts now row r)
          o.1 (IsDone-reclaim_one max_attempts now row r.0 r.1 o.0 h)

    pub IsDone-reclaim_dead :
        (extractor : Option String) (max_attempts now : ℕ) (q : Queue)
        → IsDone f x q
        → IsDone f x (reclaim_dead owner_is_dead extractor max_attempts now q).1
    unfolding reclaim_dead IsDone
    IsDone-reclaim_dead extractor max_attempts now q h =
        IsDone-reclaim_each max_attempts now _ (0, q) (All-running_owned _ q.owners q.jobs h.1) h

    -- A runnable row of the extractor.
    unfoldable pub IsFree : String → Job → Type 0
    IsFree extractor j = ((j.fragment_id == f) && (extractor == x)) ≡ false

    not_runnable :
        (st : Status) (a b : Bool)
        → is_done st ≡ true
        → ((is_pending st && a) || (is_running st && b)) ≡ true
        → ⊥
    not_runnable pending a b h k = ground arith
    not_runnable running a b h k = ground arith
    not_runnable failed a b h k = ground arith
    not_runnable done a b h k = ground arith

    pub runnable-IsFree :
        (extractor : String) (agent_id : Option String) (lease now : ℕ) (not_after : Option ℕ)
        (j : Job)
        → (is_job f x j ≡ true → is_done j.status ≡ true)
        → is_runnable extractor agent_id lease now not_after j ≡ true
        → IsFree extractor j
    unfolding IsFree is_job is_runnable
    runnable-IsFree extractor agent_id lease now not_after j h y =
        elim (Bool-cases ((j.fragment_id == f) && (extractor == x))) [
          | inr n ↦ n
          | inl mine ↦
              let (cond, _) =
                &&-eq-true
                  ((j.extractor == extractor)
                    && ((is_pending j.status
                          && elim not_after [ none ↦ true | some t ↦ leb j.updated_at t ])
                        || (is_running j.status && ltb (j.updated_at + lease) now)))
                  (elim agent_id [ none ↦ true | some a ↦ j.agent_id == a ]) y in
              let (ours, waiting) = &&-eq-true (j.extractor == extractor) _ cond in
              let same : (j.extractor == x) ≡ true = ground (
                arith,
                mine,
                ours,
                eq_iff j.extractor extractor,
                eq_iff extractor x,
                eq_iff j.extractor x,
              ) in
              absurd (not_runnable j.status _ _ (h (ground (arith, mine, same))) waiting)
        ]

    IsDone-claim_one :
        (extractor owner : String) (max_attempts now : ℕ) (j : Job) (r : List Job × Queue)
        → IsFree extractor j
        → IsDone f x r.1
        → IsDone f x (claim_one extractor owner max_attempts now j r).1
    unfolding claim_one IsFree is_job
    IsDone-claim_one extractor owner max_attempts now j (claimed, q) o h =
        elim (Bool-cases (is_running j.status && leb max_attempts j.attempts)) [
          | inl y ↦ rw y (IsDone-abandon j.fragment_id extractor _ now q o h)
          | inr n ↦ rw n (
              IsDone-put_owner j.fragment_id extractor owner _ (
                IsDone-update_where (is_job j.fragment_id extractor) _ q
                  (λ k mine _. other_key j.fragment_id extractor k o mine) (λ k. refl) h))
        ]

    pub IsDone-claim_each :
        (extractor owner : String) (max_attempts now : ℕ) (js : List Job) (r : List Job × Queue)
        → All (IsFree extractor) js
        → IsDone f x r.1
        → IsDone f x (claim_each extractor owner max_attempts now js r).1
    unfolding claim_each
    IsDone-claim_each extractor owner max_attempts now [] r o h = h
    IsDone-claim_each extractor owner max_attempts now (j ∷ js) r o h =
        IsDone-claim_each extractor owner max_attempts now js _ o.1
          (IsDone-claim_one extractor owner max_attempts now j r o.0 h)
