-- ===== src/Queue/Stays.antt =====
-- Runs of the queue as a step relation, and the jobs in them that are done
-- (src/mark/store/_sqlite/fact_jobs.py).
use mark_sdk.Prelude.{
  ℕ, String, ◌≡◌, refl, ◌∙◌, Bool, true, false, Option, some, List, [], ◌∷◌, ◌&&◌, ◌==◌, eq_sound,
  inl, inr, Bool-cases, any, All, All-imp, All-append, All-filter_imp, All-sort_by, take, leb, suc,
  false_of_both, &&-eq-true, zero, ap₂, any-append_left,
}
use mark_sdk.Queue.Table.{Status, is_done, is_running, Job, Queue, is_job, has_owner}
use mark_sdk.Queue.Ops.{
  new_job, enqueue_one, enqueue_each, fact_job_enqueue, is_runnable, runnable_jobs, fact_job_claim,
  fact_job_reclaim, reclaim_dead, fact_job_start, is_held, release_one, release_each,
  fact_job_release,
}
use mark_sdk.Queue.Done.{
  IsDone, IsDone-update_where, IsDone-delete_owner, running_is_not_done, IsDone-reclaim_dead,
  IsFree, runnable-IsFree, IsDone-claim_each,
}

All-take : {A : Type 0} (P : A → Type 0) (n : ℕ) (xs : List A) → All P xs → All P (take n xs)
All-take P zero xs h = tt
All-take P (suc n) [] h = tt
All-take P (suc n) (x ∷ xs) h = (h.0, All-take P n xs h.1)

-- One call of a worker or a service; no job is settled.
pub data Step (owner_is_dead : String → Bool) : Queue → Queue → Type 0 where
  enqueue :
      (agent_id : String) (items : List (String × ℕ)) (extractor : String) (now : ℕ) (q : Queue)
      → Step owner_is_dead q (fact_job_enqueue agent_id items extractor now q).1
  claim :
      (extractor : String) (agent_id : Option String) (limit lease max_attempts : ℕ)
      (not_after : Option ℕ) (owner : String) (now : ℕ) (q : Queue)
      → Step owner_is_dead q
          (fact_job_claim owner_is_dead extractor agent_id limit lease max_attempts not_after owner
            now q).1
  reclaim :
      (extractor : Option String) (max_attempts now : ℕ) (q : Queue)
      → Step owner_is_dead q (fact_job_reclaim owner_is_dead extractor max_attempts now q).1
  start : (f x : String) (now : ℕ) (q : Queue) → Step owner_is_dead q (fact_job_start f x now q)
  release :
      (fragment_ids : List String) (x : String) (started : Bool) (owner : String) (q : Queue)
      → Step owner_is_dead q (fact_job_release fragment_ids x started owner q).1

pub data Run (owner_is_dead : String → Bool) (q : Queue) : Queue → Type 0 where
  idle : Run owner_is_dead q q
  after : {r s : Queue} → Run owner_is_dead q r → Step owner_is_dead r s → Run owner_is_dead q s

module _ (f x : String) where
  same_key :
      (g y : String) (js : List Job)
      → ((g == f) && (y == x)) ≡ true
      → any (is_job f x) js ≡ true
      → any (is_job g y) js ≡ true
  same_key g y js h k =
      let (same_f, same_x) = &&-eq-true (g == f) (y == x) h in
      ap₂ (λ a b. any (is_job a b) js) (eq_sound g f same_f) (eq_sound y x same_x) ∙ k

  IsDone-enqueue_one :
      (agent_id extractor : String) (now : ℕ) (i : String × ℕ) (r : ℕ × Queue)
      → IsDone f x r.1
      → IsDone f x (enqueue_one agent_id extractor now i r).1
  unfolding enqueue_one IsDone
  IsDone-enqueue_one agent_id extractor now (g, occurrence) (n, q) (there, all_done) =
      elim (Bool-cases (any (is_job g extractor) q.jobs)) [
        | inl y ↦ rw y (there, all_done)
        | inr absent ↦ rw absent (
          any-append_left (is_job f x) q.jobs _ there,
          All-append (λ j. is_job f x j ≡ true → is_done j.status ≡ true) q.jobs _ all_done
              (
                (λ mine. absurd (
                    false_of_both absent
                      (same_key g extractor q.jobs (unfold is_job new_job in mine) there))),
                tt,
              ),
        )
      ]

  IsDone-enqueue_each :
      (agent_id extractor : String) (now : ℕ) (is : List (String × ℕ)) (r : ℕ × Queue)
      → IsDone f x r.1
      → IsDone f x (enqueue_each agent_id extractor now is r).1
  unfolding enqueue_each
  IsDone-enqueue_each agent_id extractor now [] r h = h
  IsDone-enqueue_each agent_id extractor now (i ∷ is) r h =
      IsDone-enqueue_each agent_id extractor now is _
        (IsDone-enqueue_one agent_id extractor now i r h)

  IsDone-start :
      (f' x' : String) (now : ℕ) (q : Queue)
      → IsDone f x q
      → IsDone f x (fact_job_start f' x' now q)
  unfolding fact_job_start is_job
  IsDone-start f' x' now q h =
      IsDone-update_where f x (λ j. is_job f' x' j && is_running j.status) _ q
        (λ j _ d. spared (is_job f' x' j) j.status d) (λ j. refl) h
    where
      spared : (b : Bool) (st : Status) → is_done st ≡ true → (b && is_running st) ≡ false
      spared true st d = elim (Bool-cases (is_running st)) [
        | inl y ↦ absurd (false_of_both (running_is_not_done f x st y) d)
        | inr n ↦ n
      ]
      spared false st d = refl

  IsDone-release_one :
      (x' : String) (started : Bool) (owner f' : String) (r : ℕ × Queue)
      → IsDone f x r.1
      → IsDone f x (release_one x' started owner f' r).1
  unfolding release_one is_held is_job
  IsDone-release_one x' started owner f' (n, q) h =
      elim (Bool-cases (any (is_held f' x' owner q) q.jobs)) [
        | inr a ↦ rw a h
        | inl y ↦ rw y (
            IsDone-delete_owner f x f' x' _ (
              IsDone-update_where f x (is_held f' x' owner q) _ q
                (λ j _ d. spared (is_job f' x' j) j.status (has_owner f' x' owner q) d) (λ j. refl)
                h))
      ]
    where
      spared :
          (b : Bool) (st : Status) (c : Bool)
          → is_done st ≡ true
          → (b && (is_running st && c)) ≡ false
      spared true st c d = elim (Bool-cases (is_running st)) [
        | inl y ↦ absurd (false_of_both (running_is_not_done f x st y) d)
        | inr n ↦ rw n
      ]
      spared false st c d = refl

  IsDone-release_each :
      (x' : String) (started : Bool) (owner : String) (fs : List String) (r : ℕ × Queue)
      → IsDone f x r.1
      → IsDone f x (release_each x' started owner fs r).1
  unfolding release_each
  IsDone-release_each x' started owner [] r h = h
  IsDone-release_each x' started owner (g ∷ gs) r h =
      IsDone-release_each x' started owner gs _ (IsDone-release_one x' started owner g r h)

  module _ (owner_is_dead : String → Bool) where
    IsDone-step : {q r : Queue} → Step owner_is_dead q r → IsDone f x q → IsDone f x r
    unfolding IsDone fact_job_enqueue fact_job_claim fact_job_reclaim fact_job_release runnable_jobs
    IsDone-step (enqueue a is e now q) h = IsDone-enqueue_each a e now is (0, q) h
    IsDone-step (claim e a limit lease max_attempts not_after owner now q) h =
        let q' : Queue = (reclaim_dead owner_is_dead (some e) max_attempts now q).1 in
        let kept : IsDone f x q' =
          IsDone-reclaim_dead f x owner_is_dead (some e) max_attempts now q h in
        IsDone-claim_each f x owner_is_dead e owner max_attempts now _ ([], q')
          (All-take (IsFree f x owner_is_dead e) limit _ (
            All-sort_by (λ j k. leb j.created_at k.created_at) (IsFree f x owner_is_dead e) _
              (All-filter_imp (IsFree f x owner_is_dead e) (is_runnable e a lease now not_after)
                q'.jobs
                (All-imp (λ j. is_job f x j ≡ true → is_done j.status ≡ true)
                  (λ j. is_runnable e a lease now not_after j ≡ true → IsFree f x owner_is_dead e j)
                  (λ j d y. runnable-IsFree f x owner_is_dead e a lease now not_after j d y) q'.jobs
                  kept.1))))
          kept
    IsDone-step (reclaim e max_attempts now q) h =
        IsDone-reclaim_dead f x owner_is_dead e max_attempts now q h
    IsDone-step (start f' x' now q) h = IsDone-start f' x' now q h
    IsDone-step (release is x' started owner q) h = IsDone-release_each x' started owner is (0, q) h

    -- Over every run of enqueue, claim, reclaim, start and release calls, in any order and with
    -- any arguments, a job that is done stays there, done, and no second row for its fragment and
    -- extractor appears that is not done.
    pub settled_forever : {q r : Queue} → Run owner_is_dead q r → IsDone f x q → IsDone f x r
    settled_forever idle h = h
    settled_forever (after run step) h = IsDone-step step (settled_forever run h)
