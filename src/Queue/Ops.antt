-- ===== src/Queue/Ops.antt =====
-- The methods of `FactJobMixin` (src/mark/store/_sqlite/fact_jobs.py) on the two tables. Whether an
-- owner's process is dead (job_owner.py asks the operating system) is a parameter.
use mark_sdk.Prelude.{
  ℕ, String, Bool, true, Option, none, some, List, [], ◌∷◌, ◌++◌, not, ◌&&◌, ◌||◌, ◌==◌, ◌+◌, ◌-◌,
  suc, ltb, leb, if◌then◌else◌, map, filter, find?, any, length, take, sort_by,
}
use mark_sdk.Queue.Table.{
  Status, pending, running, done, failed, is_pending, is_running, Job, Owner, Queue, is_job,
  is_owner_row, update_where, delete_owner, put_owner, has_owner,
}

unfoldable pub new_job : String → String → String → ℕ → ℕ → Job
new_job agent_id fragment_id extractor occurrence now = record {
  fragment_id = fragment_id;
  extractor = extractor;
  agent_id = agent_id;
  occurrence = occurrence;
  status = pending;
  attempts = 0;
  error = none;
  created_at = now;
  updated_at = now;
}

-- INSERT OR IGNORE
unfoldable pub enqueue_one : String → String → ℕ → String × ℕ → ℕ × Queue → ℕ × Queue
enqueue_one agent_id extractor now (fragment_id, occurrence) (added, q) =
    if any (is_job fragment_id extractor) q.jobs then (added, q) else (
      suc added,
      record q { jobs = q.jobs ++ new_job agent_id fragment_id extractor occurrence now ∷ [] },
    )

unfoldable pub enqueue_each : String → String → ℕ → List (String × ℕ) → ℕ × Queue → ℕ × Queue
enqueue_each agent_id extractor now [] r = r
enqueue_each agent_id extractor now (i ∷ is) r =
    enqueue_each agent_id extractor now is (enqueue_one agent_id extractor now i r)

unfoldable pub fact_job_enqueue : String → List (String × ℕ) → String → ℕ → Queue → ℕ × Queue
fact_job_enqueue agent_id items extractor now q = enqueue_each agent_id extractor now items (0, q)

unfoldable pub or_error : Option String → String → Option String
or_error none reason = some reason
or_error (some e) reason = some e

unfoldable pub abandon : String → String → String → ℕ → Queue → Queue
abandon f x reason now q = delete_owner f x (
    update_where (is_job f x)
      (λ j. record j { status = failed; error = or_error j.error reason; updated_at = now }) q)

-- The join of running jobs with their owners: the job and its owner's token.
unfoldable pub owned_by : List Owner → Job → List (Job × String)
owned_by owners j = map (λ o. (j, o.owner)) (filter (is_owner_row j.fragment_id j.extractor) owners)

unfoldable pub running_owned : (Job → Bool) → List Owner → List Job → List (Job × String)
running_owned wanted owners [] = []
running_owned wanted owners (j ∷ js) =
    if is_running j.status && wanted j
    then owned_by owners j ++ running_owned wanted owners js
    else running_owned wanted owners js

-- Pending and not touched after not_after, or running with an expired lease.
unfoldable pub is_runnable : String → Option String → ℕ → ℕ → Option ℕ → Job → Bool
is_runnable extractor agent_id lease now not_after j =
    ((j.extractor == extractor)
      && ((is_pending j.status && (elim not_after [ none ↦ true | some t ↦ leb j.updated_at t ]))
          || (is_running j.status && ltb (j.updated_at + lease) now)))
    && (elim agent_id [ none ↦ true | some a ↦ j.agent_id == a ])

unfoldable pub claim_one : String → String → ℕ → ℕ → Job → List Job × Queue → List Job × Queue
claim_one extractor owner max_attempts now j (claimed, q) =
    if is_running j.status && leb max_attempts j.attempts
    then (claimed, abandon j.fragment_id extractor "abandoned: worker stopped mid-job" now q)
    else (
      claimed ++ record j { attempts = suc j.attempts } ∷ [],
      put_owner j.fragment_id extractor owner (
          update_where (is_job j.fragment_id extractor)
            (λ k. record k { status = running; attempts = suc k.attempts; updated_at = now }) q),
    )

unfoldable pub claim_each : String → String → ℕ → ℕ → List Job → List Job × Queue → List Job × Queue
claim_each extractor owner max_attempts now [] r = r
claim_each extractor owner max_attempts now (j ∷ js) r =
    claim_each extractor owner max_attempts now js (claim_one extractor owner max_attempts now j r)

-- ORDER BY created_at, rowid LIMIT ?
unfoldable pub runnable_jobs : String → Option String → ℕ → ℕ → Option ℕ → ℕ → List Job → List Job
runnable_jobs extractor agent_id lease now not_after limit jobs = take limit (
    sort_by (λ j k. leb j.created_at k.created_at)
      (filter (is_runnable extractor agent_id lease now not_after) jobs))

module _ (owner_is_dead : String → Bool) where
  unfoldable pub reclaim_one : ℕ → ℕ → Job × String → ℕ × Queue → ℕ × Queue
  reclaim_one max_attempts now (j, owner) (reclaimed, q) =
      if not (owner_is_dead owner)
      then (reclaimed, q)
      else if leb max_attempts j.attempts
      then (
        reclaimed,
        abandon j.fragment_id j.extractor "abandoned: worker process died mid-job" now q,
      )
      else (
        suc reclaimed,
        delete_owner j.fragment_id j.extractor (
            update_where (is_job j.fragment_id j.extractor) (λ k. record k { status = pending }) q),
      )

  unfoldable pub reclaim_each : ℕ → ℕ → List (Job × String) → ℕ × Queue → ℕ × Queue
  reclaim_each max_attempts now [] r = r
  reclaim_each max_attempts now (row ∷ rows) r =
      reclaim_each max_attempts now rows (reclaim_one max_attempts now row r)

  unfoldable pub reclaim_dead : Option String → ℕ → ℕ → Queue → ℕ × Queue
  reclaim_dead extractor max_attempts now q =
      reclaim_each max_attempts now
        (running_owned (λ j. elim extractor [ none ↦ true | some x ↦ j.extractor == x ]) q.owners
          q.jobs)
        (0, q)

  unfoldable pub fact_job_claim :
      String → Option String → ℕ → ℕ → ℕ → Option ℕ → String → ℕ → Queue → List Job × Queue
  fact_job_claim extractor agent_id limit lease max_attempts not_after owner now q =
      let q' : Queue = (reclaim_dead (some extractor) max_attempts now q).1 in
      claim_each extractor owner max_attempts now
        (runnable_jobs extractor agent_id lease now not_after limit q'.jobs) ([], q')

  unfoldable pub fact_job_reclaim : Option String → ℕ → ℕ → Queue → ℕ × Queue
  fact_job_reclaim extractor max_attempts now q = reclaim_dead extractor max_attempts now q

unfoldable pub fact_job_start : String → String → ℕ → Queue → Queue
fact_job_start f x now q =
    update_where (λ j. is_job f x j && is_running j.status) (λ j. record j { updated_at = now }) q

unfoldable pub is_held : String → String → String → Queue → Job → Bool
is_held f x owner q j = is_job f x j && (is_running j.status && has_owner f x owner q)

unfoldable pub release_one : String → Bool → String → String → ℕ × Queue → ℕ × Queue
release_one x started owner f (released, q) =
    let refund : ℕ = if started then 0 else 1 in
    if any (is_held f x owner q) q.jobs
    then (
      suc released,
      delete_owner f x (
          update_where (is_held f x owner q)
            (λ j. record j { status = pending; attempts = j.attempts - refund }) q),
    )
    else (released, q)

unfoldable pub release_each : String → Bool → String → List String → ℕ × Queue → ℕ × Queue
release_each x started owner [] r = r
release_each x started owner (f ∷ fs) r =
    release_each x started owner fs (release_one x started owner f r)

unfoldable pub fact_job_release : List String → String → Bool → String → Queue → ℕ × Queue
fact_job_release fragment_ids x started owner q = release_each x started owner fragment_ids (0, q)

unfoldable pub settle_job : String → String → Status → Option String → ℕ → Queue → Queue
settle_job f x status error now q = delete_owner f x (
    update_where (is_job f x) (λ j. record j { status = status; error = error; updated_at = now })
      q)

unfoldable pub fact_job_complete : String → String → ℕ → Queue → Queue
fact_job_complete f x now q = settle_job f x done none now q

-- The error is stored cut to 2000 characters: `cut` is error[:2000].
unfoldable pub fact_job_fail : String → String → String → ℕ → ℕ → Queue → Status × Queue
fact_job_fail f x cut max_attempts now q =
    let status : Status = elim (find? (is_job f x) q.jobs) [
      | none ↦ failed
      | some j ↦ if leb max_attempts j.attempts then failed else pending
    ] in
    (status, settle_job f x status (some cut) now q)

-- How many of the agent's and the extractor's jobs have a status.
unfoldable pub fact_job_count : Option String → Option String → (Status → Bool) → Queue → ℕ
fact_job_count agent_id extractor has_status q = length (
    filter
      (λ j.
        has_status j.status
        && ((elim agent_id [ none ↦ true | some a ↦ j.agent_id == a ])
            && (elim extractor [ none ↦ true | some x ↦ j.extractor == x ])))
      q.jobs)
