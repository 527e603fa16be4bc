-- ===== src/Queue/Retry.antt =====
-- A job whose worker gives it back after starting it, and the limit on attempts
-- (src/mark/store/_sqlite/fact_jobs.py).
use mark_sdk.Prelude.{
  ℕ, String, ◌≡◌, refl, ap, ◌∙◌, Bool, true, Option, none, [], ◌∷◌, ◌+◌, ◌-◌, eq_refl, take, arith,
  zero, suc,
}
use mark_sdk.Queue.Table.{
  pending, running, Job, Queue, is_job, is_owner_row, update_where, delete_owner, put_owner,
  has_owner,
}
use mark_sdk.Queue.Ops.{
  running_owned, reclaim_each, reclaim_dead, is_runnable, claim_one, claim_each, runnable_jobs,
  fact_job_claim, fact_job_start, is_held, release_one, release_each, fact_job_release,
}

abbrev pub waiting : String → String → String → ℕ → Option String → ℕ → ℕ → ℕ → Queue
waiting f x agent_id occurrence error created_at updated_at attempts = record {
  jobs =
      record {
        fragment_id = f;
        extractor = x;
        agent_id = agent_id;
        occurrence = occurrence;
        status = pending;
        attempts = attempts;
        error = error;
        created_at = created_at;
        updated_at = updated_at;
      }
      ∷ [];
  owners = [];
}

-- A pass that claims the job, starts it and, its worker hanging, gives it back on the way out. The
-- clock and the owner are the same for every pass.
unfoldable pub hung_pass :
    (String → Bool) → String → String → ℕ → ℕ → ℕ → String → ℕ → Queue → Queue
hung_pass owner_is_dead f x limit lease max_attempts owner now q =
    let claimed : Queue =
      (fact_job_claim owner_is_dead x none (suc limit) lease max_attempts none owner now q).1 in
    (fact_job_release (f ∷ []) x true owner (fact_job_start f x now claimed)).1

unfoldable pub hung_passes :
    (String → Bool) → String → String → ℕ → ℕ → ℕ → String → ℕ → ℕ → Queue → Queue
hung_passes owner_is_dead f x limit lease max_attempts owner now zero q = q
hung_passes owner_is_dead f x limit lease max_attempts owner now (suc n) q =
    hung_passes owner_is_dead f x limit lease max_attempts owner now n
      (hung_pass owner_is_dead f x limit lease max_attempts owner now q)

take_nil : {A : Type 0} (n : ℕ) → take {A = A} n [] ≡ []
take_nil zero = refl
take_nil (suc n) = refl

module _ (owner_is_dead : String → Bool) (f x : String) (limit lease max_attempts : ℕ)
    (owner : String) (now : ℕ) (agent_id : String) (occurrence : ℕ) (error : Option String)
    (created_at : ℕ) where
  held : ℕ → Queue
  held attempts = record {
    jobs =
        record {
          fragment_id = f;
          extractor = x;
          agent_id = agent_id;
          occurrence = occurrence;
          status = running;
          attempts = attempts;
          error = error;
          created_at = created_at;
          updated_at = now;
        }
        ∷ [];
    owners = record { fragment_id = f; extractor = x; owner = owner } ∷ [];
  }

  -- The only job is runnable, and is claimed.
  runnable_jobs-waiting :
      (attempts updated_at : ℕ)
      → runnable_jobs x none lease now none
          (suc limit)
          (waiting f x agent_id occurrence error created_at updated_at attempts).jobs
        ≡ (waiting f x agent_id occurrence error created_at updated_at attempts).jobs
  unfolding runnable_jobs is_runnable
  runnable_jobs-waiting attempts updated_at = rw (eq_refl x, take_nil {A = Job} limit) refl

  claim_one-waiting :
      (attempts updated_at : ℕ)
      → (claim_each x owner max_attempts now
          (waiting f x agent_id occurrence error created_at updated_at attempts).jobs
          ([], waiting f x agent_id occurrence error created_at updated_at attempts)).1
        ≡ held (suc attempts)
  unfolding claim_each claim_one put_owner update_where is_job held
  claim_one-waiting attempts updated_at = rw (eq_refl f, eq_refl x) refl

  fact_job_claim-waiting :
      (attempts updated_at : ℕ)
      → (fact_job_claim owner_is_dead x none
          (suc limit)
          lease
          max_attempts
          none
          owner
          now
          (waiting f x agent_id occurrence error created_at updated_at attempts)).1
        ≡ held (suc attempts)
  unfolding fact_job_claim reclaim_dead running_owned reclaim_each
  fact_job_claim-waiting attempts updated_at =
      ap
        (λ js.
          (claim_each x owner max_attempts now js
            ([], waiting f x agent_id occurrence error created_at updated_at attempts)).1)
        (runnable_jobs-waiting attempts updated_at)
      ∙ claim_one-waiting attempts updated_at

  -- Its lease was renewed in the same instant.
  fact_job_start-held : (attempts : ℕ) → fact_job_start f x now (held attempts) ≡ held attempts
  unfolding fact_job_start update_where is_job held
  fact_job_start-held attempts = rw (eq_refl f, eq_refl x) refl

  has_owner-held : (attempts : ℕ) → has_owner f x owner (held attempts) ≡ true
  unfolding has_owner held is_owner_row
  has_owner-held attempts = rw (eq_refl f, eq_refl x, eq_refl owner) refl

  fact_job_release-held :
      (attempts : ℕ)
      → (fact_job_release (f ∷ []) x true owner (held attempts)).1
        ≡ waiting f x agent_id occurrence error created_at now attempts
  unfolding fact_job_release release_each release_one is_held update_where delete_owner is_job
      is_owner_row held has_owner
  fact_job_release-held attempts =
      rw (eq_refl f, eq_refl x, eq_refl owner)
        (ap (waiting f x agent_id occurrence error created_at now) {x = attempts - 0} (omega arith))

  hung_pass-waiting :
      (attempts updated_at : ℕ)
      → hung_pass owner_is_dead f x limit lease max_attempts owner now
          (waiting f x agent_id occurrence error created_at updated_at attempts)
        ≡ waiting f x agent_id occurrence error created_at now (suc attempts)
  unfolding hung_pass
  hung_pass-waiting attempts updated_at =
      ap (λ q. (fact_job_release (f ∷ []) x true owner (fact_job_start f x now q)).1)
        (fact_job_claim-waiting attempts updated_at)
      ∙ ap (λ q. (fact_job_release (f ∷ []) x true owner q).1) (fact_job_start-held (suc attempts))
      ∙ fact_job_release-held (suc attempts)

  -- A queue of one pending job, whose workers claim it and give it back after starting it, is
  -- after any number n + 1 of such passes the same pending job with n + 1 more attempts, whatever
  -- the limit on attempts is.
  pub hung_passes-waiting :
      (n attempts updated_at : ℕ)
      → hung_passes owner_is_dead f x limit lease max_attempts owner now
          (suc n)
          (waiting f x agent_id occurrence error created_at updated_at attempts)
        ≡ waiting f x agent_id occurrence error created_at now (suc n + attempts)
  unfolding hung_passes
  hung_passes-waiting zero attempts updated_at =
      hung_pass-waiting attempts updated_at
      ∙ ap (waiting f x agent_id occurrence error created_at now) (omega arith)
  hung_passes-waiting (suc n) attempts updated_at = rw (hung_pass-waiting attempts updated_at) (
      hung_passes-waiting n (suc attempts) now
      ∙ ap (waiting f x agent_id occurrence error created_at now) (omega arith))
