-- ===== src/Queue/Table.antt =====
-- The tables `fact_jobs` and `fact_job_owners` (src/mark/store/_sqlite/fact_jobs.py).
use mark_sdk.Prelude.{
  ℕ, String, Bool, true, false, Option, List, [], ◌∷◌, ◌++◌, not, ◌&&◌, ◌==◌, if◌then◌else◌, map,
  filter, any,
}

pub data Status : Type 0 where
  pending running done failed : Status

abbrev pub is_pending : Status → Bool
is_pending pending = true
is_pending _ = false

abbrev pub is_running : Status → Bool
is_running running = true
is_running _ = false

abbrev pub is_done : Status → Bool
is_done done = true
is_done _ = false

pub record Job : Type 0 where
  pub fragment_id : String
  pub extractor : String
  pub agent_id : String
  pub occurrence : ℕ
  pub status : Status
  pub attempts : ℕ
  pub error : Option String
  pub created_at : ℕ
  pub updated_at : ℕ

pub record Owner : Type 0 where
  pub fragment_id : String
  pub extractor : String
  pub owner : String

pub record Queue : Type 0 where
  pub jobs : List Job
  pub owners : List Owner

-- WHERE fragment_id = ? AND extractor = ?
unfoldable pub is_job : String → String → Job → Bool
is_job f x j = (j.fragment_id == f) && (j.extractor == x)

unfoldable pub is_owner_row : String → String → Owner → Bool
is_owner_row f x o = (o.fragment_id == f) && (o.extractor == x)

-- UPDATE fact_jobs SET ... WHERE test
unfoldable pub update_where : (Job → Bool) → (Job → Job) → Queue → Queue
update_where test g q = record q { jobs = map (λ j. if test j then g j else j) q.jobs }

unfoldable pub delete_owner : String → String → Queue → Queue
delete_owner f x q = record q { owners = filter (λ o. not (is_owner_row f x o)) q.owners }

-- INSERT OR REPLACE INTO fact_job_owners
unfoldable pub put_owner : String → String → String → Queue → Queue
put_owner f x owner q = record q {
  owners =
      filter (λ o. not (is_owner_row f x o)) q.owners
      ++ record { fragment_id = f; extractor = x; owner = owner } ∷ [];
}

unfoldable pub has_owner : String → String → String → Queue → Bool
has_owner f x owner q = any (λ o. is_owner_row f x o && (o.owner == owner)) q.owners
