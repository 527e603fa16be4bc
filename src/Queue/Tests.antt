-- ===== src/Queue/Tests.antt =====
-- Runs of the queue.
use mark_sdk.Prelude.{◌≡◌, refl, String, Bool, false, none, [], ◌∷◌}
use mark_sdk.Queue.Table.{done, Queue, is_job}
use mark_sdk.Queue.Ops.{fact_job_enqueue, fact_job_claim}
use mark_sdk.Queue.Done.{IsDone}
use mark_sdk.Queue.Stays.{idle, after, enqueue, claim, settled_forever}
use mark_sdk.Queue.Retry.{waiting, hung_passes, hung_passes-waiting}

abbrev nobody_dies : String → Bool
nobody_dies owner = false

abbrev done_queue : Queue
done_queue = record {
  jobs =
      record {
        fragment_id = "f1";
        extractor = "llm";
        agent_id = "director";
        occurrence = 0;
        status = done;
        attempts = 1;
        error = none;
        created_at = 5;
        updated_at = 9;
      }
      ∷ [];
  owners = [];
}

done_queue-IsDone : IsDone "f1" "llm" done_queue
unfolding IsDone is_job
done_queue-IsDone = (refl, ((λ h. refl), tt))

settled_forever_example :
    IsDone "f1" "llm"
      (fact_job_claim nobody_dies "llm" none 4 300 3 none "v1" 20
        (fact_job_enqueue "director" (("f1", 0) ∷ ("f2", 0) ∷ []) "llm" 10 done_queue).1).1
settled_forever_example =
    settled_forever "f1" "llm" nobody_dies
      (after (after idle (enqueue "director" (("f1", 0) ∷ ("f2", 0) ∷ []) "llm" 10 done_queue)) (
        claim "llm" none 4 300 3 none "v1" 20
          (fact_job_enqueue "director" (("f1", 0) ∷ ("f2", 0) ∷ []) "llm" 10 done_queue).1))
      done_queue-IsDone

-- Five passes, though three attempts are the limit.
hung_passes-waiting_example :
    hung_passes nobody_dies "f1" "llm" 3 300 3 "v1" 20 5
      (waiting "f1" "llm" "director" 0 none 5 5 0)
    ≡ waiting "f1" "llm" "director" 0 none 5 20 5
hung_passes-waiting_example =
    hung_passes-waiting nobody_dies "f1" "llm" 3 300 3 "v1" 20 "director" 0 none 5 4 0 5
