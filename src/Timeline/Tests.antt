-- ===== src/Timeline/Tests.antt =====
-- Timelines of a few records, and the theorems at such inputs.
use mark_sdk.Prelude.{
  ℕ, String, ◌≡◌, refl, true, Option, none, some, List, [], ◌∷◌, map, any, All, sort_by,
}
use mark_sdk.Timeline.Order.{
  declared, stored_after_dated, unknown, max_of, is_dated, declared_at, dated_le, stored_le,
  with_basis, two_clock_order,
}
use mark_sdk.Timeline.Clocks.{key_le, two_clock_le}
use mark_sdk.Timeline.Placed.{basis_of, two_clock_order-two_clock_le}
use mark_sdk.Timeline.Events.{
  HistoryFact, Mention, fact_candidate, mention_candidate, folds, fold_target, collect_facts,
  with_fact_id, candidates_of, time_of, in_group, label_same_day, is_within, trim, build_timeline,
  latest,
}
use mark_sdk.Timeline.Latest.{event_le, IsLatest, latest-build_timeline}
use mark_sdk.Timeline.Folding.{carries}
use mark_sdk.Timeline.Shown.{shows, build_timeline-shows}

program : Unit {0}
unfolding max_of is_dated declared_at dated_le stored_le with_basis two_clock_order key_le
    two_clock_le basis_of fact_candidate mention_candidate folds fold_target collect_facts
    with_fact_id candidates_of time_of in_group label_same_day is_within trim build_timeline latest
    event_le IsLatest carries shows
program = tt

abbrev mention : String → ℕ → Option ℕ → Mention
mention id created_at declared_time = record {
  fragment_id = id;
  content = id;
  created_at = created_at;
  declared_time = declared_time;
}

-- Two changes of one day, an undated line among them and a live update.
abbrev memories : List Mention
memories =
    mention "m1" 100 (some 20)
    ∷ mention "m2" 101 none
    ∷ mention "m3" 102 (some 10)
    ∷ mention "m4" 103 none
    ∷ []

abbrev history : String → Option String → HistoryFact
history id source_fragment_id = record {
  id = id;
  subject = "atlas";
  attribute = "port";
  value = "4444";
  valid_from = 15;
  recorded_at = some 90;
  source_fragment_id = source_fragment_id;
}

-- The second fact of one memory has an event of its own.
abbrev facts : List HistoryFact
facts = history "f1" (some "m3") ∷ history "f2" (some "m3") ∷ history "f3" (some "m9") ∷ []

built :
    (map (λ e. e.keywords.fact_id) (build_timeline memories facts (some 4) none none).events
      ≡ some "f3" ∷ none ∷ none ∷ none ∷ [])
    × (map (λ e. e.basis) (build_timeline memories facts (some 4) none none).events
        ≡ declared ∷ declared ∷ unknown ∷ stored_after_dated ∷ [])
unfolding program
built = (refl, refl)

abbrev of_four : ℕ → Option (ℕ × ℕ)
of_four k = some (k, 4)

same_day_labels :
    map (λ e. e.same_day) (build_timeline memories facts none none none).events
    ≡ of_four 1 ∷ of_four 2 ∷ of_four 3 ∷ of_four 4 ∷ none ∷ none ∷ []
unfolding program
same_day_labels = refl

since_late :
    (build_timeline memories facts none (some 16) (some 101)).events
    ≡ record {
      keywords = mention_candidate (mention "m1" 100 (some 20));
      basis = declared;
      same_day = some (4, 4);
    }
      ∷ record {
        keywords = mention_candidate (mention "m2" 101 none);
        basis = unknown;
        same_day = none;
      }
      ∷ []
unfolding program
since_late = refl

two_clock_order-two_clock_le_example :
    two_clock_order (λ (m : Mention). m.declared_time) (λ m. m.created_at) memories
    ≡ map
        (λ x. (x, basis_of (λ (m : Mention). m.declared_time) (λ m. m.created_at) memories x))
        (sort_by (two_clock_le (λ (m : Mention). m.declared_time) (λ m. m.created_at)) memories)
two_clock_order-two_clock_le_example =
    two_clock_order-two_clock_le (λ (m : Mention). m.declared_time) (λ m. m.created_at) memories

latest-build_timeline_example :
    IsLatest
      (build_timeline memories facts (some 4) none none).events
      (latest (build_timeline memories facts (some 4) none none))
latest-build_timeline_example = latest-build_timeline memories facts (some 4) none none

build_timeline-shows_example :
    All (λ f. any (shows f.id) (build_timeline memories facts none none none).events ≡ true) facts
build_timeline-shows_example = build_timeline-shows memories facts
