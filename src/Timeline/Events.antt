-- ===== src/Timeline/Events.antt =====
-- The events of a timeline (`build_timeline` of src/mark/memory/timeline_build.py once the memories
-- and the facts are read, and `latest` of src/mark/memory/timeline.py).
use mark_sdk.Prelude.{
  ℕ, ◌-◌, ◌/◌, String, Bool, true, false, Option, none, some, List, [], ◌∷◌, ◌++◌, not, ◌&&◌, ◌==◌,
  map, ltb, leb, nat_eq, if◌then◌else◌, is_some, filter, length, drop, get_last?, is_in, Dict,
  dict_get, dict_put,
}
use Prim.Native.String.{◌++◌ as join}
use mark_sdk.Timeline.Order.{Basis, declared, unknown, two_clock_order}

-- A row of the fact history, with the fields that a timeline reads.
pub record HistoryFact : Type 0 where
  pub id : String
  pub subject : String
  pub attribute : String
  pub value : String
  pub valid_from : ℕ
  pub recorded_at : Option ℕ
  pub source_fragment_id : Option String

-- A fragment that names the subject, with its declared time.
pub record Mention : Type 0 where
  pub fragment_id : String
  pub content : String
  pub created_at : ℕ
  pub declared_time : Option ℕ

pub data EventKind : Type 0 where
  fact memory : EventKind

-- The keyword dict of an event.
pub record Candidate : Type 0 where
  pub when : ℕ
  pub kind : EventKind
  pub text : String
  pub dated : Bool
  pub fragment_id : Option String
  pub fact_id : Option String
  pub stored_at : ℕ

pub record TimelineEvent : Type 0 where
  pub keywords : Candidate
  pub basis : Basis
  pub same_day : Option (ℕ × ℕ)

pub record SubjectTimeline : Type 0 where
  pub events : List TimelineEvent
  pub truncated : ℕ

unfoldable pub fact_candidate : HistoryFact → Candidate
fact_candidate f = record {
  when = f.valid_from;
  kind = EventKind.fact;
  text = join (join f.subject (join " " f.attribute)) (join " = " f.value);
  dated = true;
  fragment_id = none;
  fact_id = some f.id;
  stored_at = elim f.recorded_at [ none ↦ f.valid_from | some n ↦ n ];
}

unfoldable pub mention_candidate : Mention → Candidate
mention_candidate m = record {
  when = elim m.declared_time [ none ↦ m.created_at | some n ↦ n ];
  kind = EventKind.memory;
  text = m.content;
  dated = is_some m.declared_time;
  fragment_id = some m.fragment_id;
  fact_id = none;
  stored_at = m.created_at;
}

-- source and source in by_fragment and source not in folded
unfoldable pub folds : List String → Dict String → String → Bool
folds by_fragment folded source =
    not (source == "") && (is_in by_fragment source && not (is_some (dict_get source folded)))

-- The fragment that a fact is folded into.
unfoldable pub fold_target : List String → Dict String → HistoryFact → Option String
fold_target by_fragment folded f = elim f.source_fragment_id [
  | none ↦ none
  | some source ↦ if folds by_fragment folded source then some source else none
]

-- The loop over the facts: the folded ones and the candidates.
unfoldable pub collect_facts :
    List String → List HistoryFact → Dict String → List Candidate → Dict String × List Candidate
collect_facts by_fragment [] folded candidates = (folded, candidates)
collect_facts by_fragment (f ∷ fs) folded candidates = elim (fold_target by_fragment folded f) [
  | some source ↦ collect_facts by_fragment fs (dict_put source f.id folded) candidates
  | none ↦ collect_facts by_fragment fs folded (candidates ++ fact_candidate f ∷ [])
]

-- The body of the loop that gives memories the id of their fact.
unfoldable pub with_fact_id : Dict String → Candidate → Candidate
with_fact_id folded c = elim c.fragment_id [
  | none ↦ c
  | some i ↦ elim (dict_get i folded) [ none ↦ c | some id ↦ record c { fact_id = some id } ]
]

unfoldable pub candidates_of : List Mention → List HistoryFact → List Candidate
candidates_of memories facts =
    let (folded, candidates) = collect_facts (map (λ m. m.fragment_id) memories) facts [] [] in
    map (with_fact_id folded) (candidates ++ map mention_candidate memories)

unfoldable pub time_of : Candidate → Option ℕ
time_of c = if c.dated then some c.when else none

-- when.date(), as the day in UTC: the date in another time zone, where a time was given with one,
-- is not modelled
abbrev pub day_of : Candidate → ℕ
day_of c = c.when / 86400000000

abbrev pub is_declared : Basis → Bool
is_declared declared = true
is_declared _ = false

-- A member of the group of that day.
unfoldable pub in_group : ℕ → Candidate × Basis → Bool
in_group day (c, basis) = is_declared basis && nat_eq (day_of c) day

-- _label_same_day, with the events before the one that is labelled.
unfoldable pub label_same_day :
    List (Candidate × Basis) → List (Candidate × Basis) → List TimelineEvent
label_same_day earlier [] = []
label_same_day earlier ((c, basis) ∷ rest) =
    let k : ℕ = length (filter (in_group (day_of c)) (earlier ++ (c, basis) ∷ [])) in
    let m : ℕ = length (filter (in_group (day_of c)) (earlier ++ (c, basis) ∷ rest)) in
    record {
      keywords = c;
      basis = basis;
      same_day = if is_declared basis && ltb 1 m then some (k, m) else none;
    }
    ∷ label_same_day (earlier ++ (c, basis) ∷ []) rest

unfoldable pub is_within : Option ℕ → Option ℕ → TimelineEvent → Bool
is_within low high e =
    elim low [ none ↦ true | some n ↦ leb n e.keywords.when ]
    && elim high [ none ↦ true | some n ↦ leb e.keywords.when n ]

unfoldable pub trim : Option ℕ → List TimelineEvent → SubjectTimeline
trim none events = record { events = events; truncated = 0 }
trim (some limit) events =
    if ltb limit (length events)
    then (let truncated : ℕ = length events - limit in
        record { events = drop truncated events; truncated = truncated })
    else record { events = events; truncated = 0 }

unfoldable pub build_timeline :
    List Mention → List HistoryFact → Option ℕ → Option ℕ → Option ℕ → SubjectTimeline
build_timeline memories facts limit low high = trim limit (
    filter (is_within low high) (
      label_same_day []
        (two_clock_order time_of (λ c. c.stored_at) (candidates_of memories facts))))

abbrev pub is_known : TimelineEvent → Bool
is_known e = elim e.basis [ unknown ↦ false | _ ↦ true ]

-- The first one, from the end, whose position is known.
unfoldable pub latest : SubjectTimeline → Option TimelineEvent
latest t = get_last? (filter is_known t.events)
