-- ===== src/Timeline/Shown.antt =====
-- Which facts a timeline shows (src/mark/memory/timeline_build.py).
use mark_sdk.Prelude.{
  String, ◌≡◌, refl, sym, ap, subst, ◌∙◌, Bool, true, none, some, List, [], ◌∷◌, ◌++◌, map, ◌==◌,
  inl, inr, arith, Bool-cases, any, any-append, any-append_left, All, All-imp, map-id_of_All,
  map-append, is_in, Dict, dict_get, any-sort_by, any-filter, eq_refl, eq_sound,
}
use mark_sdk.Timeline.Order.{Basis, two_clock_order}
use mark_sdk.Timeline.Clocks.{two_clock_le}
use mark_sdk.Timeline.Placed.{fst-two_clock_order}
use mark_sdk.Timeline.Events.{
  Mention, HistoryFact, Candidate, TimelineEvent, mention_candidate, collect_facts, with_fact_id,
  candidates_of, time_of, label_same_day, is_within, trim, build_timeline,
}
use mark_sdk.Timeline.Folding.{
  carries, Covered, CoveredBy, collect_facts-Covered, collect_facts-no_fragment,
}

-- The event stands for the fact with that id.
unfoldable pub shows : String → TimelineEvent → Bool
shows id e = carries id e.keywords

any-cons_right {ℓ} :
    {A : Type ℓ} (p : A → Bool) (x : A) (xs : List A) → any p xs ≡ true → any p (x ∷ xs) ≡ true
any-cons_right p x xs h = ground arith

-- A memory of the folded fragment carries the id of the fact.
carries-mention :
    (folded : Dict String) (source id : String) (ms : List Mention)
    → dict_get source folded ≡ some id
    → is_in (map (λ m. m.fragment_id) ms) source ≡ true
    → any (carries id) (map (with_fact_id folded) (map mention_candidate ms)) ≡ true
unfolding carries with_fact_id mention_candidate
carries-mention folded source id [] e h = absurd (ground arith)
carries-mention folded source id (m ∷ ms) e h = elim (Bool-cases (m.fragment_id == source)) [
  | inl y ↦
      let here : dict_get m.fragment_id folded ≡ some id =
        subst (λ i. dict_get i folded ≡ some id) (sym (eq_sound m.fragment_id source y)) e in
      rw (with_fact_id, here, eq_refl) refl
  | inr n ↦
      any-cons_right (carries id) (with_fact_id folded (mention_candidate m))
        (map (with_fact_id folded) (map mention_candidate ms))
        (carries-mention folded source id ms e (rw n at h))
]

with_fact_id-id :
    (folded : Dict String) (cs : List Candidate)
    → All (λ c. c.fragment_id ≡ none) cs
    → map (with_fact_id folded) cs ≡ cs
unfolding with_fact_id
with_fact_id-id folded cs h =
    map-id_of_All (with_fact_id folded) cs
      (All-imp (λ c. c.fragment_id ≡ none) (λ c. with_fact_id folded c ≡ c) (λ c e. rw e refl) cs h)

any-label_same_day :
    (id : String) (earlier xs : List (Candidate × Basis))
    → any (carries id) (map (λ x. x.0) xs) ≡ true
    → any (shows id) (label_same_day earlier xs) ≡ true
unfolding label_same_day shows
any-label_same_day id earlier [] h = h
any-label_same_day id earlier ((c, basis) ∷ xs) h =
    ground (arith, any-label_same_day id (earlier ++ (c, basis) ∷ []) xs)

-- A covered fact has a candidate that carries its id.
carries-candidates_of :
    (memories : List Mention) (facts : List HistoryFact) (f : HistoryFact)
    → CoveredBy
        (map (λ m. m.fragment_id) memories)
        (collect_facts (map (λ m. m.fragment_id) memories) facts [] [])
        f
    → any (carries f.id) (candidates_of memories facts) ≡ true
unfolding candidates_of Covered
carries-candidates_of memories facts f c =
    let by : List String = map (λ m. m.fragment_id) memories in
    let (folded, cs) = collect_facts by facts [] [] in
    let with_id : Candidate → Candidate = with_fact_id folded in
    let ms : List Candidate = map mention_candidate memories in
    let own_kept : map with_id cs ≡ cs =
      with_fact_id-id folded cs (collect_facts-no_fragment by facts [] [] tt) in
    subst (λ xs. any (carries f.id) xs ≡ true) (sym (map-append with_id cs ms))
      (elim c [
        | inl h ↦ any-append_left (carries f.id) (map with_id cs) (map with_id ms) (rw own_kept h)
        | inr (source, (there, e)) ↦
            any-append (carries f.id) (map with_id cs) (map with_id ms)
              (carries-mention folded source f.id memories e there)
      ])

-- A timeline without bounds and limit shows every fact of the history that it is given: an event
-- carries its id, either its own one or that of the collected memory that it was folded into,
-- however many facts name the same memory.
pub build_timeline-shows :
    (memories : List Mention) (facts : List HistoryFact)
    → All (λ f. any (shows f.id) (build_timeline memories facts none none none).events ≡ true) facts
unfolding build_timeline trim is_within
build_timeline-shows memories facts =
    let by : List String = map (λ m. m.fragment_id) memories in
    let cs : List Candidate = candidates_of memories facts in
    let ordered : List (Candidate × Basis) = two_clock_order time_of (λ c. c.stored_at) cs in
    All-imp (CoveredBy by (collect_facts by facts [] []))
      (λ f. any (shows f.id) (build_timeline memories facts none none none).events ≡ true)
      (λ f c.
        any-filter (is_within none none) (shows f.id) (label_same_day [] ordered)
        ∙ any-label_same_day f.id [] ordered (
            ap (any (carries f.id)) (fst-two_clock_order time_of (λ c. c.stored_at) cs)
            ∙ (any-sort_by (two_clock_le time_of (λ c. c.stored_at)) (carries f.id) cs
                ∙ carries-candidates_of memories facts f c)))
      facts (collect_facts-Covered by facts [] [])
