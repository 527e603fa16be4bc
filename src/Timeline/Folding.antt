-- ===== src/Timeline/Folding.antt =====
-- The facts that are folded into memories (src/mark/memory/timeline_build.py).
use mark_sdk.Prelude.{
  String, ◌≡◌, refl, sym, subst, ◌∙◌, Bool, true, false, none, some, List, [], ◌∷◌, ◌++◌, ◌==◌, inl,
  inr, arith, Bool-cases, Option-cases, ◌⊎◌, any, any-append, any-append_left, All, All-append,
  is_in, Dict, dict_get, dict_put, dict_get-dict_put, eq_refl, eq_sound, some_eq,
}
use mark_sdk.Timeline.Events.{
  HistoryFact, Candidate, fact_candidate, folds, fold_target, collect_facts,
}

unfoldable pub carries : String → Candidate → Bool
carries id c = elim c.fact_id [ none ↦ false | some j ↦ j == id ]

module _ (by_fragment : List String) where
  -- The fact has its own candidate, or is the one that a collected fragment was extracted for.
  unfoldable pub Covered : Dict String → List Candidate → HistoryFact → Type 0
  Covered folded candidates f =
      (any (carries f.id) candidates ≡ true)
      ⊎ ((source : String) × ((is_in by_fragment source ≡ true)
            × (dict_get source folded ≡ some f.id)))

  Covered-append :
      (folded : Dict String) (cs : List Candidate) (c : Candidate) (f : HistoryFact)
      → Covered folded cs f
      → Covered folded (cs ++ c ∷ []) f
  unfolding Covered
  Covered-append folded cs c f (inl h) = inl (any-append_left (carries f.id) cs (c ∷ []) h)
  Covered-append folded cs c f (inr h) = inr h

  Covered-dict_put :
      (folded : Dict String) (cs : List Candidate) (source id : String) (f : HistoryFact)
      → dict_get source folded ≡ none
      → Covered folded cs f
      → Covered (dict_put source id folded) cs f
  unfolding Covered
  Covered-dict_put folded cs source id f fresh (inl h) = inl h
  Covered-dict_put folded cs source id f fresh (inr (other, (h, k))) = inr (
    other,
    (
      h,
      elim (Bool-cases (source == other)) [
        | inl y ↦
            absurd (cc (subst (λ i. dict_get i folded ≡ none) (eq_sound source other y) fresh, k))
        | inr n ↦ dict_get-dict_put source other id folded ∙ rw n k
      ],
    ),
  )

  folds-source :
      (folded : Dict String) (source : String)
      → folds by_fragment folded source ≡ true
      → (is_in by_fragment source ≡ true) × (dict_get source folded ≡ none)
  unfolding folds
  folds-source folded source h = elim (Option-cases (dict_get source folded)) [
    | inl n ↦ (ground arith, n)
    | inr (v, e) ↦ absurd (ground arith)
  ]

  folds-target :
      (folded : Dict String) (f : HistoryFact) (source : String)
      → fold_target by_fragment folded f ≡ some source
      → (is_in by_fragment source ≡ true) × (dict_get source folded ≡ none)
  unfolding fold_target
  folds-target folded f source h = elim (Option-cases f.source_fragment_id) [
    | inl n ↦ absurd (cc (rw (n, fold_target) at h))
    | inr (i, e) ↦ elim (Bool-cases (folds by_fragment folded i)) [
      | inl y ↦
          subst (λ j. (is_in by_fragment j ≡ true) × (dict_get j folded ≡ none))
            (some_eq i source (rw (e, y, fold_target) at h)) (folds-source folded i y)
      | inr n ↦ absurd (cc (rw (e, n, fold_target) at h))
    ]
  ]

  own : (g : HistoryFact) → any (carries g.id) (fact_candidate g ∷ []) ≡ true
  unfolding carries fact_candidate
  own g = rw eq_refl refl

  -- A fact that is not folded, and one that is.
  collect_facts-own :
      (g : HistoryFact) (gs : List HistoryFact) (folded : Dict String) (cs : List Candidate)
      → fold_target by_fragment folded g ≡ none
      → collect_facts by_fragment (g ∷ gs) folded cs
        ≡ collect_facts by_fragment gs folded (cs ++ fact_candidate g ∷ [])
  unfolding collect_facts
  collect_facts-own g gs folded cs n = rw (n, collect_facts) refl

  collect_facts-folded :
      (g : HistoryFact) (gs : List HistoryFact) (folded : Dict String) (cs : List Candidate)
      (source : String)
      → fold_target by_fragment folded g ≡ some source
      → collect_facts by_fragment (g ∷ gs) folded cs
        ≡ collect_facts by_fragment gs (dict_put source g.id folded) cs
  unfolding collect_facts
  collect_facts-folded g gs folded cs source e = rw (e, collect_facts) refl

  abbrev pub CoveredBy : Dict String × List Candidate → HistoryFact → Type 0
  CoveredBy r f = Covered r.0 r.1 f

  -- What is covered stays so.
  collect_facts-keeps :
      (fs : List HistoryFact) (folded : Dict String) (cs : List Candidate) (f : HistoryFact)
      → Covered folded cs f
      → CoveredBy (collect_facts by_fragment fs folded cs) f
  collect_facts-keeps [] folded cs f h = unfold collect_facts in h
  collect_facts-keeps (g ∷ gs) folded cs f h =
      elim (Option-cases (fold_target by_fragment folded g)) [
        | inl n ↦
            subst (λ r. CoveredBy r f) (sym (collect_facts-own g gs folded cs n))
              (collect_facts-keeps gs folded (cs ++ fact_candidate g ∷ []) f
                (Covered-append folded cs (fact_candidate g) f h))
        | inr (source, e) ↦
            subst (λ r. CoveredBy r f) (sym (collect_facts-folded g gs folded cs source e))
              (collect_facts-keeps gs (dict_put source g.id folded) cs f
                (Covered-dict_put folded cs source g.id f (folds-target folded g source e).1 h))
      ]

  -- Each fact of the loop gets covered.
  pub collect_facts-Covered :
      (fs : List HistoryFact) (folded : Dict String) (cs : List Candidate)
      → All (CoveredBy (collect_facts by_fragment fs folded cs)) fs
  unfolding Covered
  collect_facts-Covered [] folded cs = tt
  collect_facts-Covered (g ∷ gs) folded cs =
      elim (Option-cases (fold_target by_fragment folded g)) [
        | inl n ↦
            subst (λ r. All (CoveredBy r) (g ∷ gs)) (sym (collect_facts-own g gs folded cs n))
              (
                collect_facts-keeps gs folded (cs ++ fact_candidate g ∷ []) g
                    (inl (any-append (carries g.id) cs (fact_candidate g ∷ []) (own g))),
                collect_facts-Covered gs folded (cs ++ fact_candidate g ∷ []),
              )
        | inr (source, e) ↦
            subst (λ r. All (CoveredBy r) (g ∷ gs))
              (sym (collect_facts-folded g gs folded cs source e))
              (
                collect_facts-keeps gs (dict_put source g.id folded) cs g (
                    inr (
                      source,
                      (
                        (folds-target folded g source e).0,
                        dict_get-dict_put source source g.id folded ∙ rw eq_refl refl,
                      ),
                    )),
                collect_facts-Covered gs (dict_put source g.id folded) cs,
              )
      ]

  -- The collected candidates are of facts.
  pub collect_facts-no_fragment :
      (fs : List HistoryFact) (folded : Dict String) (cs : List Candidate)
      → All (λ c. c.fragment_id ≡ none) cs
      → All (λ c. c.fragment_id ≡ none) (collect_facts by_fragment fs folded cs).1
  collect_facts-no_fragment [] folded cs h = unfold collect_facts in h
  collect_facts-no_fragment (g ∷ gs) folded cs h =
      elim (Option-cases (fold_target by_fragment folded g)) [
        | inl n ↦
            subst (λ r. All (λ (c : Candidate). c.fragment_id ≡ none) r.1)
              (sym (collect_facts-own g gs folded cs n))
              (collect_facts-no_fragment gs folded (cs ++ fact_candidate g ∷ []) (
                All-append (λ c. c.fragment_id ≡ none) cs (fact_candidate g ∷ []) h
                  (unfold fact_candidate in (refl, tt))))
        | inr (source, e) ↦
            subst (λ r. All (λ (c : Candidate). c.fragment_id ≡ none) r.1)
              (sym (collect_facts-folded g gs folded cs source e))
              (collect_facts-no_fragment gs (dict_put source g.id folded) cs h)
      ]
