-- ===== src/Security/Hints.antt =====
-- The search for a hint ends: the loop of `_spans` (src/mark/security/windows.py).
use mark_sdk.Prelude.{
  ℕ, zero, suc, ◌+◌, ◌≤◌, ◌<◌, String, ◌≡◌, refl, sym, ap, ◌∙◌, none, some, [], ◌∷◌, inl, inr,
  arith, Option-cases,
}
use mark_sdk.Security.Windows.{Lowered, window, hint_spans}

hint_spans-none :
    (text : Lowered) (radius : ℕ) (hint : String) (fuel from : ℕ)
    → text.find hint from ≡ none
    → hint_spans text radius (suc fuel) hint from ≡ []
unfolding hint_spans
hint_spans-none text radius hint fuel from n = rw (n, hint_spans) refl

hint_spans-some :
    (text : Lowered) (radius : ℕ) (hint : String) (fuel from at : ℕ)
    → text.find hint from ≡ some at
    → hint_spans text radius (suc fuel) hint from
      ≡ window text radius hint at ∷ hint_spans text radius fuel hint (at + text.length_of hint)
unfolding hint_spans
hint_spans-some text radius hint fuel from at e = rw (e, hint_spans) refl

module _ (text : Lowered) (radius : ℕ) (hint : String)
    (found_after : (from at : ℕ)
      → text.find hint from ≡ some at
      → (from ≤ at) × (at + text.length_of hint ≤ text.size))
    (not_empty : 0 < text.length_of hint) where
  not_found : (from : ℕ) → text.size ≤ from → text.find hint from ≡ none
  not_found from h = elim (Option-cases (text.find hint from)) [
    | inl n ↦ n
    | inr (at, e) ↦
        let (after, within) = found_after from at e in
        absurd (omega (arith, h, after, within, not_empty))
  ]

  -- Any two amounts of fuel that reach the end of the text give the same spans.
  pub hint_spans-enough :
      (fuel fuel' from : ℕ)
      → text.size ≤ from + fuel
      → text.size ≤ from + fuel'
      → hint_spans text radius fuel hint from ≡ hint_spans text radius fuel' hint from
  unfolding hint_spans
  hint_spans-enough zero zero from h h' = refl
  hint_spans-enough zero (suc fuel') from h h' =
      sym (hint_spans-none text radius hint fuel' from (not_found from (omega (arith, h))))
  hint_spans-enough (suc fuel) zero from h h' =
      hint_spans-none text radius hint fuel from (not_found from (omega (arith, h')))
  hint_spans-enough (suc fuel) (suc fuel') from h h' = elim (Option-cases (text.find hint from)) [
    | inl n ↦
        hint_spans-none text radius hint fuel from n
        ∙ sym (hint_spans-none text radius hint fuel' from n)
    | inr (at, e) ↦
        let (after, within) = found_after from at e in
        hint_spans-some text radius hint fuel from at e
        ∙ (ap (◌∷◌ (window text radius hint at)) (
              hint_spans-enough fuel fuel' (at + text.length_of hint)
                (omega (arith, h, after, not_empty)) (omega (arith, h', after, not_empty)))
            ∙ sym (hint_spans-some text radius hint fuel' from at e))
  ]
