-- ===== src/Security/Typos.antt =====
-- The Luhn test on numbers that differ in one digit (src/mark/security/checksums.py).
use mathlib.Core.List.{reverse-append, reverse-cons}
use mark_sdk.Prelude.{
  append_assoc, ℕ, ◌≡◌, ◌≢◌, ap, ◌∙◌, Bool, true, false, not, List, [], ◌∷◌, ◌++◌, ◌+◌, ◌%◌, ◌≤◌,
  ◌<◌, reverse, arith,
}
use mark_sdk.Security.Checksums.{Digits, weigh, luhn_total, luhn_valid}

weigh-lt : (odd : Bool) (v : ℕ) → v ≤ 9 → weigh odd v < 10
unfolding weigh
weigh-lt false v h = omega (arith, h)
weigh-lt true v h = ground arith

weigh-injective : (odd : Bool) (v w : ℕ) → v ≤ 9 → w ≤ 9 → weigh odd v ≡ weigh odd w → v ≡ w
unfolding weigh
weigh-injective false v w h k e = e
weigh-injective true v w h k e = ground arith

total_of_two : (r m n : ℕ) → m < 10 → n < 10 → m ≢ n → (r + m) % 10 ≡ 0 → (r + n) % 10 ≢ 0
total_of_two r m n h k d e = omega (arith, h, k, d, e)

module _ {C : Type 0} (c : Digits C) where
  -- The total as a function of one of the digits: a constant and that digit's part.
  total-around :
      (odd : Bool) (before after : List C)
      → (rest : ℕ) × ((o : Bool) × ((d : C)
            → luhn_total c odd (before ++ d ∷ after) ≡ rest + weigh o (c.int d)))
  unfolding luhn_total
  total-around odd [] after = (luhn_total c (not odd) after, (odd, λ d. omega arith))
  total-around odd (x ∷ before) after =
      let (rest, (o, eq)) = total-around (not odd) before after in
      (weigh odd (c.int x) + rest, (o, λ d. omega (arith, eq d)))

  reverse-around :
      (before after : List C) (d : C)
      → reverse (before ++ d ∷ after) ≡ reverse after ++ d ∷ reverse before
  reverse-around before after d =
      reverse-append before (d ∷ after)
      ∙ (ap (λ zs. zs ++ reverse before) (reverse-cons d after)
          ∙ append_assoc (reverse after) (d ∷ []) (reverse before))

  total_of_valid :
      (digits : List C) → luhn_valid c digits ≡ true → luhn_total c false (reverse digits) % 10 ≡ 0
  unfolding luhn_valid
  total_of_valid digits h = ground arith

  invalid_of_total :
      (digits : List C) → luhn_total c false (reverse digits) % 10 ≢ 0 → luhn_valid c digits ≡ false
  unfolding luhn_valid
  invalid_of_total digits h = ground arith

  -- If the digits of a text pass luhn_valid, then they fail it after any one of them is replaced
  -- by a digit of another value (values at most 9), wherever it stands.
  pub luhn_valid_typo :
      (before after : List C) (d e : C)
      → c.int d ≤ 9
      → c.int e ≤ 9
      → c.int d ≢ c.int e
      → luhn_valid c (before ++ d ∷ after) ≡ true
      → luhn_valid c (before ++ e ∷ after) ≡ false
  luhn_valid_typo before after d e h k ne v =
      let (rest, (o, eq)) = total-around false (reverse after) (reverse before) in
      invalid_of_total (before ++ e ∷ after) (
        rw (reverse-around before after e, eq e)
          (total_of_two rest (weigh o (c.int d)) (weigh o (c.int e)) (weigh-lt o (c.int d) h)
            (weigh-lt o (c.int e) k) (λ same. ne (weigh-injective o (c.int d) (c.int e) h k same))
            (rw (reverse-around before after d, eq d) at (total_of_valid (before ++ d ∷ after) v))))
