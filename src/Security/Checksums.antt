-- ===== src/Security/Checksums.antt =====
-- `luhn_valid` (src/mark/security/checksums.py) on the digits of the text. What re and int say of a
-- character is a parameter.
use mark_sdk.Prelude.{
  ℕ, Bool, true, false, not, ◌&&◌, ◌||◌, List, [], ◌∷◌, ◌+◌, ◌-◌, ◌*◌, ◌%◌, ltb, leb, nat_eq,
  length, all, reverse, if◌then◌else◌,
}

pub record Digits (C : Type 0) : Type 0 where
  pub int : C → ℕ
  pub is_issuer : C → Bool
  pub same : C → C → Bool

-- One digit's part of the total; every second one is doubled.
unfoldable pub weigh : Bool → ℕ → ℕ
weigh false value = value
weigh true value = if ltb 9 (value * 2) then value * 2 - 9 else value * 2

module _ {C : Type 0} (c : Digits C) where
  unfoldable pub luhn_total : Bool → List C → ℕ
  luhn_total odd [] = 0
  luhn_total odd (d ∷ ds) = weigh odd (c.int d) + luhn_total (not odd) ds

  unfoldable pub starts_with_issuer : List C → Bool
  starts_with_issuer [] = false
  starts_with_issuer (d ∷ ds) = c.is_issuer d

  -- len(set(digits)) == 1
  unfoldable pub is_repeated : List C → Bool
  is_repeated [] = false
  is_repeated (d ∷ ds) = all (c.same d) ds

  unfoldable pub luhn_valid : List C → Bool
  luhn_valid digits =
      if not (leb 13 (length digits) && leb (length digits) 19) || not (starts_with_issuer digits)
      then false
      else if is_repeated digits
      then false
      else nat_eq (luhn_total false (reverse digits) % 10) 0
