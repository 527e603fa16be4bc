-- ===== src/Prelude/Outcome.antt =====
-- Results that may be missing: what holds of the result, if there is one.
use mathlib.Core.Path.{◌≡◌, subst}
use mathlib.Core.Option
use mathlib.Core.Option.{Option, none, some}

abbrev pub OnSome {ℓ κ} : {A : Type ℓ} → (A → Type κ) → Option A → Type κ
OnSome P none = Unit
OnSome P (some a) = P a

pub OnSome-map {ℓ κ μ} :
    {A : Type ℓ} {B : Type κ} (f : A → B) (P : B → Type μ) (o : Option A)
    → OnSome (λ a. P (f a)) o
    → OnSome P (Option.map f o)
OnSome-map f P none h = tt
OnSome-map f P (some a) h = h

pub OnSome-bind {ℓ κ μ ν} :
    {A : Type ℓ} {B : Type κ} (P : A → Type μ) (Q : B → Type ν) (f : A → Option B) (o : Option A)
    → ((a : A) → P a → OnSome Q (f a))
    → OnSome P o
    → OnSome Q (Option.bind o f)
unfolding Option.bind
OnSome-bind P Q f none i h = tt
OnSome-bind P Q f (some a) i h = i a h

pub OnSome-imp {ℓ κ μ} :
    {A : Type ℓ} (P : A → Type κ) (Q : A → Type μ)
    → ((a : A) → P a → Q a)
    → (o : Option A) → OnSome P o
    → OnSome Q o
OnSome-imp P Q i none h = tt
OnSome-imp P Q i (some a) h = i a h

pub OnSome-eq {ℓ κ} :
    {A : Type ℓ} (P : A → Type κ) (o : Option A) (a : A) → OnSome P o → o ≡ some a → P a
OnSome-eq P o a h e = subst (OnSome P) e h
