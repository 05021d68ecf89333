-- ===== src/Prelude/Results.antt =====
-- Results that are there, with what is known of them.
use mathlib.Core.Path.{◌≡◌, refl}
use mathlib.Core.Logic.{inl, inr}
use mathlib.Core.Option.{Option, none, some}
use shredstream_sdk_go.Prelude.Tests.{Option-cases}

-- There is a result, and it has the property.
pub record Gives {ℓ} {A : Type ℓ} (P : A → Type 0) (o : Option A) : Type ℓ where
  pub result : A
  pub returned : o ≡ some result
  pub holds : P result

module _ {ℓ} {A : Type ℓ} (P : A → Type 0) where
  pub Gives-some : (a : A) → P a → Gives P (some a)
  Gives-some a p = record { result = a; returned = refl; holds = p }

  -- A result that is not missing, and has the property wherever it is there.
  pub gives : (o : Option A) → ¬ (o ≡ none) → ((a : A) → o ≡ some a → P a) → Gives P o
  gives o there all = elim (Option-cases o) [
    | inl missing ↦ absurd (there missing)
    | inr (a, e) ↦ record { result = a; returned = e; holds = all a e }
  ]

-- `none` is a call that does not return, so what follows it does not run.
infixl 5 ◌>>=◌
abbrev pub ◌>>=◌ {ℓ κ} : {A : Type ℓ} {B : Type κ} → Option A → (A → Option B) → Option B
none >>= f = none
some a >>= f = f a

-- A call that is followed by another.
pub >>=-Gives {ℓ κ} :
    {A : Type ℓ} {B : Type κ} (P : A → Type 0) (R : B → Type 0) (o : Option A) (f : A → Option B)
    → Gives P o
    → ((a : A) → P a → Gives R (f a))
    → Gives R (o >>= f)
>>=-Gives P R o f first next = rw first.returned (next first.result first.holds)

-- Where both calls return, the first one has.
pub >>=-eq-some {ℓ κ} :
    {A : Type ℓ} {B : Type κ} (o : Option A) (f : A → Option B) {b : B}
    → (o >>= f) ≡ some b
    → (a : A) × (o ≡ some a) × (f a ≡ some b)
>>=-eq-some none f e = cc
>>=-eq-some (some a) f e = (a, refl, e)
