-- ===== src/Base/Fallible.antt =====
-- What a call comes to: a value, a `CopycatError` (utils/error.rs), or a panic, which is what
-- `unreachable!`, `unimplemented!`, a failed `assert!`, an `unwrap` of nothing and an index out of
-- range come to. `stuck` is the model's own: a loop on fuel used its fuel up.
use Prim.Native.String.{String}
use mathlib.Core.Path.{◌≡◌, refl, ap, ◌∙◌}
use mathlib.Core.Bool.{Bool, true, false}
use mathlib.Core.Option.{Option, none, some}

pub data CopycatError : Type 0 where
  copycat_error : String → CopycatError

pub data Outcome {ℓ} (A : Type ℓ) : Type ℓ where
  ok : A → Outcome A
  err : CopycatError → Outcome A
  panic : Outcome A
  stuck : Outcome A

infixl 5 ◌>>=◌ ◌>>◌
-- What `?` and `.await?` do: go on with the value, or stop. It computes wherever it stands.
abbrev pub ◌>>=◌ {ℓ μ} : {A : Type ℓ} {C : Type μ} → Outcome A → (A → Outcome C) → Outcome C
ok value >>= next = next value
panic >>= next = panic
stuck >>= next = stuck
err e >>= next = err e

abbrev pub ◌>>◌ {μ} : {C : Type μ} → Outcome (Unit {0}) → Outcome C → Outcome C
first >> rest = first >>= (λ _. rest)

-- `assert!(b)`.
abbrev pub assert : Bool → Outcome (Unit {0})
assert true = ok tt
assert false = panic

-- `o.unwrap()`.
abbrev pub unwrap {ℓ} : {A : Type ℓ} → Option A → Outcome A
unwrap none = panic
unwrap (some a) = ok a

-- A chain that comes to a value did so at each step.
pub >>=-eq-ok {ℓ μ} :
    {A : Type ℓ} {C : Type μ} (first : Outcome A) (next : A → Outcome C) {c : C}
    → (first >>= next) ≡ ok c
    → (value : A) × (first ≡ ok value) × (next value ≡ ok c)
>>=-eq-ok panic next runs = cc
>>=-eq-ok stuck next runs = cc
>>=-eq-ok (err e) next runs = cc
>>=-eq-ok (ok value) next runs = (value, refl, runs)

pub ok-injective {ℓ} : {A : Type ℓ} {a b : A} → ◌≡◌ {A = Outcome A} (ok a) (ok b) → a ≡ b
ok-injective h = cc

pub unwrap-eq-ok {ℓ} : {A : Type ℓ} (o : Option A) {a : A} → unwrap o ≡ ok a → o ≡ some a
unwrap-eq-ok none h = cc
unwrap-eq-ok (some b) h = cc

-- The same, for what follows from the steps: their values stand as variables there.
pub >>=-elim {ℓ μ κ} :
    {A : Type ℓ} {C : Type μ} {P : Type κ} (first : Outcome A) (next : A → Outcome C) {c : C}
    → (first >>= next) ≡ ok c
    → ((value : A) → first ≡ ok value → next value ≡ ok c → P)
    → P
>>=-elim panic next runs use_it = cc
>>=-elim stuck next runs use_it = cc
>>=-elim (err e) next runs use_it = cc
>>=-elim (ok value) next runs use_it = use_it value refl runs

-- A step that comes to a value, followed by the rest.
pub >>=-runs {ℓ μ} :
    {A : Type ℓ} {C : Type μ} {first : Outcome A} {c : Outcome C} (next : A → Outcome C) (value : A)
    → first ≡ ok value
    → next value ≡ c
    → (first >>= next) ≡ c
>>=-runs next value e f = ap (λ m. m >>= next) e ∙ f
