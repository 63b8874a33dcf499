-- ===== src/Prelude/Results.antt =====
-- A Go function that returns an error, or that may panic.
use mathlib.Core.Path.{◌≡◌, refl, subst}
use mathlib.Core.Bool.{Bool, true, false}
use mathlib.Core.Logic.{◌≢◌, ◌⊎◌, inl, inr}
use mathlib.Core.Option.{Option, none, some}
use minus_sync.Prelude.Tests.{if◌then◌else◌}

-- `panic` is a run-time fault: an index or a slice out of range.
pub data Result {ℓ κ} (E : Type ℓ) (A : Type κ) : Type (ℓ ⊔ κ) where
  ok : A → Result E A
  err : E → Result E A
  panic : Result E A

infixl 5 ◌>>=◌
abbrev pub ◌>>=◌ {ℓ κ μ} :
    {E : Type ℓ} {A : Type κ} {B : Type μ} → Result E A → (A → Result E B) → Result E B
ok a >>= f = f a
err e >>= f = err e
panic >>= f = panic

module _ {ℓ κ μ} {E : Type ℓ} {A : Type κ} {B : Type μ} where
  -- The value that `first` handed to `next`, which returned `b`.
  pub record Handed (first : Result E A) (next : A → Result E B) (b : B) : Type (ℓ ⊔ κ ⊔ μ) where
    pub value : A
    pub before : first ≡ ok value
    pub behind : next value ≡ ok b

  pub Handed-of_ok :
      {b : B} (next : A → Result E B) (first : Result E A)
      → (first >>= next) ≡ ok b
      → Handed first next b
  Handed-of_ok next panic returned = absurd (cc)
  Handed-of_ok next (err why) returned = absurd (cc)
  Handed-of_ok next (ok a) returned = record { value = a; before = refl; behind = returned }

-- The tests `if len(…) < n { return err }` around a read, and a read that has none.
abbrev pub or_err {ℓ κ} : {E : Type ℓ} {A : Type κ} → E → Option A → Result E A
or_err e none = err e
or_err e (some a) = ok a

abbrev pub or_panic {ℓ κ} : {E : Type ℓ} {A : Type κ} → Option A → Result E A
or_panic none = panic
or_panic (some a) = ok a

abbrev pub map_err {ℓ κ μ} :
    {E : Type ℓ} {F : Type κ} {A : Type μ} → (E → F) → Result E A → Result F A
map_err f (ok a) = ok a
map_err f (err e) = err (f e)
map_err f panic = panic

pub ok_injective {ℓ κ} :
    {E : Type ℓ} {A : Type κ} {a b : A} → ◌≡◌ {A = Result E A} (ok a) (ok b) → a ≡ b
ok_injective e = cc

pub err-ne-ok {ℓ κ} :
    {E : Type ℓ} {A : Type κ} {e : E} {a : A} → ◌≡◌ {A = Result E A} (err e) (ok a) → ⊥
err-ne-ok q = cc

-- Every value that `r` returns without an error satisfies `P`.
pub record Ensures {ℓ κ μ} {E : Type ℓ} {A : Type κ} (P : A → Type μ) (r : Result E A)
    : Type (ℓ ⊔ κ ⊔ μ) where
  pub at : (a : A) → r ≡ ok a → P a

module _ {ℓ κ μ} {E : Type ℓ} {A : Type κ} {P : A → Type μ} where
  pub Ensures-ok : (a : A) → P a → Ensures {E = E} P (ok a)
  Ensures-ok a h = record { at = λ b e. subst P (ok_injective e) h }

  pub Ensures-err : (e : E) → Ensures P (err e)
  Ensures-err e = record { at = λ b q. absurd (cc) }

  pub Ensures-panic : Ensures {E = E} P panic
  Ensures-panic = record { at = λ b q. absurd (cc) }

  pub Ensures-or_err :
      (e : E) (o : Option A) → ((a : A) → o ≡ some a → P a) → Ensures P (or_err e o)
  Ensures-or_err e none h = Ensures-err e
  Ensures-or_err e (some a) h = Ensures-ok a (h a refl)

  pub Ensures-or_panic :
      (o : Option A) → ((a : A) → o ≡ some a → P a) → Ensures {E = E} P (or_panic o)
  Ensures-or_panic none h = record { at = λ b q. absurd (cc) }
  Ensures-or_panic (some a) h = Ensures-ok a (h a refl)

  pub Ensures-if :
      (b : Bool) (r s : Result E A)
      → (b ≡ true → Ensures P r)
      → (b ≡ false → Ensures P s)
      → Ensures P (if b then r else s)
  Ensures-if true r s h k = h refl
  Ensures-if false r s h k = k refl

module _ {ℓ κ μ ν ξ} {E : Type ℓ} {A : Type κ} {B : Type μ} {P : B → Type ν} (Q : A → Type ξ) where
  pub Ensures-bind :
      (m : Result E A) (f : A → Result E B)
      → Ensures Q m
      → ((a : A) → Q a → Ensures P (f a))
      → Ensures P (m >>= f)
  Ensures-bind (ok a) f h k = k a (h.at a refl)
  Ensures-bind (err e) f h k = Ensures-err e
  Ensures-bind panic f h k = record { at = λ b q. absurd (cc) }

-- The code returned, with a value or an error.
pub data Returns {ℓ κ} {E : Type ℓ} {A : Type κ} : Result E A → Type (ℓ ⊔ κ) where
  returned : (a : A) → Returns (ok a)
  failed : (e : E) → Returns (err e)

module _ {ℓ κ} {E : Type ℓ} {A : Type κ} where
  pub Returns-or_err : (e : E) (o : Option A) → Returns (or_err e o)
  Returns-or_err e none = failed e
  Returns-or_err e (some a) = returned a

  pub or_err-eq-ok : (e : E) (o : Option A) {a : A} → or_err e o ≡ ok a → o ≡ some a
  or_err-eq-ok e none q = cc
  or_err-eq-ok e (some a) q = cc

  pub Returns-ne-panic : {r : Result E A} → Returns r → r ≢ panic
  Returns-ne-panic (returned a) e = cc
  Returns-ne-panic (failed e) q = cc

module _ {ℓ κ μ} {E : Type ℓ} {A : Type κ} {B : Type μ} where
  pub Returns-bind :
      {m : Result E A} (f : A → Result E B)
      → Returns m
      → ((a : A) → m ≡ ok a → Returns (f a))
      → Returns (m >>= f)
  Returns-bind f (returned a) k = k a refl
  Returns-bind f (failed e) k = failed e

module _ {ℓ κ} {E : Type ℓ} {A : Type κ} where
  pub Returns-if :
      (b : Bool) (r s : Result E A)
      → (b ≡ true → Returns r)
      → (b ≡ false → Returns s)
      → Returns (if b then r else s)
  Returns-if true r s h k = h refl
  Returns-if false r s h k = k refl

-- To split on a computed result and keep the equation.
pub Result-cases {ℓ κ} :
    {E : Type ℓ} {A : Type κ} (r : Result E A)
    → ((a : A) × (r ≡ ok a)) ⊎ (((e : E) × (r ≡ err e)) ⊎ (r ≡ panic))
Result-cases (ok a) = inl (a, refl)
Result-cases (err e) = inr (inl (e, refl))
Result-cases panic = inr (inr refl)
