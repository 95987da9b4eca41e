-- ===== src/Base/Results.antt =====
-- Results of calls that fail with an error of some type, and postconditions of such calls.
use mathlib.Core.Path.{◌≡◌, refl, subst}
use mathlib.Core.Bool.{Bool, true, false}
use mathlib.Core.Option.{Option, none, some}
use edge_scpoe.Base.Tests.{if◌then◌else◌}

pub data Result {ℓ κ} (E : Type ℓ) (A : Type κ) : Type (ℓ ⊔ κ) where
  ok : A → Result E A
  err : E → Result E A

-- `return false` ends the caller, with the error that was set.
infixl 5 ◌>>=◌
abbrev pub ◌>>=◌ {ℓ κ μ} :
    {E : Type ℓ} {A : Type κ} {B : Type μ} → Result E A → (A → Result E B) → Result E B
err e >>= next = err e
ok a >>= next = next a

module _ {ℓ} {E : Type ℓ} where
  infixl 5 ◌>>◌
  abbrev pub ◌>>◌ {κ} : {B : Type κ} → Result E (Unit {0}) → Result E B → Result E B
  err e >> next = err e
  ok done >> next = next

  abbrev pub fail_if : Bool → E → Result E (Unit {0})
  fail_if true e = err e
  fail_if false e = ok tt

  abbrev pub or_fail {κ} : {A : Type κ} → Option A → E → Result E A
  or_fail none e = err e
  or_fail (some a) e = ok a

  -- A postcondition of success, and its rules for the parts of a chain.
  abbrev pub Ensures {κ μ} : {A : Type κ} → (A → Type μ) → Result E A → Type μ
  Ensures P (ok a) = P a
  Ensures P (err e) = Unit

  pub Ensures-then {κ μ ν} :
      {A : Type κ} {B : Type μ} (P : B → Type ν) (m : Result E A) (next : A → Result E B)
      → ((a : A) → m ≡ ok a → Ensures P (next a))
      → Ensures P (m >>= next)
  Ensures-then P (ok a) next h = h a refl
  Ensures-then P (err e) next h = tt

  pub Ensures-bind {κ μ ν ξ} :
      {A : Type κ} {B : Type μ} (Q : A → Type ν) (P : B → Type ξ) (m : Result E A)
      (next : A → Result E B)
      → Ensures Q m
      → ((a : A) → Q a → Ensures P (next a))
      → Ensures P (m >>= next)
  Ensures-bind Q P (ok a) next h k = k a h
  Ensures-bind Q P (err e) next h k = tt

  pub Ensures-unless {κ μ} :
      {A : Type κ} (P : A → Type μ) (test : Bool) (e : E) (next : Result E A)
      → (test ≡ false → Ensures P next)
      → Ensures P (fail_if test e >> next)
  Ensures-unless P true e next h = tt
  Ensures-unless P false e next h = h refl

  pub Ensures-if {κ μ} :
      {A : Type κ} (P : A → Type μ) (test : Bool) (e : E) (a : A)
      → (test ≡ false → P a)
      → Ensures P (if test then err e else ok a)
  Ensures-if P true e a h = tt
  Ensures-if P false e a h = h refl

  pub Ensures-ok {κ μ} :
      {A : Type κ} (P : A → Type μ) (m : Result E A) {a : A} → Ensures P m → m ≡ ok a → P a
  Ensures-ok P (ok b) {a} h e = let same : b ≡ a = cc in subst P same h
  Ensures-ok P (err x) h e = cc
