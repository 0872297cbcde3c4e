-- ===== src/Validation/Verdict.antt =====
-- How a `bool` function of layer1-core/validation/validation.cpp ends: it goes on, it returns false, or
-- something that it calls throws.
use drachma_block_chain.Common.{
  Bool, true, false, Option, none, some, Result, ok, err, Error, ◌≡◌, refl, ap,
}

pub data Check {ℓ} (A : Type ℓ) : Type ℓ where
  pass : A → Check A
  reject : Check A
  throws : Error → Check A

infixl 5 ◌>>=◌
-- The rest of a function runs with the value of a part that passes.
abbrev pub ◌>>=◌ {ι μ} : {X : Type ι} {Y : Type μ} → Check X → (X → Check Y) → Check Y
throws e >>= rest = throws e
reject >>= rest = reject
pass x >>= rest = rest x

infixl 5 ◌>>◌
abbrev pub ◌>>◌ {μ} : {Y : Type μ} → Check (Unit {0}) → Check Y → Check Y
test >> rest = test >>= λ done. rest

-- `if (!c) return false;`
abbrev pub require : Bool → Check (Unit {0})
require true = pass tt
require false = reject

-- The same with a condition whose computation may throw.
abbrev pub require_ok : Result Bool → Check (Unit {0})
require_ok (ok c) = require c
require_ok (err e) = throws e

abbrev pub or_reject {ℓ} : {A : Type ℓ} → Option A → Check A
or_reject none = reject
or_reject (some a) = pass a

-- Inversion of a chain that passes.
pub >>=-eq-pass {ℓ κ} :
    {A : Type ℓ} {B : Type κ} (m : Check A) (f : A → Check B) {b : B}
    → (m >>= f) ≡ pass b
    → (a : A) × (m ≡ pass a) × (f a ≡ pass b)
>>=-eq-pass (pass a) f h = (a, refl, h)
>>=-eq-pass reject f h = cc
>>=-eq-pass (throws e) f h = cc

pub require-eq-pass {ℓ} :
    {B : Type ℓ} (c : Bool) (k : Check B) {b : B}
    → (require c >> k) ≡ pass b
    → (c ≡ true) × (k ≡ pass b)
require-eq-pass true k h = (refl, h)
require-eq-pass false k h = cc

-- The other direction.
pub >>=-of_pass {ℓ κ} :
    {A : Type ℓ} {B : Type κ} {m : Check A} (f : A → Check B) {a : A} → m ≡ pass a → (m >>= f) ≡ f a
>>=-of_pass f h = ap (λ m. m >>= f) h

pub require-of_true {ℓ} : {B : Type ℓ} {c : Bool} (k : Check B) → c ≡ true → (require c >> k) ≡ k
require-of_true k h = ap (λ c. require c >> k) h
