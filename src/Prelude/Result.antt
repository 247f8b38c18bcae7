-- ===== src/Prelude/Result.antt =====
-- `anyhow::Result`: a value or the failure that was reported, with `?` as the bind of a `do` block.
use Prim.Native.String.{String}
use mathlib.Core.Path.{◌≡◌, refl}
use mathlib.Core.Bool.{Bool, true, false}
use mathlib.Core.Logic.{◌⊎◌, inl, inr}
use danso.Prelude.Tests.{if◌then◌else◌}
use mathlib.Core.Option.{Option, none, some}

-- `TaskRecoveryReason` of src/failure.rs
pub data RecoveryReason : Type 0 where
  explicit_resume_required uncertain_work budget_exhausted terminal_task : RecoveryReason

-- A failure carries its message; an `ensure!` without a message is `condition`.
pub data Failure : Type 0 where
  message : String → Failure
  condition : Failure
  -- a recovery diagnostic: the state's label, the reason, and whether a resume is allowed
  recovery : String → RecoveryReason → Bool → Failure

pub data Result {ℓ} (A : Type ℓ) : Type ℓ where
  err : Failure → Result A
  ok : A → Result A

-- `?` on the first result
infixl 5 ◌>>=◌
abbrev pub ◌>>=◌ {ℓ ℓ'} : {T : Type ℓ} {U : Type ℓ'} → Result T → (T → Result U) → Result U
err failure >>= rest = err failure
ok value >>= rest = rest value

infixl 5 ◌>>◌
abbrev pub ◌>>◌ {ℓ} : {U : Type ℓ} → Result (Unit {0}) → Result U → Result U
check >> rest = check >>= λ _. rest

-- `ensure!(test, text)`
abbrev pub ensure : Bool → String → Result (Unit {0})
ensure true text = ok tt
ensure false text = err (message text)

-- `ensure!(test)`
abbrev pub require : Bool → Result (Unit {0})
require true = ok tt
require false = err condition

-- `option.context(text)`
abbrev pub context {ℓ} : {A : Type ℓ} → Option A → String → Result A
context none text = err (message text)
context (some a) text = ok a

-- A chain that succeeds, taken apart at its first step.
pub >>=-eq-ok {ℓ ℓ'} :
    {T : Type ℓ} {U : Type ℓ'} (first : Result T) (rest : T → Result U) {u : U}
    → first >>= rest ≡ ok u
    → (t : T) × (first ≡ ok t) × (rest t ≡ ok u)
>>=-eq-ok (err failure) rest h = cc
>>=-eq-ok (ok value) rest h = (value, refl, h)

pub >>=-ok {ℓ} : {T : Type ℓ} (first : Result T) → first >>= (λ t. ok t) ≡ first
>>=-ok (err failure) = refl
>>=-ok (ok value) = refl

-- Two chains with the same first step.
pub >>=-assoc {ℓ} :
    {T U V : Type ℓ} (first : Result T) (f : T → Result U) (g : U → Result V) (k : T → Result V)
    → ((t : T) → k t ≡ f t >>= g)
    → first >>= k ≡ first >>= f >>= g
>>=-assoc (err failure) f g k h = refl
>>=-assoc (ok value) f g k h = h value

pub >>=-same {ℓ ℓ'} :
    {T : Type ℓ} {U : Type ℓ'} (first : Result T) (f g : T → Result U)
    → ((t : T) → f t ≡ g t)
    → first >>= f ≡ first >>= g
>>=-same (err failure) f g h = refl
>>=-same (ok value) f g h = h value

pub ok-eq {ℓ} : {A : Type ℓ} (x y : A) → ok x ≡ ok y → y ≡ x
ok-eq x y h = cc

-- A choice that succeeds: the branch that was taken.
pub guard-eq-ok :
    {A : Type 0} (b : Bool) (f : Failure) (x y : A)
    → (if b then ok x else err f) ≡ ok y
    → (b ≡ true) × (y ≡ x)
guard-eq-ok true f x y h = (refl, cc)
guard-eq-ok false f x y h = cc

pub refused-eq-ok :
    {A : Type 0} (b : Bool) (f : Failure) (x : Result A) (y : A)
    → (if b then err f else x) ≡ ok y
    → (b ≡ false) × (x ≡ ok y)
refused-eq-ok true f x y h = cc
refused-eq-ok false f x y h = (refl, h)

pub choose-eq-ok :
    {A : Type 0} (a b : Bool) (x y : Result A) (f : Failure) (z : A)
    → (if a then x else if b then y else err f) ≡ ok z
    → ((a ≡ true) × (x ≡ ok z)) ⊎ ((b ≡ true) × (y ≡ ok z))
choose-eq-ok true b x y f z h = inl (refl, h)
choose-eq-ok false true x y f z h = inr (refl, h)
choose-eq-ok false false x y f z h = cc

pub either-eq-ok :
    {A : Type 0} (a b : Bool) (x y : Result A) (w z : A)
    → (if a then x else if b then y else ok w) ≡ ok z
    → (x ≡ ok z) ⊎ ((y ≡ ok z) ⊎ (z ≡ w))
either-eq-ok true b x y w z h = inl h
either-eq-ok false true x y w z h = inr (inl h)
either-eq-ok false false x y w z h = inr (inr cc)

pub choose4-eq-ok :
    {A : Type 0} (a b c d : Bool) (w x y z : Result A) (f : Failure) (v : A)
    → (if a then w else if b then x else if c then y else if d then z else err f) ≡ ok v
    → (w ≡ ok v) ⊎ (((b ≡ true) × (x ≡ ok v)) ⊎ ((y ≡ ok v) ⊎ (z ≡ ok v)))
choose4-eq-ok true b c d w x y z f v h = inl h
choose4-eq-ok false true c d w x y z f v h = inr (inl (refl, h))
choose4-eq-ok false false true d w x y z f v h = inr (inr (inl h))
choose4-eq-ok false false false true w x y z f v h = inr (inr (inr h))
choose4-eq-ok false false false false w x y z f v h = cc

pub context-some :
    {A : Type 0} (o : Option A) (text : String) (a : A) → context o text ≡ ok a → o ≡ some a
context-some none text a h = cc
context-some (some b) text a h = cc

pub ensure-true : (b : Bool) (text : String) (t : Unit {0}) → ensure b text ≡ ok t → b ≡ true
ensure-true true text t h = refl
ensure-true false text t h = cc
