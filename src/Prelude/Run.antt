-- ===== src/Prelude/Run.antt =====
-- The outcome of a call, and chains of calls.
use mathlib.Core.Path.{◌≡◌, refl, ap, subst}
use mathlib.Core.Bool.{Bool, true, false}
use rutgers_cs.Prelude.Tests.{if◌then◌else◌}

-- What a call comes to: `fault` is a NULL pointer that is followed or other undefined
-- behaviour, `out_of_fuel` a loop that is cut.
pub data Run {ℓ} (A : Type ℓ) : Type ℓ where
  ok : A → Run A
  fault : Run A
  out_of_fuel : Run A

infixl 5 ◌>>=◌
abbrev pub ◌>>=◌ {ℓ κ} : {A : Type ℓ} {B : Type κ} → Run A → (A → Run B) → Run B
ok a >>= f = f a
fault >>= f = fault
out_of_fuel >>= f = out_of_fuel

-- A chain that returns has a first step that returns, and the second step, on its result, is the chain.
pub first_ran {ℓ κ} :
    {S : Type ℓ} {T : Type κ} {t : T} (first : Run S) (second : S → Run T)
    → (first >>= second) ≡ ok t
    → (s : S) × (first ≡ ok s) × (second s ≡ ok t)
first_ran fault second e = cc
first_ran out_of_fuel second e = cc
first_ran (ok s) second e = (s, refl, e)

-- Whatever the call returns has the property.
pub record OnOk {ℓ κ} {A : Type ℓ} (P : A → Type κ) (r : Run A) : Type (ℓ ⊔ κ) where
  pub ends : (a : A) → r ≡ ok a → P a

unfoldable pub value_or {ℓ} : {A : Type ℓ} → A → Run A → A
value_or d (ok a) = a
value_or d fault = d
value_or d out_of_fuel = d

pub OnOk-ok {ℓ κ} : {A : Type ℓ} {P : A → Type κ} (a : A) → P a → OnOk P (ok a)
unfolding value_or
OnOk-ok {P = P} a p = record { ends = λ b e. subst P (ap (value_or a) e) p }

pub OnOk-fault {ℓ κ} : {A : Type ℓ} {P : A → Type κ} → OnOk P fault
OnOk-fault = record { ends = λ b e. cc }

pub OnOk-out_of_fuel {ℓ κ} : {A : Type ℓ} {P : A → Type κ} → OnOk P out_of_fuel
OnOk-out_of_fuel = record { ends = λ b e. cc }

pub OnOk-if {ℓ κ} :
    {A : Type ℓ} {P : A → Type κ} (b : Bool) {x y : Run A}
    → OnOk P x
    → OnOk P y
    → OnOk P (if b then x else y)
OnOk-if true p q = p
OnOk-if false p q = q

pub OnOk-bind {ℓ κ μ} :
    {A : Type ℓ} {P : A → Type κ} {B : Type μ} (x : Run B) (f : B → Run A)
    → ((b : B) → x ≡ ok b → OnOk P (f b))
    → OnOk P (x >>= f)
OnOk-bind x f h = record { ends = λ a e. let (b, e', e'') = first_ran x f e in (h b e').ends a e'' }
