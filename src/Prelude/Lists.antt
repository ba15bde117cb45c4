-- ===== src/Prelude/Lists.antt =====
-- Lists of addresses and functions updated at one point.
use Prim.Native.Nat.{ℕ, suc, ◌+◌}
use mathlib.Core.Path.{◌≡◌, refl}
use mathlib.Core.Logic.{◌≢◌}
use mathlib.Core.Bool.{Bool, true, false, ◌||◌, or_assoc}
use mathlib.Core.List.{List, [], ◌∷◌, ◌++◌}
use native.Mathlib.Omega.{arith}
use rutgers_cs.Prelude.Tests.{◌==◌, if◌then◌else◌}

module _ {ℓ} {A : Type ℓ} where
  -- `update f p v` is `f` with the value `v` at `p`.
  abbrev pub update : (ℕ → A) → ℕ → A → ℕ → A
  update f p v q = if q == p then v else f q

  abbrev pub length : List A → ℕ
  length [] = 0
  length (x ∷ xs) = suc (length xs)

  pub length-append : (xs ys : List A) → length (xs ++ ys) ≡ length xs + length ys
  length-append [] ys = omega arith
  length-append (x ∷ xs) ys = omega (arith, length-append xs ys)

abbrev pub has : ℕ → List ℕ → Bool
has p [] = false
has p (x ∷ xs) = (p == x) || has p xs

-- The last address, or `d` if there is none.
abbrev pub last : ℕ → List ℕ → ℕ
last d [] = d
last d (x ∷ xs) = last x xs

abbrev pub Distinct : List ℕ → Type 0
Distinct [] = Unit {0}
Distinct (x ∷ xs) = (has x xs ≡ false) × Distinct xs

pub has-append : (p : ℕ) (xs ys : List ℕ) → has p (xs ++ ys) ≡ (has p xs || has p ys)
has-append p [] ys = refl
has-append p (x ∷ xs) ys = rw (has-append p xs ys, or_assoc)

pub Distinct-append_one :
    (t : ℕ) (xs : List ℕ) → Distinct xs → has t xs ≡ false → Distinct (xs ++ t ∷ [])
Distinct-append_one t [] d new = (refl, tt)
Distinct-append_one t (x ∷ xs) d new =
    (ground (arith, has-append x xs (t ∷ [])), Distinct-append_one t xs d.1 (ground arith))

pub last-append_one : (d t : ℕ) (xs : List ℕ) → last d (xs ++ t ∷ []) ≡ t
last-append_one d t [] = refl
last-append_one d t (x ∷ xs) = last-append_one x t xs

-- The last address of a list that is not empty is on it.
pub has-last : (d x : ℕ) (xs : List ℕ) → has (last d (x ∷ xs)) (x ∷ xs) ≡ true
has-last d x [] = ground arith
has-last d x (y ∷ xs) = ground (arith, has-last x y xs)

pub append_one-ne-nil {ℓ} : {A : Type ℓ} (xs : List A) (x : A) → xs ++ x ∷ [] ≢ []
append_one-ne-nil [] x = λ e. cc
append_one-ne-nil (y ∷ xs) x = λ e. cc
