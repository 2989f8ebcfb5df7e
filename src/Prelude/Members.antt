-- ===== src/Prelude/Members.antt =====
-- Membership in lists of numbers as a test, and lists with no number twice.
use Prim.Native.Nat.{ℕ}
use mathlib.Core.Path.{◌≡◌, refl, sym, ap}
use mathlib.Core.Logic.{inl, inr}
use mathlib.Core.Bool.{Bool, true, false, ◌||◌}
use mathlib.Core.List.{List, [], ◌∷◌, ◌++◌}
use native.Mathlib.Omega.{arith}
use clubcos.Prelude.Tests.{◌==◌, ==_iff, Bool-cases}

abbrev pub has : ℕ → List ℕ → Bool
has a [] = false
has a (x ∷ xs) = (a == x) || has a xs

abbrev pub Distinct : List ℕ → Type 0
Distinct [] = Unit
Distinct (x ∷ xs) = (has x xs ≡ false) × Distinct xs

pub has-append : (a : ℕ) (xs ys : List ℕ) → has a (xs ++ ys) ≡ (has a xs || has a ys)
has-append a [] ys = refl
has-append a (x ∷ xs) ys = ground (arith, has-append a xs ys)

-- Distinct in two parts that share nothing.
pub Distinct-snoc : (xs : List ℕ) (p : ℕ) → Distinct xs → has p xs ≡ false → Distinct (xs ++ p ∷ [])
Distinct-snoc [] p d h = (refl, tt)
Distinct-snoc (x ∷ xs) p d h =
    (ground (arith, has-append x xs (p ∷ [])), Distinct-snoc xs p d.1 (ground arith))

pub Distinct-drop : (xs ys : List ℕ) → Distinct (xs ++ ys) → Distinct ys
Distinct-drop [] ys d = d
Distinct-drop (x ∷ xs) ys d = Distinct-drop xs ys d.1

pub Distinct-remove :
    (xs : List ℕ) (p : ℕ) (ys : List ℕ) → Distinct (xs ++ p ∷ ys) → Distinct (xs ++ ys)
Distinct-remove [] p ys d = d.1
Distinct-remove (x ∷ xs) p ys d =
    (ground (arith, has-append x xs (p ∷ ys), has-append x xs ys), Distinct-remove xs p ys d.1)

pub has_same : (a b : ℕ) (xs : List ℕ) → has b xs ≡ true → has a xs ≡ false → (b == a) ≡ false
has_same a b [] h k = ground arith
has_same a b (x ∷ xs) h k = ground (arith, has_same a b xs)

pub Distinct-gone :
    (xs : List ℕ) (p : ℕ) (ys : List ℕ) → Distinct (xs ++ p ∷ ys) → has p (xs ++ ys) ≡ false
Distinct-gone [] p ys d = d.0
Distinct-gone (x ∷ xs) p ys d = ground (arith, has-append x xs (p ∷ ys), Distinct-gone xs p ys d.1)

-- A member of a list cuts it in two.
pub has-cut :
    (a : ℕ) (l : List ℕ) → has a l ≡ true → (xs : List ℕ) × (ys : List ℕ) × (l ≡ xs ++ a ∷ ys)
has-cut a [] h = absurd (ground (arith, h))
has-cut a (x ∷ l) h = elim (Bool-cases (a == x)) [
  | inl e ↦ ([], l, ap (λ y. y ∷ l) (sym ((==_iff a x).0 e)))
  | inr e ↦ let (xs, ys, f) = has-cut a l (ground (arith, h, e)) in (x ∷ xs, ys, ap (λ l. x ∷ l) f)
]
