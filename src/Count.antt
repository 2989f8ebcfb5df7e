-- ===== src/Count.antt =====
-- Counting the indices below a bound at which a test holds.
use clubcos.Prelude.{
  ℕ, zero, suc, ◌+◌, ◌≤◌, ◌<◌, ◌≡◌, refl, ◌∙◌, inl, inr, Bool, true, false, not, ◌&&◌, ◌||◌, arith,
  ◌==◌, Bool-cases,
}

abbrev pub bit : Bool → ℕ
bit true = 1
bit false = 0

pub count_below : ℕ → (ℕ → Bool) → ℕ
count_below zero f = 0
count_below (suc n) f = count_below n f + bit (f n)

count_below-ext :
    (n : ℕ) (f g : ℕ → Bool) → ((j : ℕ) → j < n → g j ≡ f j) → count_below n g ≡ count_below n f
unfolding count_below
count_below-ext zero f g h = refl
count_below-ext (suc n) f g h =
    ground (arith, h n (omega arith), count_below-ext n f g (λ j l. h j (omega arith)))

pub count_below-set :
    (n : ℕ) (f g : ℕ → Bool) (i : ℕ)
    → i < n
    → f i ≡ false
    → ((j : ℕ) → g j ≡ ((i == j) || f j))
    → count_below n g ≡ count_below n f + 1
unfolding count_below
count_below-set zero f g i l e h = elim l [ ]
count_below-set (suc n) f g i l e h = elim (Bool-cases (i == n)) [
  | inl last ↦ ground (arith, h n, count_below-ext n f g (λ j k. h j ∙ ground arith))
  | inr below ↦ ground (arith, h n, count_below-set n f g i (ground arith) e h)
]

pub count_below-clear :
    (n : ℕ) (f g : ℕ → Bool) (i : ℕ)
    → i < n
    → f i ≡ true
    → ((j : ℕ) → g j ≡ (not (i == j) && f j))
    → count_below n g + 1 ≡ count_below n f
unfolding count_below
count_below-clear zero f g i l e h = elim l [ ]
count_below-clear (suc n) f g i l e h = elim (Bool-cases (i == n)) [
  | inl last ↦ ground (arith, h n, count_below-ext n f g (λ j k. h j ∙ ground arith))
  | inr below ↦ ground (arith, h n, count_below-clear n f g i (ground arith) e h)
]

pub count_below-pos :
    (n : ℕ) (f : ℕ → Bool) → 0 < count_below n f → (i : ℕ) × (i < n) × (f i ≡ true)
unfolding count_below
count_below-pos zero f h = elim h [ ]
count_below-pos (suc n) f h = elim (Bool-cases (f n)) [
  | inl e ↦ (n, omega arith, e)
  | inr e ↦ let (i, l, k) = count_below-pos n f (ground arith) in (i, omega arith, k)
]

pub count_below-zero : (n : ℕ) (f : ℕ → Bool) → count_below n f ≡ 0 → (i : ℕ) → i < n → f i ≡ false
unfolding count_below
count_below-zero zero f h i l = elim l [ ]
count_below-zero (suc n) f h i l = elim (Bool-cases (i == n)) [
  | inl last ↦ ground arith
  | inr below ↦ count_below-zero n f (omega arith) i (ground arith)
]

pub count_below-le : (n : ℕ) (f : ℕ → Bool) → count_below n f ≤ n
unfolding count_below
count_below-le zero f = omega arith
count_below-le (suc n) f = ground (arith, count_below-le n f)

pub count_below-none : (n : ℕ) (f : ℕ → Bool) → ((j : ℕ) → f j ≡ false) → count_below n f ≡ 0
unfolding count_below
count_below-none zero f h = refl
count_below-none (suc n) f h = ground (arith, h n, count_below-none n f h)
