-- ===== src/Array/Cells.antt =====
-- The bytes of a stretch of memory as a list.
use mathlib.Core.Path.{subst}
use clubcos.Prelude.{
  ℕ, zero, suc, ◌+◌, ◌<◌, ◌≡◌, refl, sym, ap, ◌∙◌, List, [], ◌∷◌, ◌++◌, arith, length, take, drop,
}

unfoldable pub cells : (ℕ → ℕ) → ℕ → ℕ → List ℕ
cells mem from zero = []
cells mem from (suc n) = mem from ∷ cells mem (from + 1) n

pub cells-same :
    (m m' : ℕ → ℕ) (a b n : ℕ)
    → ((j : ℕ) → j < n → m (a + j) ≡ m' (b + j))
    → cells m a n ≡ cells m' b n
unfolding cells
cells-same m m' a b zero h = refl
cells-same m m' a b (suc n) h =
    let first : m a ≡ m' b =
      subst (λ z. m z ≡ m' (b + 0)) (omega arith) (h 0 (omega arith)) ∙ ap m' (omega arith) in
    let rest =
      cells-same m m' (a + 1) (b + 1) n
        (λ j lt. ap m (omega arith) ∙ h (suc j) (omega arith) ∙ ap m' (omega arith)) in
    rw (first, rest) refl

pub cells-add : (m : ℕ → ℕ) (a n k : ℕ) → cells m a (n + k) ≡ cells m a n ++ cells m (a + n) k
unfolding cells
cells-add m a zero k =
    let e : zero + k ≡ k = omega arith in let f : a + 0 ≡ a = omega arith in rw (e, f) refl
cells-add m a (suc n) k =
    let e : suc n + k ≡ suc (n + k) = omega arith in
    let f : a + suc n ≡ a + 1 + n = omega arith in
    rw (e, f) (ap (λ l. m a ∷ l) (cells-add m (a + 1) n k))

pub length-cells : (m : ℕ → ℕ) (a n : ℕ) → length (cells m a n) ≡ n
unfolding cells
length-cells m a zero = refl
length-cells m a (suc n) = omega (arith, length-cells m (a + 1) n)

take-length {ℓ} : {A : Type ℓ} (xs ys : List A) → take (length xs) (xs ++ ys) ≡ xs
take-length [] ys = refl
take-length (x ∷ xs) ys = ap (λ l. x ∷ l) (take-length xs ys)

drop-length {ℓ} : {A : Type ℓ} (xs ys : List A) → drop (length xs) (xs ++ ys) ≡ ys
drop-length [] ys = refl
drop-length (x ∷ xs) ys = drop-length xs ys

pub take-cells : (m : ℕ → ℕ) (a n k : ℕ) → take n (cells m a (n + k)) ≡ cells m a n
take-cells m a n k =
    subst (λ l. take n l ≡ cells m a n) (sym (cells-add m a n k))
      (subst (λ i. take i (cells m a n ++ cells m (a + n) k) ≡ cells m a n) (length-cells m a n)
        (take-length (cells m a n) (cells m (a + n) k)))

pub drop-cells : (m : ℕ → ℕ) (a n k : ℕ) → drop n (cells m a (n + k)) ≡ cells m (a + n) k
drop-cells m a n k =
    subst (λ l. drop n l ≡ cells m (a + n) k) (sym (cells-add m a n k))
      (subst (λ i. drop i (cells m a n ++ cells m (a + n) k) ≡ cells m (a + n) k)
        (length-cells m a n) (drop-length (cells m a n) (cells m (a + n) k)))
