-- ===== src/Timer/Links.antt =====
-- Time-outs linked by one pointer, and one more linked in.
use mathlib.Core.Path.{subst}
use clubcos.Prelude.{
  ℕ, ◌≤◌, ◌≡◌, refl, ◌∙◌, inl, inr, true, false, ◌||◌, List, [], ◌∷◌, arith, leb, ◌==◌,
  if◌then◌else◌, leb→le, Bool-cases, has, Distinct,
}

-- From `a` the pointers lead through `xs` to `e`.
abbrev pub Links : (ℕ → ℕ) → ℕ → List ℕ → ℕ → Type 0
Links next a [] e = next a ≡ e
Links next a (x ∷ xs) e = (next a ≡ x) × Links next x xs e

pub Links-frame :
    (next next' : ℕ → ℕ) (a : ℕ) (xs : List ℕ) (e : ℕ)
    → ((q : ℕ) → has q (a ∷ xs) ≡ true → next' q ≡ next q)
    → Links next a xs e
    → Links next' a xs e
Links-frame next next' a [] e h l = h a (ground arith) ∙ l
Links-frame next next' a (x ∷ xs) e h l =
    (h a (ground arith) ∙ l.0, Links-frame next next' x xs e (λ q i. h q (ground arith)) l.1)

-- Where a key belongs: before the first one that is not less.
abbrev pub insert_by : (ℕ → ℕ) → ℕ → List ℕ → List ℕ
insert_by key p [] = p ∷ []
insert_by key p (x ∷ xs) = if leb (key p) (key x) then p ∷ x ∷ xs else x ∷ insert_by key p xs

abbrev pub IsSorted : (ℕ → ℕ) → List ℕ → Type 0
IsSorted key [] = ◌≡◌ {A = ℕ} 0 0
IsSorted key (x ∷ []) = ◌≡◌ {A = ℕ} 0 0
IsSorted key (x ∷ y ∷ xs) = (key x ≤ key y) × IsSorted key (y ∷ xs)

pub insert_by-IsSorted :
    (key : ℕ → ℕ) (p : ℕ) (xs : List ℕ) → IsSorted key xs → IsSorted key (insert_by key p xs)
insert_by-IsSorted key p [] s = refl
insert_by-IsSorted key p (x ∷ []) s = elim (Bool-cases (leb (key p) (key x))) [
  | inl e ↦ rw e (leb→le (key p) (key x) e, refl)
  | inr e ↦ rw e (ground arith, refl)
]
insert_by-IsSorted key p (x ∷ y ∷ xs) s = elim (Bool-cases (leb (key p) (key x))) [
  | inl e ↦ rw e (leb→le (key p) (key x) e, s)
  | inr e ↦
      let rest = insert_by-IsSorted key p (y ∷ xs) s.1 in
      elim (Bool-cases (leb (key p) (key y))) [
        | inl f ↦ rw (e, f) (ground (arith, e), (leb→le (key p) (key y) f, s.1))
        | inr f ↦
            let rest' : IsSorted key (y ∷ insert_by key p xs) =
              subst (λ b. IsSorted key (if b then p ∷ y ∷ xs else y ∷ insert_by key p xs)) f rest in
            rw (e, f) (s.0, rest')
      ]
]

pub IsSorted-same :
    (key key' : ℕ → ℕ) (xs : List ℕ)
    → ((q : ℕ) → has q xs ≡ true → key' q ≡ key q)
    → IsSorted key xs
    → IsSorted key' xs
IsSorted-same key key' [] h s = refl
IsSorted-same key key' (x ∷ []) h s = refl
IsSorted-same key key' (x ∷ y ∷ xs) h s =
    let ex : key' x ≡ key x = h x (ground arith) in
    let ey : key' y ≡ key y = h y (ground arith) in
    (omega (arith, ex, ey, s.0), IsSorted-same key key' (y ∷ xs) (λ q i. h q (ground arith)) s.1)

pub has-insert_by :
    (key : ℕ → ℕ) (p : ℕ) (xs : List ℕ) (q : ℕ)
    → has q (insert_by key p xs) ≡ ((q == p) || has q xs)
has-insert_by key p [] q = refl
has-insert_by key p (x ∷ xs) q = elim (Bool-cases (leb (key p) (key x))) [
  | inl e ↦ rw e refl
  | inr e ↦ rw e (ground (arith, has-insert_by key p xs q))
]

pub Distinct-insert_by :
    (key : ℕ → ℕ) (p : ℕ) (xs : List ℕ)
    → Distinct xs
    → has p xs ≡ false
    → Distinct (insert_by key p xs)
Distinct-insert_by key p [] d new = (refl, d)
Distinct-insert_by key p (x ∷ xs) d new = elim (Bool-cases (leb (key p) (key x))) [
  | inl e ↦ rw e (new, d)
  | inr e ↦ rw e (
    ground (arith, has-insert_by key p xs x, new, d.0),
    Distinct-insert_by key p xs d.1 (ground (arith, new)),
  )
]
