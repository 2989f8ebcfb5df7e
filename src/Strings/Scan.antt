-- ===== src/Strings/Scan.antt =====
-- The string functions on terminated strings.
use clubcos.Strings.{int_of_char, strlen, strlen_from, strnlen, strncpy, strcmp}
use clubcos.Prelude.{
  ℕ, zero, suc, ◌+◌, ◌-◌, ◌≤◌, ◌<◌, ◌≡◌, refl, sym, ap, ◌∙◌, ◌≢◌, ◌↔◌, inl, inr, true, false, some,
  List, [], ◌∷◌, arith, ltb, ◌==◌, if◌then◌else◌, ==_iff, Bool-cases, length, sub32, upd,
}

-- At `p` stand the bytes `xs`, none of which is 0, and then a 0.
abbrev pub IsString : (ℕ → ℕ) → ℕ → List ℕ → Type 0
IsString mem p [] = mem p ≡ 0
IsString mem p (x ∷ xs) = (mem p ≡ x) × (x ≢ 0) × (x < 256) × IsString mem (p + 1) xs

strlen_from-length :
    (fuel : ℕ) (mem : ℕ → ℕ) (p str : ℕ) (xs : List ℕ)
    → str ≤ p
    → IsString mem p xs
    → length xs < fuel
    → strlen_from fuel mem p str ≡ some (p - str + length xs)
unfolding strlen_from
strlen_from-length zero mem p str xs le s lt = absurd (omega arith)
strlen_from-length (suc k) mem p str [] le s lt = rw s (ap some (omega arith))
strlen_from-length (suc k) mem p str (x ∷ xs) le s lt =
    let e : (mem p == 0) ≡ false = ground (arith, s.0, s.1) in
    rw e (
      strlen_from-length k mem (p + 1) str xs (omega arith) s.3 (omega arith)
      ∙ ap some (omega (arith, le)))

-- On a terminated string, with more fuel than it is long, `strlen` returns its length.
pub strlen-length :
    (fuel : ℕ) (mem : ℕ → ℕ) (p : ℕ) (xs : List ℕ)
    → IsString mem p xs
    → length xs < fuel
    → strlen fuel mem p ≡ some (length xs)
unfolding strlen
strlen-length fuel mem p xs s lt =
    strlen_from-length fuel mem p p xs (omega arith) s lt ∙ ap some (omega arith)

-- On a terminated string `strnlen` returns its length, or the given size if that is less.
pub strnlen-length :
    (mem : ℕ → ℕ) (p size : ℕ) (xs : List ℕ)
    → IsString mem p xs
    → strnlen mem p size ≡ (if ltb size (length xs) then size else length xs)
unfolding strnlen
strnlen-length mem p zero xs s = ground arith
strnlen-length mem p (suc n) [] s = rw s (ground arith)
strnlen-length mem p (suc n) (x ∷ xs) s =
    let e : (mem p == 0) ≡ false = ground (arith, s.0, s.1) in
    rw e (ground (arith, strnlen-length mem (p + 1) n xs s.3))

-- The difference of two characters is 0 only if they are the same.
difference : (a b : ℕ) → a < 256 → b < 256 → (sub32 (int_of_char a) (int_of_char b) ≡ 0) ↔ (a ≡ b)
difference a b la lb = ground arith

strcmp-differ :
    (k : ℕ) (mem : ℕ → ℕ) (l r a b : ℕ)
    → mem l ≡ a
    → mem r ≡ b
    → a < 256
    → b < 256
    → a ≢ b
    → (v : ℕ) × (strcmp (suc k) mem l r ≡ some v) × (v ≢ 0)
unfolding strcmp
strcmp-differ k mem l r a b e f la lb ne =
    let n : (sub32 (int_of_char a) (int_of_char b) == 0) ≡ false =
      ground (arith, difference a b la lb) in
    (
      sub32 (int_of_char a) (int_of_char b),
      rw (e, f, n) refl,
      λ z. absurd (ne ((difference a b la lb).0 z)),
    )

strcmp-same :
    (k : ℕ) (mem : ℕ → ℕ) (l r x : ℕ)
    → mem l ≡ x
    → mem r ≡ x
    → x ≢ 0
    → strcmp (suc k) mem l r ≡ strcmp k mem (l + 1) (r + 1)
unfolding strcmp
strcmp-same k mem l r x e f ne =
    let n : (sub32 (int_of_char x) (int_of_char x) == 0) ≡ true = ground arith in
    let m : (x == 0) ≡ false = ground arith in rw (e, f, n, m) refl

-- On two terminated strings, with more fuel than the first is long, `strcmp` returns, and it
-- returns 0 exactly if the strings are the same.
pub strcmp-zero :
    (fuel : ℕ) (mem : ℕ → ℕ) (l r : ℕ) (xs ys : List ℕ)
    → IsString mem l xs
    → IsString mem r ys
    → length xs < fuel
    → (v : ℕ) × (strcmp fuel mem l r ≡ some v) × ((v ≡ 0) ↔ (xs ≡ ys))
unfolding strcmp
strcmp-zero zero mem l r xs ys s t lt = absurd (omega arith)
strcmp-zero (suc k) mem l r [] [] s t lt = (0, rw (s, t) refl, ((λ e. refl), λ e. refl))
strcmp-zero (suc k) mem l r [] (y ∷ ys) s t lt =
    let (v, e, n) = strcmp-differ k mem l r 0 y s t.0 (omega arith) t.2 (λ e. t.1 (sym e)) in
    (v, e, ((λ z. absurd (n z)), λ q. absurd cc))
strcmp-zero (suc k) mem l r (x ∷ xs) [] s t lt =
    let (v, e, n) = strcmp-differ k mem l r x 0 s.0 t s.2 (omega arith) s.1 in
    (v, e, ((λ z. absurd (n z)), λ q. absurd cc))
strcmp-zero (suc k) mem l r (x ∷ xs) (y ∷ ys) s t lt = elim (Bool-cases (x == y)) [
  | inl e ↦
      let same : x ≡ y = (==_iff x y).0 e in
      let (v, rest, iff) = strcmp-zero k mem (l + 1) (r + 1) xs ys s.3 t.3 (omega arith) in
      (
        v,
        strcmp-same k mem l r x s.0 (t.0 ∙ sym same) s.1 ∙ rest,
        ((λ z. let q = iff.0 z in cc), λ q. iff.1 cc),
      )
  | inr ne ↦
      let (v, e, n) =
        strcmp-differ k mem l r x y s.0 t.0 s.2 t.2 (λ q. absurd (ground (arith, q, ne))) in
      (v, e, ((λ z. absurd (n z)), λ q. absurd (let h : x ≡ y = cc in ground (arith, h, ne))))
]

-- `strncpy` of a string that is not empty, with a count that is not 0, copies its first character
-- only, whatever the count, and writes no terminator.
pub strncpy-first :
    (count dest src : ℕ) (mem : ℕ → ℕ)
    → mem src ≢ 0
    → strncpy (suc count) dest src mem ≡ (dest + 1, upd mem dest (mem src))
unfolding strncpy
strncpy-first count dest src mem h =
    let e : (upd mem dest (mem src) src == 0) ≡ false = ground arith in rw e refl
