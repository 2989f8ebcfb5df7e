-- ===== src/Array/Removal.antt =====
-- `ckArray8Remove` of src/array.h takes the first occurrence out.
use clubcos.Array.{Array8, size, erase, memchr, find, remove_found, remove}
use clubcos.Array.Cells.{cells}
use clubcos.Array.Edit.{IsArray, contents, erase-contents}
use clubcos.Prelude.{
  ℕ, zero, suc, ◌+◌, ◌-◌, ◌%◌, ◌^◌, ◌<◌, ◌≡◌, refl, ap, ◌∙◌, ◌⊎◌, inl, inr, Bool, true, false,
  Option, none, some, List, [], ◌∷◌, ◌++◌, arith, leb, ◌==◌, if◌then◌else◌, ==_iff, Bool-cases,
  take, drop, sub32, has,
}

abbrev pub remove_first : ℕ → List ℕ → List ℕ
remove_first x [] = []
remove_first x (y ∷ ys) = if y == x then ys else y ∷ remove_first x ys

-- Where the search ends.
abbrev IsFoundIn : ℕ → List ℕ → ℕ → ℕ → Option ℕ → Type 0
IsFoundIn x ys b n r =
    ((i : ℕ) × (i < n)
      × (r ≡ some (b + i))
      × (has x ys ≡ true)
      × (take i ys ++ drop (suc i) ys ≡ remove_first x ys))
    ⊎ ((r ≡ none) × (has x ys ≡ false))

memchr-IsFoundIn :
    (n b x : ℕ) (mem : ℕ → ℕ) → IsFoundIn x (cells mem b n) b n (memchr false b x n mem)
unfolding memchr cells
memchr-IsFoundIn zero b x mem = inr (refl, refl)
memchr-IsFoundIn (suc n) b x mem = elim (Bool-cases (mem b == x)) [
  | inl e ↦ inl (0, omega arith, rw e (ap some (omega arith)), ground (arith, e), rw e refl)
  | inr e ↦ elim (memchr-IsFoundIn n (b + 1) x mem) [
    | inl (i, lt, f, h, g) ↦ inl (
      suc i,
      omega (arith, lt),
      rw e (f ∙ ap some (omega arith)),
      ground (arith, h),
      rw e (ap (λ l. mem b ∷ l) g),
    )
    | inr (f, h) ↦ inr (rw e f, ground (arith, e, h))
  ]
]

-- What the flag is before the first comparison has no effect.
memchr-flag :
    (zf : Bool) (n b x : ℕ) (mem : ℕ → ℕ)
    → (zf ≡ false) ⊎ (0 < n)
    → memchr zf b x n mem ≡ memchr false b x n mem
unfolding memchr
memchr-flag zf zero b x mem (inl e) = rw e refl
memchr-flag zf zero b x mem (inr h) = absurd (omega (arith, h))
memchr-flag zf (suc n) b x mem h = refl

-- On an empty array with the flag set, the answer is the byte before the buffer, and the call fails
-- the assertion of `ckArray8Erase`.
remove-empty :
    (a : Array8) (x : ℕ) → a.now ≡ a.buf → 0 < a.buf → a.buf < 2 ^ 32 → remove true x a ≡ none
unfolding remove find remove_found memchr erase
remove-empty a x e pos word =
    let left : a.now - a.buf ≡ 0 = omega (arith, e) in
    let out : leb a.buf (sub32 a.buf 1) ≡ false = ground (arith, pos, word) in rw (left, out) refl

empty-contents : (a : Array8) → a.now ≡ a.buf → contents a ≡ []
unfolding cells
empty-contents a e = let left : a.now - a.buf ≡ 0 = omega (arith, e) in rw left refl

flag-cases :
    (a : Array8)
    → IsArray a
    → (zf : Bool) → ((zf ≡ true) × (a.now ≡ a.buf)) ⊎ ((zf ≡ false) ⊎ (0 < a.now - a.buf))
flag-cases a ok false = inr (inl refl)
flag-cases a ok true = elim (Bool-cases (a.now == a.buf)) [
  | inl e ↦ inl (refl, (==_iff a.now a.buf).0 e)
  | inr e ↦ inr (inr (ground (arith, e, ok.start)))
]

module _ (a : Array8) (ok : IsArray a) where
  -- `ckArray8Remove` of a value, taken as a byte, from a valid array whose buffer is not at the
  -- null pointer. If the array is empty and the zero flag of the processor is set before the
  -- search, the call fails the assertion of `ckArray8Erase`. Otherwise, if the array does not hold
  -- the value, the answer is the null pointer and nothing changes; if it does, the call passes the
  -- assertion and answers a pointer, the array is valid again, and it holds what it held without
  -- the first occurrence of the value.
  pub remove-contents :
      (zf : Bool) (x : ℕ)
      → 0 < a.buf
      → a.buf < 2 ^ 32
      → ((zf ≡ true) × (contents a ≡ []) × (remove zf x a ≡ none))
        ⊎ ((has (x % 2 ^ 8) (contents a) ≡ false) × (remove zf x a ≡ some (none, a)))
        ⊎ ((ptr : ℕ) × (a' : Array8) × (has (x % 2 ^ 8) (contents a) ≡ true)
            × (remove zf x a ≡ some (some ptr, a'))
            × IsArray a'
            × (contents a' ≡ remove_first (x % 2 ^ 8) (contents a)))
  unfolding remove find remove_found
  remove-contents zf x pos word = elim (flag-cases a ok zf) [
    | inl (e, none_held) ↦ inl (
      e,
      empty-contents a none_held,
      ap (λ b. remove b x a) e ∙ remove-empty a x none_held pos word,
    )
    | inr flag ↦
        let same = memchr-flag zf (a.now - a.buf) a.buf (x % 2 ^ 8) a.mem flag in
        elim (memchr-IsFoundIn (a.now - a.buf) a.buf (x % 2 ^ 8) a.mem) [
          | inl (i, lt, f, h, g) ↦
              let (a', e, valid, same_end, c) = erase-contents a ok i (unfold size in lt) in
              inr (inr (a.buf + i, a', h, rw (same, f, e) refl, valid, c ∙ g))
          | inr (f, h) ↦ inr (inl (h, rw (same, f) refl))
        ]
  ]
