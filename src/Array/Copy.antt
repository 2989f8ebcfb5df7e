-- ===== src/Array/Copy.antt =====
-- `_memcpy_forward` of src/string.asm against a copy of the block as it was.
use mathlib.Core.Path.{fun_ext, subst}
use clubcos.Array.{memmove, copy_bytes, copy_words, memcpy}
use clubcos.Prelude.{
  ℕ, zero, suc, ◌+◌, ◌-◌, ◌*◌, ◌/◌, ◌%◌, ◌≤◌, ◌≡◌, refl, sym, ap, ◌∙◌, ◌⊎◌, inl, inr, true, false,
  ◌&&◌, arith, ltb, leb, ◌==◌, Bool-cases, upd,
}

-- The blocks are apart, or the copy goes towards lower addresses.
abbrev pub IsForward : ℕ → ℕ → ℕ → Type 0
IsForward dest src n = (dest ≤ src) ⊎ (src + n ≤ dest)

shifted-IsForward :
    (m dest src n : ℕ) → IsForward dest src (m + n) → IsForward (dest + m) (src + m) n
shifted-IsForward m dest src n (inl h) = inl (omega arith)
shifted-IsForward m dest src n (inr h) = inr (omega arith)

shorter : (m n dest src : ℕ) → IsForward dest src (m + n) → IsForward dest src m
shorter m n dest src (inl h) = inl h
shorter m n dest src (inr h) = inr (omega arith)

upd-memmove : (dest src q : ℕ) (mem : ℕ → ℕ) → upd mem dest (mem src) q ≡ memmove dest src 1 mem q
upd-memmove dest src q mem = elim (Bool-cases (dest == q)) [
  | inl e ↦
      let at : src + (q - dest) ≡ src = ground (arith, e) in
      let here : (leb dest q && ltb q (dest + 1)) ≡ true = ground (arith, e) in
      rw (here, at) (ground (arith, e))
  | inr e ↦
      let out : (leb dest q && ltb q (dest + 1)) ≡ false = ground (arith, e) in
      rw out (ground (arith, e))
]

-- The first `m` bytes are copied, and then the other ones.
memmove-split :
    (m n dest src q : ℕ) (mem mem' : ℕ → ℕ)
    → IsForward dest src (m + n)
    → ((p : ℕ) → mem' p ≡ memmove dest src m mem p)
    → memmove (dest + m) (src + m) n mem' q ≡ memmove dest src (m + n) mem q
memmove-split m n dest src q mem mem' h e =
    let p : ℕ = src + m + (q - (dest + m)) in
    let same : (leb (dest + m) q ≡ true) → p ≡ src + (q - dest) = λ i. ground (arith, i) in
    elim (Bool-cases (leb (dest + m) q && ltb q (dest + m + n))) [
      | inl here ↦
          let first : leb (dest + m) q ≡ true = ground (arith, here) in
          let out : (leb dest p && ltb p (dest + m)) ≡ false = ground (arith, h, here) in
          let whole : (leb dest q && ltb q (dest + (m + n))) ≡ true = ground (arith, here) in
          rw (here, whole) (e p ∙ (rw out refl) ∙ ap mem (same first))
      | inr else_where ↦
          let rest : (leb dest q && ltb q (dest + (m + n))) ≡ (leb dest q && ltb q (dest + m)) =
            ground (arith, else_where) in
          rw (else_where, rest) (e q)
    ]

copy_bytes-memmove :
    (n dest src q : ℕ) (mem : ℕ → ℕ)
    → IsForward dest src n
    → copy_bytes dest src n mem q ≡ memmove dest src n mem q
unfolding copy_bytes
copy_bytes-memmove zero dest src q mem h =
    let out : (leb dest q && ltb q (dest + 0)) ≡ false = ground arith in rw out refl
copy_bytes-memmove (suc n) dest src q mem h =
    let size : suc n ≡ 1 + n = omega arith in
    let h' : IsForward dest src (1 + n) = subst (IsForward dest src) size h in
    copy_bytes-memmove n (dest + 1) (src + 1) q (upd mem dest (mem src))
      (shifted-IsForward 1 dest src n h')
    ∙ memmove-split 1 n dest src q mem (upd mem dest (mem src)) h' (λ p. upd-memmove dest src p mem)
    ∙ ap (λ k. memmove dest src k mem q) (sym size)

copy_words-memmove :
    (n dest src q : ℕ) (mem : ℕ → ℕ)
    → IsForward dest src (n * 4)
    → copy_words dest src n mem q ≡ memmove dest src (n * 4) mem q
unfolding copy_words
copy_words-memmove zero dest src q mem h =
    let out : (leb dest q && ltb q (dest + 0)) ≡ false = ground arith in rw out refl
copy_words-memmove (suc n) dest src q mem h =
    let size : suc n * 4 ≡ 4 + n * 4 = omega arith in
    let h' : IsForward dest src (4 + n * 4) = subst (IsForward dest src) size h in
    copy_words-memmove n (dest + 4) (src + 4) q (memmove dest src 4 mem)
      (shifted-IsForward 4 dest src (n * 4) h')
    ∙ memmove-split 4 (n * 4) dest src q mem (memmove dest src 4 mem) h' (λ p. refl)
    ∙ ap (λ k. memmove dest src k mem q) (sym size)

-- When the blocks are apart, or the destination comes first, `_memcpy_forward` copies the block as
-- it was.
pub memcpy-memmove :
    (dest src count : ℕ) (mem : ℕ → ℕ)
    → IsForward dest src count
    → memcpy dest src count mem ≡ memmove dest src count mem
unfolding memcpy
memcpy-memmove dest src count mem h = fun_ext (λ q.
    let whole : ℕ = count / 4 * 4 in
    let size : whole + count % 4 ≡ count = omega arith in
    let h' : IsForward dest src (whole + count % 4) = subst (IsForward dest src) (sym size) h in
    copy_bytes-memmove (count % 4) (dest + whole) (src + whole) q _
      (shifted-IsForward whole dest src (count % 4) h')
    ∙ memmove-split whole (count % 4) dest src q mem (copy_words dest src (count / 4) mem) h'
        (λ p. copy_words-memmove (count / 4) dest src p mem (shorter whole (count % 4) dest src h'))
    ∙ ap (λ k. memmove dest src k mem q) size)

-- So does a copy to the byte before.
pub memcpy-back :
    (p count : ℕ) (mem : ℕ → ℕ) → memcpy p (p + 1) count mem ≡ memmove p (p + 1) count mem
memcpy-back p count mem = memcpy-memmove p (p + 1) count mem (inl (omega arith))
