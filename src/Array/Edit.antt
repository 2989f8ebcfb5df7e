-- ===== src/Array/Edit.antt =====
-- The operations of the byte arrays of src/array.c as operations on the list of bytes they hold.
use mathlib.Core.Path.{subst}
use clubcos.Array.{with_value, Array8, memmove, size, insert, erase, append, pop_back}
use clubcos.Array.Copy.{IsForward, memcpy-memmove, memcpy-back}
use clubcos.Array.Cells.{cells, cells-same, cells-add, length-cells, take-cells, drop-cells}
use clubcos.Prelude.{
  ℕ, zero, suc, ◌+◌, ◌-◌, ◌%◌, ◌^◌, ◌≤◌, ◌<◌, ◌≡◌, refl, ap, ◌∙◌, ◌⊎◌, inl, inr, true, false, ◌&&◌,
  none, some, List, [], ◌∷◌, ◌++◌, arith, ltb, leb, ◌==◌, Bool-cases, length, take, drop, upd,
}

pub record IsArray (a : Array8) : Type 0 where
  pub start : a.buf ≤ a.now
  pub inside : a.now ≤ a.end

abbrev pub contents : Array8 → List ℕ
contents a = cells a.mem a.buf (a.now - a.buf)

-- Writing behind a gap of one byte, and closing it.
insert-cells :
    (m : ℕ → ℕ) (b i k x : ℕ)
    → cells (upd (memmove (b + i + 1) (b + i) k m) (b + i) x) b (i + suc k)
      ≡ cells m b i ++ x ∷ cells m (b + i) k
unfolding cells
insert-cells m b i k x =
    let m' = upd (memmove (b + i + 1) (b + i) k m) (b + i) x in
    let before = cells-same m' m b b i (λ j lt. ground arith) in
    let at : m' (b + i) ≡ x = ground arith in
    let behind = cells-same m' m (b + i + 1) (b + i) k (λ j lt.
      let e : b + i + (b + i + 1 + j - (b + i + 1)) ≡ b + i + j = omega arith in
      ground (arith, ap m e)) in
    cells-add m' b i (suc k) ∙ rw (before, at, behind) refl

erase-cells :
    (m : ℕ → ℕ) (b i k : ℕ)
    → cells (memmove (b + i) (b + i + 1) k m) b (i + k) ≡ cells m b i ++ cells m (b + i + 1) k
erase-cells m b i k =
    let m' = memmove (b + i) (b + i + 1) k m in
    let before = cells-same m' m b b i (λ j lt. ground arith) in
    let behind = cells-same m' m (b + i) (b + i + 1) k (λ j lt.
      let e : b + i + 1 + (b + i + j - (b + i)) ≡ b + i + 1 + j = omega arith in
      ground (arith, ap m e)) in
    cells-add m' b i k ∙ rw (before, behind) refl

module _ (a : Array8) (ok : IsArray a) where
  -- `ckArray8Insert` at a position inside a valid array or at its end: if the array is full, it
  -- answers false and changes nothing; otherwise it answers true, and the bytes are those before
  -- with the new one, cut to eight bits, at the position.
  pub insert-contents :
      (i x : ℕ)
      → i ≤ size a
      → ((a.now ≡ a.end) × (insert (a.buf + i) x a ≡ some (false, a)))
        ⊎ ((a' : Array8) × (insert (a.buf + i) x a ≡ some (true, a'))
            × IsArray a'
            × (a'.end ≡ a.end)
            × (contents a' ≡ take i (contents a) ++ x % 2 ^ 8 ∷ drop i (contents a)))
  unfolding insert size
  insert-contents i x le =
      let in_bounds : (leb a.buf (a.buf + i) && leb (a.buf + i) a.now) ≡ true =
        ground (arith, ok.start) in
      elim (Bool-cases (a.now == a.end)) [
        | inl full ↦ inl (ground arith, rw (in_bounds, full) refl)
        | inr room ↦
            let k : ℕ = a.now - a.buf - i in
            let n : a.now - a.buf ≡ i + k = omega (arith, ok.start, le) in
            let after : a.now + 1 - a.buf ≡ i + suc k = omega (arith, ok.start, le) in
            let count : a.now - (a.buf + i) ≡ k = omega (arith, ok.start, le) in
            let first = ap (take i) (ap (cells a.mem a.buf) n) ∙ take-cells a.mem a.buf i k in
            let rest = ap (drop i) (ap (cells a.mem a.buf) n) ∙ drop-cells a.mem a.buf i k in
            inr (
              record a {
                mem = upd (memmove (a.buf + i + 1) (a.buf + i) k a.mem) (a.buf + i) (x % 2 ^ 8);
                now = a.now + 1;
              },
              rw (in_bounds, room, count) refl,
              record { start = omega (arith, ok.start); inside = ground (arith, ok.inside, room) },
              refl,
              rw (first, rest) (rw after (insert-cells a.mem a.buf i k (x % 2 ^ 8))),
            )
      ]

  -- `ckArray8Erase` at a position inside a valid array does not fail its assertion, and takes
  -- exactly the byte at that position out.
  pub erase-contents :
      (i : ℕ)
      → i < size a
      → (a' : Array8) × (erase (a.buf + i) a ≡ some a')
        × IsArray a'
        × (a'.end ≡ a.end)
        × (contents a' ≡ take i (contents a) ++ drop (suc i) (contents a))
  unfolding erase size
  erase-contents i lt =
      let k : ℕ = a.now - a.buf - i - 1 in
      let n : a.now - a.buf ≡ i + suc k = omega (arith, ok.start, lt) in
      let n' : a.now - a.buf ≡ suc i + k = omega (arith, ok.start, lt) in
      let after : a.now - 1 - a.buf ≡ i + k = omega (arith, ok.start, lt) in
      let count : a.now - (a.buf + i) - 1 ≡ k = omega (arith, ok.start, lt) in
      let in_bounds : (leb a.buf (a.buf + i) && ltb (a.buf + i) a.now) ≡ true =
        ground (arith, ok.start) in
      let next : a.buf + suc i ≡ a.buf + i + 1 = omega arith in
      let first = ap (take i) (ap (cells a.mem a.buf) n) ∙ take-cells a.mem a.buf i (suc k) in
      let rest =
        ap (drop (suc i)) (ap (cells a.mem a.buf) n')
        ∙ drop-cells a.mem a.buf (suc i) k
        ∙ ap (λ q. cells a.mem q k) next in
      (
        record a { mem = memmove (a.buf + i) (a.buf + i + 1) k a.mem; now = a.now - 1 },
        rw (in_bounds, count, memcpy-back (a.buf + i) k a.mem) refl,
        record { start = omega (arith, ok.start, lt); inside = omega (arith, ok.inside) },
        refl,
        rw (first, rest) (rw after (erase-cells a.mem a.buf i k)),
      )

-- `ckArray8PopBack` fails an assertion on every array, its own or that of `ckArray8Erase`.
pub pop_back-none : (a : Array8) → pop_back a ≡ none
unfolding pop_back erase with_value
pop_back-none a =
    let e : (leb a.buf (a.now - 1) && ltb (a.now - 1) (a.now - 1)) ≡ false = ground arith in
    elim (Bool-cases (ltb a.buf a.now)) [ inl h ↦ rw (h, e) refl | inr h ↦ rw h refl ]

take-all {ℓ} : {A : Type ℓ} (n : ℕ) (xs : List A) → length xs ≤ n → take n xs ≡ xs
take-all zero [] h = refl
take-all (suc n) [] h = refl
take-all zero (x ∷ xs) h = absurd (omega arith)
take-all (suc n) (x ∷ xs) h = ap (λ l. x ∷ l) (take-all n xs (omega arith))

-- Copying a block behind a list of bytes that does not overlap it.
append-cells :
    (m : ℕ → ℕ) (b n src len : ℕ)
    → (src + len ≤ b + n) ⊎ (b + n + len ≤ src)
    → cells (memmove (b + n) src len m) b (n + len) ≡ cells m b n ++ cells m src len
append-cells m b n src len apart =
    let m' = memmove (b + n) src len m in
    let before = cells-same m' m b b n (λ j lt. ground arith) in
    let behind = cells-same m' m (b + n) src len (λ j lt.
      let e : src + (b + n + j - (b + n)) ≡ src + j = omega arith in ground (arith, ap m e)) in
    cells-add m' b n len ∙ rw (before, behind) refl

append-IsForward :
    (a : Array8) (src srcend len : ℕ)
    → IsArray a
    → (srcend ≤ a.buf) ⊎ (a.end ≤ src)
    → src + len ≤ srcend
    → IsForward a.now src len
append-IsForward a src srcend len ok (inl h) le = inr (omega (arith, ok.start))
append-IsForward a src srcend len ok (inr h) le = inl (omega (arith, ok.inside))

-- `ckArray8Append` to a valid array, of a source that lies before or behind the whole array: the
-- array stays valid and gets as many bytes of the source, from its start, as there is room for.
pub append-contents :
    (a : Array8) (src srcend : ℕ)
    → IsArray a
    → src ≤ srcend
    → (srcend ≤ a.buf) ⊎ (a.end ≤ src)
    → IsArray (append a src srcend)
      × (contents (append a src srcend)
          ≡ contents a ++ take (a.end - a.now) (cells a.mem src (srcend - src)))
unfolding append
append-contents a src srcend ok le apart =
    let n : ℕ = a.now - a.buf in
    let at : a.buf + n ≡ a.now = omega (arith, ok.start) in
    let room : ℕ = a.end - a.now in
    elim (Bool-cases (ltb (srcend - src) room)) [
      | inl short ↦
          let len : ℕ = srcend - src in
          let all =
            take-all room (cells a.mem src len) (ground (arith, length-cells a.mem src len)) in
          let total : a.now + len - a.buf ≡ n + len = omega (arith, ok.start) in
          let copied = append-cells a.mem a.buf n src len (ground (arith, ok.inside, ok.start)) in
          let copied' =
            subst
              (λ d.
                cells (memmove d src len a.mem) a.buf (n + len)
                ≡ cells a.mem a.buf n ++ cells a.mem src len)
              at copied in
          let block =
            memcpy-memmove a.now src len a.mem
              (append-IsForward a src srcend len ok apart (omega arith)) in
          rw (short, all)
            (
              record { start = omega (arith, ok.start); inside = ground (arith, ok.inside) },
              rw (block, total) copied',
            )
      | inr long ↦
          let rest : srcend - src ≡ room + (srcend - src - room) = ground arith in
          let part =
            ap (take room) (ap (cells a.mem src) rest)
            ∙ take-cells a.mem src room (srcend - src - room) in
          let total : a.now + room - a.buf ≡ n + room = omega (arith, ok.start) in
          let copied = append-cells a.mem a.buf n src room (ground (arith, ok.inside, ok.start)) in
          let copied' =
            subst
              (λ d.
                cells (memmove d src room a.mem) a.buf (n + room)
                ≡ cells a.mem a.buf n ++ cells a.mem src room)
              at copied in
          let block =
            memcpy-memmove a.now src room a.mem
              (append-IsForward a src srcend room ok apart (ground (arith, long))) in
          rw (long, part)
            (
              record { start = omega (arith, ok.start); inside = omega (arith, ok.inside) },
              rw (block, total) copied',
            )
    ]
