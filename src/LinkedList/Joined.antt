-- ===== src/LinkedList/Joined.antt =====
-- The links of a list of src/linkedlist.c while several tasks are in the middle of pushes to it.
use clubcos.LinkedList.Chain.{Chain}
use clubcos.LinkedList.Lockfree.{PushPc, finished, fix}
use clubcos.Prelude.{
  ℕ, ◌≡◌, refl, sym, ap, ◌∙◌, ◌⊎◌, inl, inr, true, false, List, [], ◌∷◌, ◌++◌, arith, ◌==◌, ==_iff,
  Bool-cases, upd, has, Distinct, has_same,
}

-- From `a` the previous pointers of `bs` lead back from `d`. A node is linked in forwards too, or
-- the task that pushes it is about to write the pointer of the node before it.
abbrev pub Joined : (ℕ → ℕ) → (ℕ → ℕ) → (ℕ → PushPc) → ℕ → List ℕ → ℕ → Type 0
Joined next prev pc a [] d = (next a ≡ d) × (prev d ≡ a)
Joined next prev pc a (b ∷ bs) d =
    (prev b ≡ a)
    × (((next a ≡ b) × (pc b ≡ finished)) ⊎ (pc b ≡ fix a))
    × Joined next prev pc b bs d

fixed : PushPc → ℕ
fixed (fix l) = l
fixed _ = 0

fix-inj : {a b : ℕ} → fix a ≡ fix b → a ≡ b
unfolding fixed
fix-inj e = ap fixed e

module _ (next prev : ℕ → ℕ) (pc : ℕ → PushPc) where
  pub Joined-frame :
      (next' prev' : ℕ → ℕ) (pc' : ℕ → PushPc) (a : ℕ) (bs : List ℕ) (d : ℕ)
      → ((q : ℕ) → has q (a ∷ bs) ≡ true → next' q ≡ next q)
      → ((q : ℕ) → has q (bs ++ d ∷ []) ≡ true → prev' q ≡ prev q)
      → ((q : ℕ) → has q bs ≡ true → pc' q ≡ pc q)
      → Joined next prev pc a bs d
      → Joined next' prev' pc' a bs d
  Joined-frame next' prev' pc' a [] d f g h (i, j) =
      (f a (ground arith) ∙ i, g d (ground arith) ∙ j)
  Joined-frame next' prev' pc' a (b ∷ bs) d f g h (i, j, k) = (
    g b (ground arith) ∙ i,
    (elim j [
      | inl (l, m) ↦ inl (f a (ground arith) ∙ l, h b (ground arith) ∙ m)
      | inr l ↦ inr (h b (ground arith) ∙ l)
    ]),
    Joined-frame next' prev' pc' b bs d (λ q o. f q (ground (arith, o)))
        (λ q o. g q (ground (arith, o))) (λ q o. h q (ground (arith, o))) k,
  )

  -- When nobody is in the middle of a push, the list is linked both ways.
  pub Joined-Chain :
      (a : ℕ) (bs : List ℕ) (d : ℕ)
      → ((q : ℕ) → has q bs ≡ true → pc q ≡ finished)
      → Joined next prev pc a bs d
      → Chain next prev a bs d
  Joined-Chain a [] d h j = j
  Joined-Chain a (b ∷ bs) d h (i, inl (l, m), k) =
      (l, i, Joined-Chain b bs d (λ q o. h q (ground (arith, o))) k)
  Joined-Chain a (b ∷ bs) d h (i, inr l, k) =
      let clash : ◌≡◌ {A = PushPc} finished (fix a) = sym (h b (ground arith)) ∙ l in absurd cc

  pub Chain-Joined :
      (a : ℕ) (bs : List ℕ) (d : ℕ)
      → ((q : ℕ) → has q bs ≡ true → pc q ≡ finished)
      → Chain next prev a bs d
      → Joined next prev pc a bs d
  Chain-Joined a [] d h c = c
  Chain-Joined a (b ∷ bs) d h (l, i, k) =
      (i, inl (l, h b (ground arith)), Chain-Joined b bs d (λ q o. h q (ground (arith, o))) k)

  -- The last node takes over from `d`.
  pub Joined-snoc :
      (pc' : ℕ → PushPc) (a : ℕ) (bs : List ℕ) (d p : ℕ)
      → has d bs ≡ false
      → has p (a ∷ bs) ≡ false
      → (p == d) ≡ false
      → next p ≡ d
      → prev p ≡ prev d
      → pc' p ≡ fix (prev d)
      → ((q : ℕ) → has q bs ≡ true → pc' q ≡ pc q)
      → Joined next prev pc a bs d
      → Joined next (upd prev d p) pc' a (bs ++ p ∷ []) d
  Joined-snoc pc' a [] d p nd np ne ahead behind at same (i, j) =
      (ground (arith, ne, behind, j), inr (at ∙ ap fix j), (ahead, ground arith))
  Joined-snoc pc' a (b ∷ bs) d p nd np ne ahead behind at same (i, j, k) = (
    ground (arith, nd, i),
    (elim j [
      | inl (l, m) ↦ inl (l, same b (ground arith) ∙ m)
      | inr l ↦ inr (same b (ground arith) ∙ l)
    ]),
    Joined-snoc pc' b bs d p (ground (arith, nd)) (ground (arith, np)) ne ahead behind at
        (λ q o. same q (ground (arith, o))) k,
  )

  -- A node that is about to be linked in forwards comes behind the node of its pointer.
  fix-before :
      (a b l : ℕ) → ((next a ≡ b) × (pc b ≡ finished)) ⊎ (pc b ≡ fix a) → pc b ≡ fix l → a ≡ l
  fix-before a b l (inl (x, m)) e =
      let clash : ◌≡◌ {A = PushPc} finished (fix l) = sym m ∙ e in absurd cc
  fix-before a b l (inr m) e = fix-inj (sym m ∙ e)

  pub Joined-before :
      (a : ℕ) (bs : List ℕ) (d p l : ℕ)
      → has p bs ≡ true
      → pc p ≡ fix l
      → Joined next prev pc a bs d
      → has l (a ∷ bs) ≡ true
  Joined-before a [] d p l h e j = absurd (ground (arith, h))
  Joined-before a (b ∷ bs) d p l h e (i, j, k) = elim (Bool-cases (p == b)) [
    | inl same ↦
        let f = fix-before a b l j (ap pc (sym ((==_iff p b).0 same)) ∙ e) in ground (arith, f)
    | inr other ↦ ground (arith, Joined-before b bs d p l (ground (arith, h, other)) e k)
  ]

  -- The pointer of the node before it is written.
  pub Joined-fix :
      (a : ℕ) (bs : List ℕ) (d p l : ℕ)
      → Distinct (a ∷ bs)
      → has p bs ≡ true
      → pc p ≡ fix l
      → Joined next prev pc a bs d
      → Joined (upd next l p) prev (upd pc p finished) a bs d
  Joined-fix a [] d p l dis h e j = absurd (ground (arith, h))
  Joined-fix a (b ∷ bs) d p l dis h e (i, j, k) = elim (Bool-cases (p == b)) [
    | inl same ↦
        let same' : p ≡ b = (==_iff p b).0 same in
        let f : a ≡ l = fix-before a b l j (ap pc (sym same') ∙ e) in
        (
          i,
          inl (ground (arith, f, same), ground (arith, same)),
          Joined-frame (upd next l p) prev (upd pc p finished) b bs d
              (λ q o. ground (arith, f, dis.0, has_same a q (b ∷ bs) o)) (λ q o. refl)
              (λ q o. ground (arith, same, dis.1, has_same b q bs o)) k,
        )
    | inr other ↦
        let l_in : has l (b ∷ bs) ≡ true =
          Joined-before b bs d p l (ground (arith, h, other)) e k in
        let not_a : (l == a) ≡ false = has_same a l (b ∷ bs) l_in dis.0 in
        (
          i,
          elim j [
            | inl (x, m) ↦ inl (ground (arith, not_a, x), ground (arith, other, m))
            | inr m ↦ inr (ground (arith, other, m))
          ],
          Joined-fix b bs d p l dis.1 (ground (arith, h, other)) e k,
        )
  ]
