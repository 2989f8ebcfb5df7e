-- ===== src/LinkedList/Chain.antt =====
-- Segments of a doubly linked list, and how writes at their ends change them.
use clubcos.Prelude.{
  ℕ, ◌≡◌, ◌∙◌, ◌≢◌, true, false, List, [], ◌∷◌, ◌++◌, arith, upd, has, Distinct, has-append,
}

-- From `a` the next pointers lead through `xs` to `b`, and the previous pointers lead back.
abbrev pub Chain : (ℕ → ℕ) → (ℕ → ℕ) → ℕ → List ℕ → ℕ → Type 0
Chain next prev a [] b = (next a ≡ b) × (prev b ≡ a)
Chain next prev a (x ∷ xs) b = (next a ≡ x) × (prev x ≡ a) × Chain next prev x xs b

-- A chain reads `next` at all its nodes but the last, and `prev` at all but the first.
pub Chain-frame :
    (next prev next' prev' : ℕ → ℕ) (a : ℕ) (xs : List ℕ) (b : ℕ)
    → ((q : ℕ) → has q (a ∷ xs) ≡ true → next' q ≡ next q)
    → ((q : ℕ) → has q (xs ++ b ∷ []) ≡ true → prev' q ≡ prev q)
    → Chain next prev a xs b
    → Chain next' prev' a xs b
Chain-frame next prev next' prev' a [] b h k c =
    (h a (ground arith) ∙ c.0, k b (ground arith) ∙ c.1)
Chain-frame next prev next' prev' a (x ∷ xs) b h k c = (
  h a (ground arith) ∙ c.0,
  k x (ground arith) ∙ c.1,
  Chain-frame next prev next' prev' x xs b (λ q i. h q (ground arith)) (λ q i. k q (ground arith))
      c.2,
)

module _ (next prev : ℕ → ℕ) where
  -- The node before the end is one of the chain's.
  pub Chain-last :
      (a : ℕ) (xs : List ℕ) (b : ℕ) → Chain next prev a xs b → has (prev b) (a ∷ xs) ≡ true
  Chain-last a [] b c = ground arith
  Chain-last a (x ∷ xs) b c = ground (arith, Chain-last x xs b c.2)

  pub Chain-prev :
      (a : ℕ) (xs : List ℕ) (p : ℕ) (ys : List ℕ) (b : ℕ)
      → Chain next prev a (xs ++ p ∷ ys) b
      → has (prev p) (a ∷ xs) ≡ true
  Chain-prev a [] p ys b c = ground arith
  Chain-prev a (x ∷ xs) p ys b c = ground (arith, Chain-prev x xs p ys b c.2)

  pub Chain-next :
      (a : ℕ) (xs : List ℕ) (p : ℕ) (ys : List ℕ) (b : ℕ)
      → Chain next prev a (xs ++ p ∷ ys) b
      → has (next p) (ys ++ b ∷ []) ≡ true
  Chain-next a [] p [] b c = ground arith
  Chain-next a [] p (y ∷ ys) b c = ground arith
  Chain-next a (x ∷ xs) p ys b c = Chain-next x xs p ys b c.2

  -- Linking `p` in before the end `b`.
  pub Chain-snoc :
      (a : ℕ) (xs : List ℕ) (b p : ℕ)
      → Distinct (a ∷ xs)
      → has b xs ≡ false
      → has p (a ∷ xs) ≡ false
      → p ≢ b
      → Chain next prev a xs b
      → Chain (upd (upd next p b) (prev b) p) (upd (upd prev p (prev b)) b p) a (xs ++ p ∷ []) b
  Chain-snoc a [] b p d hb hp ne c = (ground arith, ground arith, (ground arith, ground arith))
  Chain-snoc a (x ∷ xs) b p d hb hp ne c = (
    ground (arith, Chain-last x xs b c.2),
    ground arith,
    Chain-snoc x xs b p d.1 (ground arith) (ground arith) ne c.2,
  )

  -- Unlinking `p`.
  pub Chain-erase :
      (a : ℕ) (xs : List ℕ) (p : ℕ) (ys : List ℕ) (b : ℕ)
      → Distinct (a ∷ xs ++ p ∷ ys)
      → has b (xs ++ p ∷ ys) ≡ false
      → Chain next prev a (xs ++ p ∷ ys) b
      → Chain (upd next (prev p) (next p)) (upd prev (next p) (prev p)) a (xs ++ ys) b
  Chain-erase a [] p [] b d hb c = (ground arith, ground arith)
  Chain-erase a [] p (y ∷ ys) b d hb c = (
    ground arith,
    ground arith,
    Chain-frame next prev _ _ y ys b (λ q i. ground arith)
        (λ q i. ground (arith, has-append q ys (b ∷ []), has-append y ys (b ∷ []))) c.2.2,
  )
  Chain-erase a (x ∷ xs) p ys b d hb c = (
    ground (arith, Chain-prev x xs p ys b c.2, has-append a xs (p ∷ ys)),
    ground (
      arith,
      Chain-next x xs p ys b c.2,
      has-append x xs (p ∷ ys),
      has-append b xs (p ∷ ys),
      has-append x ys (b ∷ []),
    ),
    Chain-erase x xs p ys b d.1 (ground arith) c.2,
  )
