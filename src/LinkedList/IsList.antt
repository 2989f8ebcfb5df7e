-- ===== src/LinkedList/IsList.antt =====
-- The lists that the memory holds, and each operation as an operation on sequences of nodes.
use clubcos.LinkedList.{init, push_back, pop_front, erase}
use clubcos.LinkedList.Chain.{
  Chain, Chain-frame, Chain-last, Chain-snoc, Chain-erase, Chain-prev, Chain-next,
}
use clubcos.Prelude.{
  ℕ, suc, ◌^◌, ◌<◌, ◌≡◌, refl, ◌∙◌, true, false, none, some, List, [], ◌∷◌, ◌++◌, arith, length,
  length-append, Store, has, Distinct, has-append, Distinct-snoc, Distinct-remove, has_same,
}

-- The list at `d` holds the nodes `xs`, first to last.
pub record IsList (s : Store) (d : ℕ) (xs : List ℕ) : Type 0 where
  pub chain : Chain s.next s.prev d xs d
  pub distinct : Distinct (d ∷ xs)
  pub sized : s.third d ≡ length xs
  pub small : length xs < 2 ^ 32

-- `t` differs from `s` at most at the pointers of `zs`.
pub record SameOutside (zs : List ℕ) (s t : Store) : Type 0 where
  pub same_next : (q : ℕ) → has q zs ≡ false → t.next q ≡ s.next q
  pub same_prev : (q : ℕ) → has q zs ≡ false → t.prev q ≡ s.prev q
  pub same_third : (q : ℕ) → has q zs ≡ false → t.third q ≡ s.third q

-- A list survives whatever happens outside its own nodes.
pub IsList-frame :
    {s t : Store} {d : ℕ} {xs zs : List ℕ}
    → SameOutside zs s t
    → ((q : ℕ) → has q (d ∷ xs) ≡ true → has q zs ≡ false)
    → IsList s d xs
    → IsList t d xs
IsList-frame {s} {t} {d} {xs} {zs} o apart l = record {
  chain =
      Chain-frame s.next s.prev t.next t.prev d xs d (λ q i. o.same_next q (apart q i))
        (λ q i. o.same_prev q (apart q (ground (arith, has-append q xs (d ∷ []))))) l.chain;
  distinct = l.distinct;
  sized = o.same_third d (apart d (ground arith)) ∙ l.sized;
  small = l.small;
}

pub init-IsList : (d : ℕ) (s : Store) → IsList (init d s) d []
unfolding init
init-IsList d s = record {
  chain = (ground arith, ground arith);
  distinct = (refl, tt);
  sized = ground arith;
  small = omega arith;
}

pub init-SameOutside : (d : ℕ) (s : Store) → SameOutside (d ∷ []) s (init d s)
unfolding init
init-SameOutside d s = record {
  same_next = λ q h. ground arith;
  same_prev = λ q h. ground arith;
  same_third = λ q h. ground arith;
}

module _ {s : Store} {d : ℕ} where
  -- If the list at `d` holds the nodes `xs`, fewer than 2^32 - 1 of them, and `p` is neither `d`
  -- nor one of them, then after `ckLinkedListPushBack` it holds `xs` followed by `p`, with both
  -- directions of links and the size right.
  pub push_back-IsList :
      {xs : List ℕ} (p : ℕ)
      → IsList s d xs
      → has p (d ∷ xs) ≡ false
      → suc (length xs) < 2 ^ 32
      → IsList (push_back d p s) d (xs ++ p ∷ [])
  unfolding push_back
  push_back-IsList {xs} p l new room = record {
    chain = Chain-snoc s.next s.prev d xs d p l.distinct l.distinct.0 new (ground arith) l.chain;
    distinct = Distinct-snoc (d ∷ xs) p l.distinct new;
    sized = ground (arith, l.sized, length-append xs (p ∷ []));
    small = omega (arith, length-append {0} xs (p ∷ []));
  }

  pub push_back-SameOutside :
      {xs : List ℕ} (p : ℕ) → IsList s d xs → SameOutside (p ∷ d ∷ xs) s (push_back d p s)
  unfolding push_back
  push_back-SameOutside {xs} p l =
      let i = Chain-last s.next s.prev d xs d l.chain in
      record {
        same_next = λ q h. grind (arith, i);
        same_prev = λ q h. ground arith;
        same_third = λ q h. ground arith;
      }

  -- If the list at `d` holds `xs`, `p` and `ys` in this order, then after `ckLinkedListErase` of
  -- `p` it holds `xs` followed by `ys`.
  pub erase-IsList :
      (xs : List ℕ) (p : ℕ) (ys : List ℕ)
      → IsList s d (xs ++ p ∷ ys)
      → IsList (erase d p s) d (xs ++ ys)
  unfolding erase
  erase-IsList xs p ys l = record {
    chain = Chain-erase s.next s.prev d xs p ys d l.distinct l.distinct.0 l.chain;
    distinct = Distinct-remove (d ∷ xs) p ys l.distinct;
    sized = ground (arith, l.sized, l.small, length-append xs (p ∷ ys), length-append xs ys);
    small = omega (arith, l.small, length-append {0} xs (p ∷ ys), length-append {0} xs ys);
  }

  pub pop_front-nil : IsList s d [] → pop_front d s ≡ (none, s)
  unfolding pop_front
  pop_front-nil l = ground (arith, l.chain.0)

  -- On a list that holds `x` first, `ckLinkedListPopFront` answers `x` and does what
  -- `ckLinkedListErase` of `x` does.
  pub pop_front-erase :
      {x : ℕ} {xs : List ℕ} → IsList s d (x ∷ xs) → pop_front d s ≡ (some x, erase d x s)
  unfolding pop_front erase
  pop_front-erase {x} l = ground (arith, l.chain.0, l.chain.1, l.distinct.0)

  pub erase-SameOutside :
      (xs : List ℕ) (p : ℕ) (ys : List ℕ)
      → IsList s d (xs ++ p ∷ ys)
      → SameOutside (d ∷ xs ++ p ∷ ys) s (erase d p s)
  unfolding erase
  erase-SameOutside xs p ys l =
      let i = Chain-prev s.next s.prev d xs p ys d l.chain in
      let j = Chain-next s.next s.prev d xs p ys d l.chain in
      record {
        same_next =
            λ q h. ground (arith, i, has_same q (s.prev p) (d ∷ xs), has-append q xs (p ∷ ys));
        same_prev = λ q h. ground (
          arith,
          j,
          has_same q (s.next p) (ys ++ d ∷ []),
          has-append q xs (p ∷ ys),
          has-append q ys (d ∷ []),
        );
        same_third = λ q h. ground arith;
      }
