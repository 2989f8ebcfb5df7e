-- ===== src/Task/Lists.antt =====
-- The lists of the scheduler, at `list_at k` for `k` below 11: nine ready lists, the wait list and
-- the list of tasks that wait for their exit. A map `home` says in which of them a task is; 11
-- stands for none.
use clubcos.Count.{count_below, count_below-set, count_below-le, count_below-none}
use clubcos.LinkedList.{push_back, erase}
use clubcos.LinkedList.IsList.{
  SameOutside, IsList, IsList-frame, push_back-IsList, push_back-SameOutside, erase-IsList,
  erase-SameOutside,
}
use mathlib.Core.Path.{subst}
use clubcos.Task.{max_task, list_at}
use clubcos.Prelude.{
  ℕ, suc, ◌*◌, ◌%◌, ◌^◌, ◌≤◌, ◌<◌, ◌≡◌, refl, sym, ap, ◌∙◌, inl, inr, true, false, ◌||◌, List, [],
  ◌∷◌, ◌++◌, arith, ◌==◌, ==_iff, Bool-cases, length, Store, upd, has, Distinct, has-append,
  has_same, Distinct-gone,
}

abbrev pub no_list : ℕ
no_list = 11

abbrev pub IsTaskNode : ℕ → Type 0
IsTaskNode t = (t % 8 ≡ 0) × (t < 8 * max_task)

-- List `k` of the store holds the tasks `lists k`, and these are the tasks whose home is `k`.
pub record Homed (st : Store) (lists : ℕ → List ℕ) (home : ℕ → ℕ) : Type 0 where
  pub list : (k : ℕ) → k < no_list → IsList st (list_at k) (lists k)
  pub at_home : (k t : ℕ) → k < no_list → has t (lists k) ≡ true → home t ≡ k
  pub nodes : (k t : ℕ) → k < no_list → has t (lists k) ≡ true → IsTaskNode t
  pub held : (t : ℕ) → home t < no_list → has t (lists (home t)) ≡ true

-- Numbers below `n` in a list without repetition are at most `n`.
count-has :
    (n : ℕ) (xs : List ℕ)
    → Distinct xs
    → ((t : ℕ) → has t xs ≡ true → t < n)
    → count_below n (λ t. has t xs) ≡ length xs
count-has n [] d h = count_below-none n _ (λ j. refl)
count-has n (x ∷ xs) d h = omega (
  arith,
  count_below-set n (λ t. has t xs) (λ t. has t (x ∷ xs)) x (h x (ground arith)) d.0
      (λ j. ground arith),
  count-has n xs d.1 (λ t i. h t (ground arith)),
)

length-le :
    (n : ℕ) (xs : List ℕ) → Distinct xs → ((t : ℕ) → has t xs ≡ true → t < n) → length xs ≤ n
length-le n xs d h = omega (arith, count-has n xs d h, count_below-le n (λ t. has t xs))

module _ {st : Store} {lists : ℕ → List ℕ} {home : ℕ → ℕ} (h : Homed st lists home) where
  pub room : (k : ℕ) → k < no_list → suc (length (lists k)) < 2 ^ 32
  room k lt = omega (
    arith,
    length-le (8 * max_task) (lists k) ((h.list k lt).distinct.1) (λ t i. (h.nodes k t lt i).1),
  )

  -- A task of another list, or of none, is no node of this one.
  pub elsewhere : (k t : ℕ) → k < no_list → (home t == k) ≡ false → has t (lists k) ≡ false
  elsewhere k t lt ne = elim (Bool-cases (has t (lists k))) [
    | inl e ↦ ground (arith, h.at_home k t lt e)
    | inr e ↦ e
  ]

  not_head : (j t : ℕ) → t % 8 ≡ 0 → (list_at j == t) ≡ false
  not_head j t e = ground arith

  -- The nodes of different lists are different.
  apart :
      (j k q : ℕ)
      → j < no_list
      → k < no_list
      → (j == k) ≡ false
      → has q (list_at j ∷ lists j) ≡ true
      → has q (list_at k ∷ lists k) ≡ false
  apart j k q lj lk ne i = elim (Bool-cases (has q (lists k))) [
    | inl e ↦ ground (arith, h.at_home j q lj, h.at_home k q lk e, (h.nodes k q lk e).0)
    | inr e ↦ elim (Bool-cases (has q (lists j))) [
      | inl f ↦ ground (arith, (h.nodes j q lj f).0)
      | inr f ↦ ground arith
    ]
  ]

  -- Every list but `k` outlives a change of list `k` and of the nodes of no list.
  others :
      (j k t : ℕ) {st' : Store}
      → j < no_list
      → k < no_list
      → (j == k) ≡ false
      → has t (list_at j ∷ lists j) ≡ false
      → SameOutside (t ∷ list_at k ∷ lists k) st st'
      → IsList st' (list_at j) (lists j)
  others j k t lj lk ne out o =
      IsList-frame o
        (λ q i. ground (arith, apart j k q lj lk ne i, has_same t q (list_at j ∷ lists j)))
        (h.list j lj)

  -- A task of no list goes to the end of list `k`.
  pub insert-Homed :
      (k t : ℕ)
      → k < no_list
      → IsTaskNode t
      → (home t) ≡ no_list
      → Homed (push_back (list_at k) t st) (upd lists k (lists k ++ t ∷ [])) (upd home t k)
  insert-Homed k t lk node free =
      let out : (j : ℕ) → j < no_list → has t (list_at j ∷ lists j) ≡ false =
        λ j lj. ground (arith, elsewhere j t lj, node.0, not_head j t) in
      record {
        list = λ j lj. elim (Bool-cases (k == j)) [
          | inl e ↦
              subst
                (λ i.
                  IsList (push_back (list_at k) t st) (list_at i)
                    (upd lists k (lists k ++ t ∷ []) i))
                ((==_iff k j).0 e)
                (ground (arith, push_back-IsList t (h.list k lk) (out k lk) (room k lk)))
          | inr e ↦
              rw e (
                others j k t lj lk (ground arith) (out j lj)
                  (push_back-SameOutside t (h.list k lk)))
        ];
        at_home = λ j q lj i. ground (arith, h.at_home j q lj, has-append q (lists k) (t ∷ []));
        nodes = λ j q lj i. ground (arith, h.nodes j q lj, has-append q (lists k) (t ∷ []), node);
        held = λ q lq. ground (arith, h.held q, has-append q (lists k) (t ∷ []));
      }

  -- A task of list `k` leaves it.
  pub remove-Homed :
      (k : ℕ) (xs : List ℕ) (t : ℕ) (ys : List ℕ)
      → k < no_list
      → lists k ≡ xs ++ t ∷ ys
      → Homed (erase (list_at k) t st) (upd lists k (xs ++ ys)) (upd home t no_list)
  remove-Homed k xs t ys lk eq =
      let whole : IsList st (list_at k) (xs ++ t ∷ ys) =
        subst (λ l. IsList st (list_at k) l) eq (h.list k lk) in
      let parts : (q : ℕ) → has q (lists k) ≡ (has q xs || ((q == t) || has q ys)) =
        λ q. ap (has q) eq ∙ has-append q xs (t ∷ ys) in
      let gone : has t (xs ++ ys) ≡ false = Distinct-gone xs t ys whole.distinct.1 in
      record {
        list = λ j lj. elim (Bool-cases (k == j)) [
          | inl e ↦
              subst (λ i. IsList (erase (list_at k) t st) (list_at i) (upd lists k (xs ++ ys) i))
                ((==_iff k j).0 e) (ground (arith, erase-IsList xs t ys whole))
          | inr e ↦ rw e (
              IsList-frame (erase-SameOutside xs t ys whole)
                (λ q i.
                  subst (λ l. has q (list_at k ∷ l) ≡ false) eq
                    (apart j k q lj lk (ground arith) i))
                (h.list j lj))
        ];
        at_home = λ j q lj i.
            ground (
              arith,
              h.at_home j q lj,
              parts q,
              gone,
              has-append q xs ys,
              h.at_home k t lk,
              parts t,
            );
        nodes = λ j q lj i. ground (arith, h.nodes j q lj, parts q, has-append q xs ys);
        held = λ q lq. ground (arith, h.held q, parts q, has-append q xs ys);
      }

pub Homed-home :
    {st : Store} {lists : ℕ → List ℕ} {home home' : ℕ → ℕ}
    → ((t : ℕ) → home' t ≡ home t)
    → Homed st lists home
    → Homed st lists home'
Homed-home {lists = lists} e h = record {
  list = h.list;
  at_home = λ k t lt i. e t ∙ h.at_home k t lt i;
  nodes = h.nodes;
  held = λ t lt. subst (λ k. k < no_list → has t (lists k) ≡ true) (sym (e t)) (h.held t) lt;
}

-- Writes to other objects do not matter to the scheduler's lists.
pub Homed-other :
    {st st' : Store} {lists : ℕ → List ℕ} {home : ℕ → ℕ} (zs : List ℕ)
    → SameOutside zs st st'
    → ((q : ℕ) → has q zs ≡ true → ((q % 8 == 0) || (q % 8 == 4)) ≡ false)
    → Homed st lists home
    → Homed st' lists home
Homed-other {lists = lists} zs o outside h = record {
  list = λ k lt.
      IsList-frame o
        (λ q i. elim (Bool-cases (has q zs)) [
          | inl e ↦ absurd (grind (arith, outside q e, h.nodes k q lt, i))
          | inr e ↦ e
        ])
        (h.list k lt);
  at_home = h.at_home;
  nodes = h.nodes;
  held = h.held;
}
