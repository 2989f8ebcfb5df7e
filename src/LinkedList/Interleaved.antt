-- ===== src/LinkedList/Interleaved.antt =====
-- Several tasks push to one list with `ckLinkedListPushBack_lockfree` of src/linkedlist.c, each a
-- node of its own, with their steps in any order. A task is named by its node.
use mathlib.Core.Path.{subst}
use mathlib.Core.List.{append-nil}
use clubcos.LinkedList.Lockfree.{PushPc, count, link, read, finished, back, swap, fix, push_step}
use clubcos.LinkedList.Joined.{Joined, Joined-frame, Joined-snoc, Joined-before, Joined-fix}
use clubcos.Prelude.{
  ℕ, ◌≡◌, refl, sym, ap, ◌∙◌, ◌⊎◌, inl, inr, true, false, List, [], ◌∷◌, ◌++◌, arith, ◌==◌, ==_iff,
  Bool-cases, Store, upd, has, Distinct, has-append, Distinct-snoc, has_same,
}

pub record Pushers : Type 0 where
  pub store : Store
  pub pc : ℕ → PushPc

-- One step of the task whose node is `p`, when it stands at `pc`.
abbrev step_from : ℕ → ℕ → PushPc → Pushers → Pushers
step_from d p pc m =
    let (pc', s) = push_step d p pc m.store in record { store = s; pc = upd m.pc p pc' }

unfoldable pub task_step : ℕ → ℕ → Pushers → Pushers
task_step d p m = step_from d p (m.pc p) m

-- The tasks make a step in the order of the list.
unfoldable pub run_tasks : ℕ → List ℕ → Pushers → Pushers
run_tasks d [] m = m
run_tasks d (p ∷ ps) m = run_tasks d ps (task_step d p m)

-- What holds of a node that is not in the list yet.
abbrev pub IsOutside : ℕ → Store → ℕ → PushPc → Type 0
IsOutside d s p count = Unit {0}
IsOutside d s p link = Unit {0}
IsOutside d s p read = s.next p ≡ d
IsOutside d s p (back l) = s.next p ≡ d
IsOutside d s p (swap l) = (s.next p ≡ d) × (s.prev p ≡ l)
IsOutside d s p (fix l) = ⊥
IsOutside d s p finished = ⊥

-- The nodes `xs` are in the list at `d`, as far as it is linked.
pub record IsPushing (d : ℕ) (xs : List ℕ) (m : Pushers) : Type 0 where
  pub joined : Joined m.store.next m.store.prev m.pc d xs d
  pub distinct : Distinct (d ∷ xs)
  pub outside : (q : ℕ) → has q (d ∷ xs) ≡ false → IsOutside d m.store q (m.pc q)

IsOutside-same :
    (d : ℕ) (s s' : Store) (q : ℕ) (pc pc' : PushPc)
    → s'.next q ≡ s.next q
    → s'.prev q ≡ s.prev q
    → pc' ≡ pc
    → IsOutside d s q pc
    → IsOutside d s' q pc'
IsOutside-same d s s' q pc pc' n p e o = subst (λ c. IsOutside d s' q c) (sym e) (IsOutside-at pc o)
  where
    IsOutside-at : (c : PushPc) → IsOutside d s q c → IsOutside d s' q c
    IsOutside-at count o = tt
    IsOutside-at link o = tt
    IsOutside-at read o = n ∙ o
    IsOutside-at (back l) o = n ∙ o
    IsOutside-at (swap l) o = (n ∙ o.0, p ∙ o.1)
    IsOutside-at (fix l) o = o
    IsOutside-at finished o = o

module _ {d : ℕ} {xs : List ℕ} {m : Pushers} (i : IsPushing d xs m) (p : ℕ) where
  -- A step that links nothing in, by a task whose node is not in the list.
  aside :
      (s' : Store) (pc' : PushPc)
      → has p (d ∷ xs) ≡ false
      → ((q : ℕ) → (q == p) ≡ false → (s'.next q ≡ m.store.next q) × (s'.prev q ≡ m.store.prev q))
      → IsOutside d s' p pc'
      → IsPushing d xs (record { store = s'; pc = upd m.pc p pc' })
  aside s' pc' out same here = record {
    joined =
        Joined-frame m.store.next m.store.prev m.pc s'.next s'.prev (upd m.pc p pc') d xs d
          (λ q o. (same q (has_same p q (d ∷ xs) o out)).0)
          (λ q o.
            (same q (ground (arith, has_same p q (d ∷ xs), has-append q xs (d ∷ []), o, out))).1)
          (λ q o. ground (arith, has_same p q xs o, out)) i.joined;
    distinct = i.distinct;
    outside = λ q o. elim (Bool-cases (q == p)) [
      | inl e ↦
          subst (λ r. IsOutside d s' r (upd m.pc p pc' r)) (sym ((==_iff q p).0 e))
            (let at : upd m.pc p pc' p ≡ pc' = ground arith in
              subst (λ c. IsOutside d s' p c) (sym at) here)
      | inr ne ↦
          IsOutside-same d m.store s' q (m.pc q) (upd m.pc p pc' q) (same q ne).0 (same q ne).1
            (ground (arith, ne)) (i.outside q o)
    ];
  }

  -- The compare-and-swap succeeds.
  swapped_in :
      (p == d) ≡ false
      → has p (d ∷ xs) ≡ false
      → m.store.next p ≡ d
      → m.store.prev p ≡ m.store.prev d
      → IsPushing d (xs ++ p ∷ []) (record {
        store = record m.store { prev = upd m.store.prev d p };
        pc = upd m.pc p (fix (m.store.prev d));
      })
  swapped_in ne out ahead behind = record {
    joined =
        Joined-snoc m.store.next m.store.prev m.pc (upd m.pc p (fix (m.store.prev d))) d xs d p
          i.distinct.0 out ne ahead behind (ground arith)
          (λ q o. ground (arith, has_same p q xs o, out)) i.joined;
    distinct = Distinct-snoc (d ∷ xs) p i.distinct out;
    outside = λ q o.
        let new : (q == p) ≡ false = ground (arith, o, has-append q xs (p ∷ [])) in
        let old : has q (d ∷ xs) ≡ false = ground (arith, o, has-append q xs (p ∷ [])) in
        IsOutside-same d m.store (record m.store { prev = upd m.store.prev d p }) q (m.pc q)
          (upd m.pc p (fix (m.store.prev d)) q) refl (ground (arith, old)) (ground (arith, new))
          (i.outside q old);
  }

  -- The last step of a push.
  linked_in :
      (l : ℕ)
      → has p xs ≡ true
      → m.pc p ≡ fix l
      → IsPushing d xs (record {
        store = record m.store { next = upd m.store.next l p };
        pc = upd m.pc p finished;
      })
  linked_in l inside at = record {
    joined = Joined-fix m.store.next m.store.prev m.pc d xs d p l i.distinct inside at i.joined;
    distinct = i.distinct;
    outside = λ q o.
        let before = Joined-before m.store.next m.store.prev m.pc d xs d p l inside at i.joined in
        let not_l = has_same q l (d ∷ xs) before o in
        let not_p = has_same q p xs inside (ground (arith, o)) in
        IsOutside-same d m.store (record m.store { next = upd m.store.next l p }) q (m.pc q)
          (upd m.pc p finished q) (ground (arith, not_l)) refl (ground (arith, not_p))
          (i.outside q o);
  }

  -- A task whose node is in the list has nothing left to do but its last step.
  pub inside-pc :
      (a : ℕ) (bs : List ℕ)
      → has p bs ≡ true
      → Joined m.store.next m.store.prev m.pc a bs d
      → (m.pc p ≡ finished) ⊎ ((l : ℕ) × (m.pc p ≡ fix l))
  inside-pc a [] h j = absurd (ground (arith, h))
  inside-pc a (b ∷ bs) h (back_to, j, k) = elim (Bool-cases (p == b)) [
    | inl same ↦
        let e = ap m.pc ((==_iff p b).0 same) in
        elim j [ inl (x, f) ↦ inl (e ∙ f) | inr f ↦ inr (a, e ∙ f) ]
    | inr other ↦ inside-pc b bs (ground (arith, h, other)) k
  ]

  -- Nothing left to do.
  idle_step :
      m.pc p ≡ finished
      → has p xs ≡ true
      → IsPushing d xs (record { store = m.store; pc = upd m.pc p finished })
  idle_step e inside = record {
    joined =
        Joined-frame m.store.next m.store.prev m.pc m.store.next m.store.prev (upd m.pc p finished)
          d xs d (λ q o. refl) (λ q o. refl)
          (λ q o. elim (Bool-cases (p == q)) [
            | inl s ↦ rw s (sym (ap m.pc (sym ((==_iff p q).0 s)) ∙ e))
            | inr n ↦ rw n refl
          ])
          i.joined;
    distinct = i.distinct;
    outside = λ q o.
        IsOutside-same d m.store m.store q (m.pc q) (upd m.pc p finished q) refl refl
          (ground (arith, has_same q p xs inside, o)) (i.outside q o);
  }

  -- What a step makes of the list.
  abbrev IsStepped : Pushers → Type 0
  IsStepped m' = (new : List ℕ) × IsPushing d (xs ++ new) m' × ((q : ℕ) → has q new ≡ true → q ≡ p)

  nothing_new : {m' : Pushers} → IsPushing d xs m' → IsStepped m'
  nothing_new {m'} j =
      ([], subst (λ l. IsPushing d l m') (sym (append-nil xs)) j, λ q h. absurd (ground (arith, h)))

  step_outside :
      (c : PushPc)
      → (p == d) ≡ false
      → has p (d ∷ xs) ≡ false
      → IsOutside d m.store p c
      → IsStepped (step_from d p c m)
  unfolding push_step
  step_outside count ne out o = nothing_new (aside _ link out (λ q e. (refl, refl)) tt)
  step_outside link ne out o =
      nothing_new (aside _ read out (λ q e. (ground (arith, e), refl)) (ground arith))
  step_outside read ne out o =
      nothing_new (aside _ (back (m.store.prev d)) out (λ q e. (refl, refl)) o)
  step_outside (back l) ne out o =
      nothing_new (aside _ (swap l) out (λ q e. (refl, ground (arith, e))) (o, ground arith))
  step_outside (swap l) ne out o = elim (Bool-cases (m.store.prev d == l)) [
    | inl e ↦
        let last : m.store.prev d ≡ l = (==_iff (m.store.prev d) l).0 e in
        (
          p ∷ [],
          rw e (
              subst
                (λ k. IsPushing d (xs ++ p ∷ []) (record {
                  store = record m.store { prev = upd m.store.prev d p };
                  pc = upd m.pc p (fix k);
                }))
                last (swapped_in ne out o.0 (o.1 ∙ sym last))),
          λ q h. (==_iff q p).0 (ground (arith, h)),
        )
    | inr e ↦ nothing_new (rw e (aside m.store read out (λ q f. (refl, refl)) o.0))
  ]
  step_outside (fix l) ne out o = absurd o
  step_outside finished ne out o = absurd o

  pub task_step-IsStepped : (p == d) ≡ false → IsStepped (task_step d p m)
  unfolding task_step push_step
  task_step-IsStepped ne = elim (Bool-cases (has p xs)) [
    | inl inside ↦ elim (inside-pc d xs inside i.joined) [
      | inl e ↦
          subst (λ c. IsStepped (step_from d p c m)) (sym e) (nothing_new (idle_step e inside))
      | inr (l, e) ↦
          subst (λ c. IsStepped (step_from d p c m)) (sym e) (nothing_new (linked_in l inside e))
    ]
    | inr out ↦
        let new : has p (d ∷ xs) ≡ false = ground (arith, ne, out) in
        step_outside (m.pc p) ne new (i.outside p new)
  ]
