-- ===== src/LinkedList/Pushed.antt =====
-- What interleaved pushes to a list of src/linkedlist.c come to.
use mathlib.Core.Path.{subst}
use mathlib.Core.List.{append-nil, append_assoc}
use clubcos.LinkedList.Chain.{Chain}
use clubcos.LinkedList.IsList.{IsList}
use clubcos.LinkedList.Lockfree.{PushPc, count, finished, fix}
use clubcos.LinkedList.Interleaved.{
  Pushers, task_step, run_tasks, IsOutside, IsPushing, task_step-IsStepped, inside-pc,
}
use clubcos.LinkedList.Joined.{Joined-Chain, Chain-Joined}
use clubcos.Prelude.{
  ℕ, ◌≡◌, sym, ap, ◌∙◌, ◌⊎◌, inl, inr, Bool, true, false, List, [], ◌∷◌, ◌++◌, arith, ◌==◌,
  if◌then◌else◌, Bool-cases, Store, has, Distinct, has-append,
}

-- The list with what a sequence of steps has added to it.
run_tasks-IsPushing :
    (d : ℕ) (ps xs : List ℕ) {m : Pushers}
    → IsPushing d xs m
    → has d ps ≡ false
    → (new : List ℕ) × IsPushing d (xs ++ new) (run_tasks d ps m)
      × ((q : ℕ) → has q new ≡ true → has q ps ≡ true)
unfolding run_tasks
run_tasks-IsPushing d [] xs {m} i out =
    ([], subst (λ l. IsPushing d l m) (sym (append-nil xs)) i, λ q h. absurd (ground (arith, h)))
run_tasks-IsPushing d (p ∷ ps) xs {m} i out =
    let (one, j, of) = task_step-IsStepped i p (ground (arith, out)) in
    let (more, k, those) = run_tasks-IsPushing d ps (xs ++ one) j (ground (arith, out)) in
    (
      one ++ more,
      subst (λ l. IsPushing d l (run_tasks d ps (task_step d p m))) (append_assoc xs one more) k,
      λ q h. ground (arith, h, has-append q one more, of q, those q),
    )

-- The tasks before their first step: nobody has begun, and the nodes of the list count as pushed.
unfoldable pub at_start : List ℕ → ℕ → PushPc
at_start xs q = if has q xs then finished else count

abbrev pub started : Store → List ℕ → Pushers
started s xs = record { store = s; pc = at_start xs }

-- Not in the middle of a push.
abbrev pub is_quiet : PushPc → Bool
is_quiet count = true
is_quiet finished = true
is_quiet pc = false

start-IsPushing :
    {d : ℕ} {s : Store} {xs : List ℕ}
    → IsList s d xs
    → IsPushing d xs (record { store = s; pc = at_start xs })
unfolding at_start
start-IsPushing {d} {s} {xs} l = record {
  joined = Chain-Joined s.next s.prev (at_start xs) d xs d (λ q h. ground (arith, h)) l.chain;
  distinct = l.distinct;
  outside = λ q h.
      let e : (if has q xs then finished else count) ≡ count = ground (arith, h) in
      subst (λ c. IsOutside d s q c) (sym e) tt;
}

quiet-finished :
    (pc : PushPc) → is_quiet pc ≡ true → (pc ≡ finished) ⊎ ((l : ℕ) × (pc ≡ fix l)) → pc ≡ finished
quiet-finished pc h (inl e) = e
quiet-finished pc h (inr (l, e)) = let clash : false ≡ true = ap is_quiet (sym e) ∙ h in absurd cc

-- Any number of tasks push nodes of their own to a list that holds `xs` with
-- `ckLinkedListPushBack_lockfree`, with their single accesses of the shared words in any order.
-- Whenever none of them is in the middle of a push, the list holds `xs` followed by different new
-- nodes, linked forwards and backwards; all of these are nodes that tasks were pushing, and every
-- node whose push has finished is in the list.
pub run_tasks-Chain :
    (d : ℕ) (xs ps : List ℕ) (s : Store)
    → IsList s d xs
    → has d ps ≡ false
    → ((q : ℕ) → has q (xs ++ ps) ≡ true → is_quiet ((run_tasks d ps (started s xs)).pc q) ≡ true)
    → let m = run_tasks d ps (started s xs) in
      (new : List ℕ) × Chain m.store.next m.store.prev d (xs ++ new) d
      × Distinct (d ∷ xs ++ new)
      × ((q : ℕ) → has q new ≡ true → has q ps ≡ true)
      × ((q : ℕ) → (q == d) ≡ false → m.pc q ≡ finished → has q (xs ++ new) ≡ true)
run_tasks-Chain d xs ps s l out quiet =
    let m = run_tasks d ps (record { store = s; pc = at_start xs }) in
    let (new, i, those) = run_tasks-IsPushing d ps xs (start-IsPushing l) out in
    let ended : (q : ℕ) → has q (xs ++ new) ≡ true → m.pc q ≡ finished = λ q h.
      quiet-finished (m.pc q)
        (quiet q (ground (arith, h, has-append q xs new, has-append q xs ps, those q)))
        (inside-pc i q d (xs ++ new) h i.joined) in
    (
      new,
      Joined-Chain m.store.next m.store.prev m.pc d (xs ++ new) d ended i.joined,
      i.distinct,
      those,
      λ q ne e. elim (Bool-cases (has q (xs ++ new))) [
        | inl h ↦ h
        | inr h ↦
            absurd (subst (λ c. IsOutside d m.store q c) e (i.outside q (ground (arith, ne, h))))
      ],
    )
