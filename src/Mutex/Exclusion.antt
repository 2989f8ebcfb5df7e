-- ===== src/Mutex/Exclusion.antt =====
-- Mutual exclusion of the recursive mutex of src/recursive_mutex.c, over every order of the tasks'
-- steps.
use mathlib.Core.Path.{subst}
use clubcos.Task.{task_invalid_id}
use clubcos.Mutex.{Pc, away, Call, System, step, run, init}
use clubcos.Mutex.Holder.{IsHeld, IsHolding}
use clubcos.Prelude.{
  ℕ, suc, ◌+◌, ◌^◌, ◌<◌, ◌≡◌, refl, sym, ap, ◌∙◌, Bool, true, ◌&&◌, Option, none, some, List, [],
  ◌∷◌, arith, ltb, length,
}
use clubcos.Mutex.Steps.{step-IsHeld}

-- The tasks that take steps have ids.
abbrev pub are_ids : List (ℕ × Call) → Bool
are_ids [] = true
are_ids (a ∷ rest) = ltb a.0 task_invalid_id && are_ids rest

run-IsHeld :
    (actions : List (ℕ × Call)) (s : System) (bound : ℕ) (holder : Option ℕ)
    → are_ids actions ≡ true
    → bound + length actions < 2 ^ 32
    → IsHeld holder bound s
    → (h : Option ℕ) × IsHeld h (bound + length actions) (run actions s)
unfolding run
run-IsHeld [] s bound holder ids b h = (holder, subst (λ n. IsHeld holder n s) (omega arith) h)
run-IsHeld ((i, c) ∷ rest) s bound holder ids b h =
    let (k, h') = step-IsHeld holder i c (ground (arith, ids)) (omega (arith, b)) h in
    let (m, h'') =
      run-IsHeld rest (step (i, c) s) (suc bound) k (ground (arith, ids)) (omega (arith, b)) h' in
    (m, subst (λ n. IsHeld m n (run rest (step (i, c) s))) (omega arith) h'')

init-IsHeld : IsHeld none 0 init
unfolding init
init-IsHeld = record {
  held_by = (refl, refl);
  outside = λ i n. tt;
  none_held = λ i n. refl;
  depth = λ i. omega arith;
}

-- At most one task has locks to give back, and the words of the mutex say which and how many.
abbrev pub IsExclusive : System → Type 0
IsExclusive s =
    ((i j : ℕ) → 0 < s.held i → 0 < s.held j → i ≡ j)
    × ((i : ℕ)
        → 0 < s.held i
        → s.pc i ≡ away
        → (s.locked ≡ true) × (s.task_id ≡ i) × (s.lock_count ≡ s.held i))

away_holding :
    (l : Pc) (i n id count : ℕ) → l ≡ away → IsHolding l i n id count → (id ≡ i) × (count ≡ n)
away_holding l i n id count e h =
    let h' : IsHolding away i n id count = subst (λ x. IsHolding x i n id count) e h in (h'.1, h'.2)

held-IsExclusive : {s : System} {bound : ℕ} (h : Option ℕ) → IsHeld h bound s → IsExclusive s
held-IsExclusive none h = (
  (λ i j p q. absurd (omega (arith, p, h.none_held i refl))),
  λ i p e. absurd (omega (arith, p, h.none_held i refl)),
)
held-IsExclusive {s} (some k) h =
    let only : (i : ℕ) → 0 < s.held i → i ≡ k = λ i p. ground (arith, h.none_held i, p) in
    (
      (λ i j p q. only i p ∙ sym (only j q)),
      λ i p e.
          let q = only i p in
          let e' : s.pc k ≡ away = subst (λ m. s.pc m ≡ away) q e in
          let w = away_holding (s.pc k) k _ _ _ e' (h.held_by.2) in
          (h.held_by.0, w.0 ∙ sym q, w.1 ∙ ap s.held (sym q)),
    )

-- From a new recursive mutex, whatever the order in which tasks with valid ids take fewer than
-- 2^32 steps of locking and unlocking: at most one task has locks to give back, and while it is in
-- no call, the mutex is locked under its id with their number as the count.
pub run-IsExclusive :
    (actions : List (ℕ × Call))
    → are_ids actions ≡ true
    → length actions < 2 ^ 32
    → IsExclusive (run actions init)
run-IsExclusive actions ids b =
    let (h, inv) = run-IsHeld actions init 0 none ids (omega (arith, b)) init-IsHeld in
    held-IsExclusive h inv
