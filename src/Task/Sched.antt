-- ===== src/Task/Sched.antt =====
-- The invariant of the scheduler, and `ckTaskSchedule_internal`.
use mathlib.Core.Path.{subst}
use clubcos.LinkedList.{pop_front, erase}
use clubcos.LinkedList.IsList.{IsList, pop_front-erase}
use clubcos.Task.{
  Flag, running, ready, wait, wait_for_exit, TaskStruct, list_at, ready_list, wait_list_index,
  exit_list_index, count_task_priority, pick,
}
use clubcos.Task.Lists.{Homed, IsTaskNode, no_list}
use clubcos.Prelude.{
  ℕ, zero, suc, ◌+◌, ◌≤◌, ◌<◌, ◌≡◌, refl, ap, ◌⊎◌, inl, inr, true, false, Option, none, some, List,
  [], ◌∷◌, arith, ltb, ◌==◌, if◌then◌else◌, Bool-cases, length, Store, upd,
}

abbrev pub list_of_flag : Flag → ℕ → ℕ
list_of_flag running p = no_list
list_of_flag ready p = p
list_of_flag wait p = wait_list_index
list_of_flag wait_for_exit p = exit_list_index

-- The list that a task has to be in. An entry of `tasks` with no selector is not in use.
abbrev pub home_of : TaskStruct → ℕ → ℕ
home_of s t = if s.selector t == 0 then no_list else list_of_flag (s.flag t) (s.priority t)

-- The lists hold the tasks that they have to hold, and no others.
pub record IsSched (s : TaskStruct) (lists : ℕ → List ℕ) : Type 0 where
  pub homed : Homed s.store lists (home_of s)
  pub now_node : IsTaskNode s.now
  pub now_used : (s.selector s.now == 0) ≡ false
  pub priorities : (t : ℕ) → s.priority t < count_task_priority

-- The first task of a ready list, taken off it.
abbrev pub IsFound : Store → (ℕ → List ℕ) → Option ℕ → Store → Type 0
IsFound st lists r st' =
    (p : ℕ) × (t : ℕ) × (xs : List ℕ) × (p < count_task_priority)
    × (lists p ≡ t ∷ xs)
    × (r ≡ some t)
    × (st' ≡ erase (ready_list p) t st)

-- What a round leaves: it found nothing and cleared its counts, or took a first task.
abbrev pub IsPick : Store → (ℕ → List ℕ) → ℕ → ℕ → (ℕ → ℕ) → Option ℕ × Store × (ℕ → ℕ) → Type 0
IsPick st lists i k before (r, st', counts) =
    ((r ≡ none)
      × (st' ≡ st)
      × ((j : ℕ) → i ≤ j → j < i + k → length (lists j) ≤ before j)
      × ((j : ℕ) → i ≤ j → j < i + k → counts j ≡ 0)
      × ((j : ℕ) → j < i → counts j ≡ before j))
    ⊎ IsFound st lists r st'

module _ {st : Store} {lists : ℕ → List ℕ} {home : ℕ → ℕ} (h : Homed st lists home) where
  pick-IsFound :
      (i : ℕ) (counts : ℕ → ℕ) (xs : List ℕ)
      → i < count_task_priority
      → lists i ≡ xs
      → ltb (counts i) (st.third (ready_list i)) ≡ true
      → IsFound st lists (pop_front (ready_list i) st).0 (pop_front (ready_list i) st).1
  pick-IsFound i counts [] lt e some_left =
      absurd (ground (arith, (h.list i (omega arith)).sized, e))
  pick-IsFound i counts (t ∷ xs) lt e some_left =
      let l : IsList st (ready_list i) (t ∷ xs) =
        subst (λ l. IsList st (list_at i) l) e (h.list i (omega arith)) in
      (i, t, xs, lt, e, ap (λ r. r.0) (pop_front-erase l), ap (λ r. r.1) (pop_front-erase l))

  IsPick-skip :
      (k i : ℕ) (counts : ℕ → ℕ)
      → length (lists i) ≤ counts i
      → (r : Option ℕ × Store × (ℕ → ℕ)) → IsPick st lists (suc i) k (upd counts i 0) r
      → IsPick st lists i (suc k) counts r
  IsPick-skip k i counts le (r, st', after) (inr found) = inr found
  IsPick-skip k i counts le (r, st', after) (inl (e, f, few, zeros, low)) = inl (
    e,
    f,
    (λ j a b. ground (arith, few j)),
    (λ j a b. ground (arith, zeros j, low j)),
    λ j a. ground (arith, low j),
  )

  pub pick-IsPick :
      (k i : ℕ) (counts : ℕ → ℕ)
      → i + k ≤ count_task_priority
      → IsPick st lists i k counts (pick k i st counts)
  unfolding pick
  pick-IsPick zero i counts lt =
      inl
        (refl, refl, (λ j a b. absurd (omega arith)), (λ j a b. absurd (omega arith)), λ j a. refl)
  pick-IsPick (suc k) i counts lt = elim (Bool-cases (ltb (counts i) (st.third (ready_list i)))) [
    | inl e ↦ rw e (inr (pick-IsFound i counts (lists i) (omega arith) refl e))
    | inr e ↦ rw e (
        IsPick-skip k i counts (ground (arith, (h.list i (omega arith)).sized))
          (pick k (suc i) st (upd counts i 0))
          (pick-IsPick k (suc i) (upd counts i 0) (omega arith)))
  ]
