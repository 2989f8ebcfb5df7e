-- ===== src/Task/Created.antt =====
-- What `ckTaskCreate_unsafe` of src/task.c does to the lists of the scheduler.
use mathlib.Core.Path.{subst}
use clubcos.LinkedList.{init, push_back}
use clubcos.LinkedList.IsList.{IsList, IsList-frame, init-SameOutside, push_back-SameOutside}
use clubcos.Task.{
  ready, TaskStruct, task_at, max_task, wait_me_list, thread_list, thread_node, count_task_priority,
}
use clubcos.Task.Lists.{Homed, Homed-home, Homed-other, insert-Homed}
use clubcos.Task.Sched.{IsSched, home_of}
use clubcos.Task.Create.{find_task, fill_task, create_unsafe}
use clubcos.Prelude.{
  ℕ, zero, suc, ◌+◌, ◌-◌, ◌%◌, ◌≤◌, ◌<◌, ◌≡◌, refl, sym, ap, ◌∙◌, ◌≢◌, inl, inr, true, false,
  Option, none, some, List, [], ◌∷◌, ◌++◌, arith, ◌==◌, ==_iff, Bool-cases, Store, upd, has,
  ne→false,
}

-- The first entry of `tasks` from 2 on that is not in use.
abbrev pub IsFirstFree : ℕ → TaskStruct → Type 0
IsFirstFree i s =
    (2 ≤ i)
    × (i < max_task)
    × (s.selector (task_at i) ≡ 0)
    × ((j : ℕ) → 2 ≤ j → j < i → s.selector (task_at j) ≢ 0)

find_task-first :
    (k i j : ℕ) (s : TaskStruct)
    → i ≤ j
    → j < i + k
    → s.selector (task_at j) ≡ 0
    → ((l : ℕ) → i ≤ l → l < j → s.selector (task_at l) ≢ 0)
    → find_task k i s ≡ some j
unfolding find_task
find_task-first zero i j s from below free before = absurd (omega arith)
find_task-first (suc k) i j s from below free before = elim (Bool-cases (i == j)) [
  | inl e ↦
      let same : i ≡ j = (==_iff i j).0 e in
      let here : (s.selector (task_at i) == 0) ≡ true =
        (==_iff _ 0).1 (ap (λ l. s.selector (task_at l)) same ∙ free) in
      rw here (ap some same)
  | inr e ↦
      let used : (s.selector (task_at i) == 0) ≡ false =
        ne→false _ 0 (before i (omega arith) (ground (arith, e))) in
      rw used (
        find_task-first k (suc i) j s (ground (arith, e)) (omega arith) free
          (λ l a b. before l (omega arith) b))
]

find_task-full :
    (k i : ℕ) (s : TaskStruct)
    → ((j : ℕ) → i ≤ j → j < i + k → s.selector (task_at j) ≢ 0)
    → find_task k i s ≡ none
unfolding find_task
find_task-full zero i s h = refl
find_task-full (suc k) i s h =
    let e : (s.selector (task_at i) == 0) ≡ false =
      ground (arith, h i (omega arith) (omega arith)) in
    rw e (find_task-full k (suc i) s (λ j a b. h j (omega arith) (omega arith)))

created :
    (stack : Option ℕ) (stack_size p priority : ℕ) (s : TaskStruct) (r : Option ℕ)
    → find_task (max_task - 2) 2 s ≡ r
    → create_unsafe stack stack_size p priority s ≡ elim r [
      | none ↦ (task_at (max_task - 1), s)
      | some i ↦ (task_at i, fill_task i stack stack_size p priority s)
    ]
unfolding create_unsafe
created stack stack_size p priority s r e =
    ap
      (λ (o : Option ℕ). elim o [
        | none ↦ (task_at (max_task - 1), s)
        | some i ↦ (task_at i, fill_task i stack stack_size p priority s)
      ])
      e

-- When every entry of `tasks` from 2 on is in use, `ckTaskCreate_unsafe` changes nothing and
-- answers the last entry, which is not the null pointer that its caller tests for.
pub create_unsafe-full :
    (stack : Option ℕ) (stack_size p priority : ℕ) (s : TaskStruct)
    → ((j : ℕ) → 2 ≤ j → j < max_task → s.selector (task_at j) ≢ 0)
    → create_unsafe stack stack_size p priority s ≡ (task_at (max_task - 1), s)
create_unsafe-full stack stack_size p priority s h =
    created stack stack_size p priority s none
      (find_task-full (max_task - 2) 2 s (λ j a b. h j a (omega arith)))

filled_ready :
    (i : ℕ) (stack : Option ℕ) (stack_size p priority : ℕ) (s : TaskStruct)
    → (fill_task i stack stack_size p priority s).flag (task_at i) ≡ ready
unfolding fill_task
filled_ready i stack stack_size p priority s = ground arith

module _ {s : TaskStruct} {lists : ℕ → List ℕ} (sched : IsSched s lists) (p priority i : ℕ)
    (threads : List ℕ) (in_process : IsList s.store (thread_list p) threads)
    (thread_nodes : (q : ℕ) → has q threads ≡ true → q % 8 ≡ 3)
    (lt : priority < count_task_priority) (free : s.selector (task_at i) ≡ 0) (below : i < max_task)
    (stack : Option ℕ) (stack_size : ℕ) where
  prepared : Store
  prepared = init (wait_me_list (task_at i)) s.store

  prepared-IsList : IsList prepared (thread_list p) threads
  unfolding prepared
  prepared-IsList =
      IsList-frame (init-SameOutside (wait_me_list (task_at i)) s.store)
        (λ q e. ground (arith, e, thread_nodes q)) in_process

  listed-Homed :
      Homed (push_back (thread_list p) (thread_node (task_at i)) prepared) lists (home_of s)
  unfolding prepared
  listed-Homed =
      Homed-other (thread_node (task_at i) ∷ thread_list p ∷ threads)
        (push_back-SameOutside (thread_node (task_at i)) prepared-IsList)
        (λ q e. ground (arith, e, thread_nodes q))
        (Homed-other (wait_me_list (task_at i) ∷ [])
          (init-SameOutside (wait_me_list (task_at i)) s.store) (λ q e. ground (arith, e))
          sched.homed)

  fill_task-IsSched :
      IsSched
        (fill_task i stack stack_size p priority s)
        (upd lists priority (lists priority ++ task_at i ∷ []))
  unfolding fill_task prepared
  fill_task-IsSched = record {
    homed =
        Homed-home (λ q. ground arith)
          (insert-Homed listed-Homed priority (task_at i) (omega (arith, lt))
            (omega arith, omega (arith, below)) (ground (arith, free)));
    now_node = sched.now_node;
    now_used = ground (arith, sched.now_used, free);
    priorities = λ q. ground (arith, sched.priorities q, lt);
  }

-- `ckTaskCreate_unsafe`, when the lists hold the right tasks, the process's thread list is well-
-- formed with thread nodes only, the priority is valid and `i` is the first entry of `tasks` from
-- 2 on that is not in use: it answers that entry, marks it ready and puts it at the end of the
-- ready list of its priority; the lists hold the right tasks again.
pub create_unsafe-IsSched :
    {s : TaskStruct} {lists : ℕ → List ℕ} (i p priority : ℕ) (threads : List ℕ) (stack : Option ℕ)
    (stack_size : ℕ)
    → IsSched s lists
    → IsFirstFree i s
    → IsList s.store (thread_list p) threads
    → ((q : ℕ) → has q threads ≡ true → q % 8 ≡ 3)
    → priority < count_task_priority
    → ((create_unsafe stack stack_size p priority s).0 ≡ task_at i)
      × ((create_unsafe stack stack_size p priority s).1.flag (task_at i) ≡ ready)
      × IsSched
          (create_unsafe stack stack_size p priority s).1
          (upd lists priority (lists priority ++ task_at i ∷ []))
create_unsafe-IsSched {s} {lists} i p priority threads stack stack_size sched found inside nodes
      lt =
    let (from, below, free, before) = found in
    subst
      (λ (r : ℕ × TaskStruct).
        (r.0 ≡ task_at i)
        × (r.1.flag (task_at i) ≡ ready)
        × IsSched r.1 (upd lists priority (lists priority ++ task_at i ∷ [])))
      (sym (
        created stack stack_size p priority s (some i)
          (find_task-first (max_task - 2) 2 i s from below free before)))
      (
        refl,
        filled_ready i stack stack_size p priority s,
        fill_task-IsSched sched p priority i threads inside nodes lt free below stack stack_size,
      )
