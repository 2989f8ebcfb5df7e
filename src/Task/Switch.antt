-- ===== src/Task/Switch.antt =====
-- `ckTaskSchedule_internal` as an operation on the lists of the scheduler.
use mathlib.Core.Path.{subst}
use clubcos.LinkedList.{erase}
use clubcos.Task.{
  Flag, running, ready, wait, wait_for_exit, TaskStruct, ready_list, count_task_priority,
  task_quantum, pick, pick_twice, switch_to, requeue, account, dispatch, schedule_internal,
  is_running,
}
use clubcos.Task.Lists.{Homed, Homed-home, IsTaskNode, no_list, insert-Homed, remove-Homed}
use clubcos.Task.Sched.{IsSched, IsFound, IsPick, home_of, pick-IsPick}
use clubcos.Prelude.{
  ℕ, ◌≤◌, ◌<◌, ◌≡◌, refl, sym, ap, ◌∙◌, ◌⊎◌, inl, inr, false, Option, none, some, List, [], ◌∷◌,
  ◌++◌, arith, ◌==◌, if◌then◌else◌, Bool-cases, length, Store, upd, has,
}

no_length {ℓ} : {A : Type ℓ} (xs : List A) → length xs ≤ 0 → xs ≡ []
no_length [] h = refl
no_length (x ∷ xs) h = absurd (omega arith)

-- No ready task, or the first of a ready list.
abbrev pub IsNext : Store → (ℕ → List ℕ) → Option ℕ × Store × (ℕ → ℕ) → Type 0
IsNext st lists (r, st', counts) =
    ((r ≡ none) × (st' ≡ st) × ((p : ℕ) → p < count_task_priority → lists p ≡ []))
    ⊎ IsFound st lists r st'

module _ {st : Store} {lists : ℕ → List ℕ} {home : ℕ → ℕ} (h : Homed st lists home) where
  second :
      (counts : ℕ → ℕ) (r : Option ℕ × Store × (ℕ → ℕ))
      → ((j : ℕ) → j < count_task_priority → counts j ≡ 0)
      → IsPick st lists 0 count_task_priority counts r
      → IsNext st lists r
  second counts (r, st', after) zeros (inr found) = inr found
  second counts (r, st', after) zeros (inl (e, f, few, z, low)) =
      inl (e, f, λ p lt. no_length (lists p) (omega (arith, few p (omega arith) lt, zeros p lt)))

  first :
      (counts : ℕ → ℕ) (r : Option ℕ) (st' : Store) (after : ℕ → ℕ)
      → IsPick st lists 0 count_task_priority counts (r, st', after)
      → IsNext st lists
          (elim r [ none ↦ pick count_task_priority 0 st' after | some t ↦ (some t, st', after) ])
  first counts none st' after (inr (p, t, xs, lt, e, absurd_eq, f)) = absurd cc
  first counts (some u) st' after (inr found) = inr found
  first counts (some u) st' after (inl (e, f, few, z, low)) = absurd cc
  first counts none st' after (inl (e, f, few, zeros, low)) =
      subst (λ s. IsNext st lists (pick count_task_priority 0 s after)) (sym f)
        (second after (pick count_task_priority 0 st after) (λ j lt. zeros j (omega arith) lt)
          (pick-IsPick h count_task_priority 0 after (omega arith)))

  pub pick_twice-IsNext : (counts : ℕ → ℕ) → IsNext st lists (pick_twice st counts)
  unfolding pick_twice
  pick_twice-IsNext counts =
      let r = pick count_task_priority 0 st counts in
      first counts r.0 r.1 r.2 (pick-IsPick h count_task_priority 0 counts (omega arith))

-- The lists after a switch from list `p`, which holds `xs` behind the task that is taken.
abbrev pub switched : TaskStruct → (ℕ → List ℕ) → ℕ → List ℕ → ℕ → List ℕ
switched s lists p xs =
    let taken = upd lists p xs in
    let back = s.priority s.now in
    if is_running (s.flag s.now) then upd taken back (taken back ++ s.now ∷ []) else taken

-- The scheduler went from `s` to `s'`: no task was ready, or the first task of a ready list runs.
abbrev pub IsSwitch : TaskStruct → (ℕ → List ℕ) → TaskStruct → Type 0
IsSwitch s lists s' =
    (((p : ℕ) → p < count_task_priority → lists p ≡ []) × (s'.now ≡ s.now) × IsSched s' lists)
    ⊎ ((p : ℕ) × (t : ℕ) × (xs : List ℕ) × (p < count_task_priority)
        × (lists p ≡ t ∷ xs)
        × (s'.now ≡ t)
        × (s'.flag t ≡ running)
        × (s'.remain_quantum ≡ task_quantum)
        × IsSched s' (switched s lists p xs))

module _ (s : TaskStruct) (lists : ℕ → List ℕ) (sched : IsSched s lists) (p t : ℕ) (xs : List ℕ)
    (lt : p < count_task_priority) (first_one : lists p ≡ t ∷ xs) (counts : ℕ → ℕ) where
  taken_from : TaskStruct
  taken_from = record s { store = erase (ready_list p) t s.store; execute_count = counts }

  head_home : home_of s t ≡ p
  head_home = sched.homed.at_home p t (omega arith) (ap (has t) first_one ∙ ground arith)

  head_node : IsTaskNode t
  head_node = sched.homed.nodes p t (omega arith) (ap (has t) first_one ∙ ground arith)

  head_used : (s.selector t == 0) ≡ false
  head_used = ground (arith, head_home)

  taken-Homed : Homed (erase (ready_list p) t s.store) (upd lists p xs) (upd (home_of s) t no_list)
  taken-Homed = remove-Homed sched.homed p [] t xs (omega arith) first_one

  head_other : s.flag s.now ≡ running → (t == s.now) ≡ false
  head_other e = grind (arith, head_home)

  next : TaskStruct
  unfolding taken_from
  next = dispatch t (account (requeue taken_from))

  next-Homed :
      (f : Flag) → s.flag s.now ≡ f → Homed next.store (switched s lists p xs) (home_of next)
  unfolding next taken_from dispatch account requeue
  next-Homed running e = rw e (
      Homed-home (λ q. ground (arith, head_used, head_other e, e, sched.now_used))
        (insert-Homed taken-Homed (s.priority s.now) s.now (omega (arith, sched.priorities s.now))
          sched.now_node (ground (arith, e))))
  next-Homed ready e = rw e (Homed-home (λ q. ground (arith, head_used, e)) taken-Homed)
  next-Homed wait e = rw e (Homed-home (λ q. ground (arith, head_used, e)) taken-Homed)
  next-Homed wait_for_exit e = rw e (Homed-home (λ q. ground (arith, head_used, e)) taken-Homed)

  next-IsSched : IsSched next (switched s lists p xs)
  unfolding next taken_from dispatch account requeue
  next-IsSched = record {
    homed = next-Homed (s.flag s.now) refl;
    now_node = head_node;
    now_used = ground (arith, head_used, Bool-cases (is_running (s.flag s.now)));
    priorities = λ q. ground (arith, sched.priorities q, Bool-cases (is_running (s.flag s.now)));
  }

module _ (s : TaskStruct) (lists : ℕ → List ℕ) (sched : IsSched s lists) where
  runs : (t : ℕ) (f : ℕ → Flag) → upd f t running t ≡ running
  runs t f = ground arith

  switch_to-IsSwitch :
      (r : Option ℕ) (st : Store) (counts : ℕ → ℕ)
      → IsNext s.store lists (r, st, counts)
      → IsSwitch s lists (switch_to r (record s { store = st; execute_count = counts }))
  unfolding switch_to next taken_from dispatch
  switch_to-IsSwitch none st counts (inr (p, t, xs, lt, e, same, f)) = absurd cc
  switch_to-IsSwitch (some u) st counts (inl (same, f, empty)) = absurd cc
  switch_to-IsSwitch none st counts (inl (e, f, empty)) = inl (
    empty,
    refl,
    record {
      homed = subst (λ x. Homed x lists (home_of s)) (sym f) sched.homed;
      now_node = sched.now_node;
      now_used = sched.now_used;
      priorities = sched.priorities;
    },
  )
  switch_to-IsSwitch (some u) st counts (inr (p, t, xs, lt, e, same, f)) =
      subst (λ o. IsSwitch s lists (switch_to o (record s { store = st; execute_count = counts })))
        (sym same)
        (subst
          (λ x.
            IsSwitch s lists (switch_to (some t) (record s { store = x; execute_count = counts })))
          (sym f)
          (inr (
            p,
            t,
            xs,
            lt,
            e,
            refl,
            runs t (
                (account (
                  requeue (record s {
                    store = erase (ready_list p) t s.store;
                    execute_count = counts;
                  }))).flag),
            refl,
            next-IsSched s lists sched p t xs lt e counts,
          )))

  -- `ckTaskSchedule_internal` on lists that hold the right tasks: if every ready list is empty,
  -- the current task goes on and the lists stay; otherwise, in at most two rounds, it gives the
  -- processor and a whole quantum to the first task of a ready list, puts the task that it stops
  -- at the end of its own ready list if that task still runs, and the lists hold the right tasks
  -- again.
  pub schedule_internal-IsSwitch : IsSwitch s lists (schedule_internal s)
  unfolding schedule_internal
  schedule_internal-IsSwitch =
      let r = pick_twice s.store s.execute_count in
      switch_to-IsSwitch r.0 r.1 r.2 (pick_twice-IsNext sched.homed s.execute_count)
