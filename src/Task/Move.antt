-- ===== src/Task/Move.antt =====
-- What suspending, resuming and changing a priority do to the lists of the scheduler.
use mathlib.Core.Path.{subst}
use clubcos.LinkedList.{push_back, erase}
use clubcos.Task.{
  Flag, running, ready, wait, wait_for_exit, TaskStruct, list_at, ready_list, wait_list,
  wait_list_index, count_task_priority, schedule_internal,
}
use clubcos.Task.Lists.{Homed, Homed-home, no_list, insert-Homed, remove-Homed}
use clubcos.Task.Sched.{IsSched, home_of, list_of_flag}
use clubcos.Task.Switch.{IsSwitch, schedule_internal-IsSwitch}
use clubcos.Task.Wait.{suspend_byptr, resume_byptr, change_priority_byptr}
use clubcos.Prelude.{
  ℕ, ◌<◌, ◌≡◌, refl, sym, ap, ◌∙◌, Bool, true, false, List, [], ◌∷◌, ◌++◌, arith, ◌==◌,
  if◌then◌else◌, upd, has, has-append,
}

-- The lists when task `t` goes from between `xs` and `ys` in list `j` to the end of list `k`.
abbrev pub moved : (ℕ → List ℕ) → ℕ → List ℕ → List ℕ → ℕ → ℕ → ℕ → List ℕ
moved lists j xs ys k t = let out = upd lists j (xs ++ ys) in upd out k (out k ++ t ∷ [])

-- The state in which the current task has gone to sleep, and has not been switched away from yet.
abbrev pub asleep : TaskStruct → TaskStruct
asleep s = record s { store = push_back wait_list s.now s.store; flag = upd s.flag s.now wait }

pub waits :
    (unused : Bool) (f : Flag) (p : ℕ)
    → p < count_task_priority
    → (if unused then no_list else list_of_flag f p) ≡ wait_list_index
    → (unused ≡ false) × (f ≡ wait)
waits true f p lt e = absurd (omega (arith, e))
waits false running p lt e = absurd (omega (arith, e))
waits false ready p lt e = absurd (omega (arith, e, lt))
waits false wait p lt e = (refl, refl)
waits false wait_for_exit p lt e = absurd (omega (arith, e))

is_ready_task :
    (unused : Bool) (f : Flag) (p k : ℕ)
    → p < count_task_priority
    → k < count_task_priority
    → (if unused then no_list else list_of_flag f p) ≡ k
    → (unused ≡ false) × (f ≡ ready) × (p ≡ k)
is_ready_task true f p k lt lk e = absurd (omega (arith, e, lk))
is_ready_task false running p k lt lk e = absurd (omega (arith, e, lk))
is_ready_task false ready p k lt lk e = (refl, refl, e)
is_ready_task false wait p k lt lk e = absurd (omega (arith, e, lk))
is_ready_task false wait_for_exit p k lt lk e = absurd (omega (arith, e, lk))

module _ {s : TaskStruct} {lists : ℕ → List ℕ} (sched : IsSched s lists) where
  in_parts : (xs : List ℕ) (t : ℕ) (ys : List ℕ) → has t (xs ++ t ∷ ys) ≡ true
  in_parts xs t ys = ground (arith, has-append t xs (t ∷ ys))

  pub member : (k t : ℕ) (xs ys : List ℕ) → lists k ≡ xs ++ t ∷ ys → has t (lists k) ≡ true
  member k t xs ys e = ap (has t) e ∙ in_parts xs t ys

  move-Homed :
      (j k t : ℕ) (xs ys : List ℕ)
      → j < no_list
      → k < no_list
      → lists j ≡ xs ++ t ∷ ys
      → Homed
          (push_back (list_at k) t (erase (list_at j) t s.store))
          (moved lists j xs ys k t)
          (upd (upd (home_of s) t no_list) t k)
  move-Homed j k t xs ys lj lk e =
      insert-Homed (remove-Homed sched.homed j xs t ys lj e) k t lk
        (sched.homed.nodes j t lj (member j t xs ys e)) (ground arith)

  -- `ckTaskResume_byptr` of a task anywhere in the wait list, when the lists hold the right tasks,
  -- answers true, makes the task ready, takes it off the wait list and puts it at the end of the
  -- ready list of its priority; the lists hold the right tasks again.
  pub resume_byptr-IsSched :
      (t : ℕ) (xs ys : List ℕ)
      → lists wait_list_index ≡ xs ++ t ∷ ys
      → ((resume_byptr t s).0 ≡ true)
        × ((resume_byptr t s).1.flag t ≡ ready)
        × IsSched (resume_byptr t s).1 (moved lists wait_list_index xs ys (s.priority t) t)
  unfolding resume_byptr
  resume_byptr-IsSched t xs ys e =
      let w =
        waits (s.selector t == 0) (s.flag t) (s.priority t) (sched.priorities t) (
          sched.homed.at_home wait_list_index t (omega arith) (member wait_list_index t xs ys e)) in
      let used : (s.selector t == 0) ≡ false = w.0 in
      rw (w.1) (
        refl,
        ground arith,
        record {
          homed =
              Homed-home (λ q. ground (arith, used))
                (move-Homed wait_list_index (s.priority t) t xs ys (omega arith)
                  (omega (arith, sched.priorities t)) e);
          now_node = sched.now_node;
          now_used = sched.now_used;
          priorities = sched.priorities;
        },
      )

  change_priority_byptr-eq :
      (t k priority : ℕ)
      → (t == s.now) ≡ false
      → s.priority t ≡ k
      → (k == priority) ≡ false
      → change_priority_byptr t priority s ≡ record s {
        store = push_back (ready_list priority) t (erase (ready_list k) t s.store);
        priority = upd s.priority t priority;
      }
  unfolding change_priority_byptr
  change_priority_byptr-eq t k priority other e ne = rw (other, e, ne) refl

  -- `ckTaskChangePriority` of a task other than the current one that is in the ready list of its
  -- priority moves it to the end of the ready list of a different valid priority, and the lists
  -- hold the right tasks again.
  pub change_priority_byptr-IsSched :
      (t k priority : ℕ) (xs ys : List ℕ)
      → k < count_task_priority
      → priority < count_task_priority
      → (k == priority) ≡ false
      → lists k ≡ xs ++ t ∷ ys
      → (t == s.now) ≡ false
      → ((change_priority_byptr t priority s).priority t ≡ priority)
        × IsSched (change_priority_byptr t priority s) (moved lists k xs ys priority t)
  change_priority_byptr-IsSched t k priority xs ys lk lp ne e other =
      let r =
        is_ready_task (s.selector t == 0) (s.flag t) (s.priority t) k (sched.priorities t) lk
          (sched.homed.at_home k t (omega arith) (member k t xs ys e)) in
      let used : (s.selector t == 0) ≡ false = r.0 in
      let is_ready : s.flag t ≡ ready = r.1 in
      subst (λ s'. (s'.priority t ≡ priority) × IsSched s' (moved lists k xs ys priority t))
        (sym (change_priority_byptr-eq t k priority other (r.2) ne))
        (
          ground arith,
          record {
            homed =
                Homed-home (λ q. ground (arith, used, is_ready))
                  (move-Homed k priority t xs ys (omega arith) (omega (arith, lp)) e);
            now_node = sched.now_node;
            now_used = sched.now_used;
            priorities = λ q. ground (arith, sched.priorities q);
          },
        )

  pub asleep-IsSched :
      s.flag s.now ≡ running
      → IsSched (asleep s) (upd lists wait_list_index (lists wait_list_index ++ s.now ∷ []))
  asleep-IsSched runs = record {
    homed =
        Homed-home (λ q. ground (arith, sched.now_used))
          (insert-Homed sched.homed wait_list_index s.now (omega arith) sched.now_node
            (ground (arith, runs)));
    now_node = sched.now_node;
    now_used = sched.now_used;
    priorities = sched.priorities;
  }

  suspend_byptr-eq :
      s.flag s.now ≡ running → suspend_byptr s.now s ≡ (true, schedule_internal (asleep s))
  unfolding suspend_byptr
  suspend_byptr-eq runs = rw runs refl

  -- When the running task suspends itself and the lists hold the right tasks, the call answers
  -- true: the task goes to the end of the wait list and the scheduler switches from there to the
  -- next task.
  pub suspend_byptr-IsSwitch :
      s.flag s.now ≡ running
      → ((suspend_byptr s.now s).0 ≡ true)
        × IsSwitch
            (asleep s)
            (upd lists wait_list_index (lists wait_list_index ++ s.now ∷ []))
            (suspend_byptr s.now s).1
  suspend_byptr-IsSwitch runs =
      subst
        (λ (r : Bool × TaskStruct).
          (r.0 ≡ true)
          × IsSwitch (asleep s) (upd lists wait_list_index (lists wait_list_index ++ s.now ∷ []))
              r.1)
        (sym (suspend_byptr-eq runs))
        (refl, schedule_internal-IsSwitch (asleep s) _ (asleep-IsSched runs))
