-- ===== src/Task/Exited.antt =====
-- How the current task of src/task.c ends.
use clubcos.LinkedList.{push_back}
use clubcos.Task.{
  Flag, running, ready, wait, wait_for_exit, TaskStruct, wait_for_exit_list, exit_list_index,
  count_task_priority, schedule_internal,
}
use clubcos.Task.Lists.{Homed-home, no_list, insert-Homed}
use clubcos.Task.Sched.{IsSched, list_of_flag}
use clubcos.Task.Switch.{IsSwitch, schedule_internal-IsSwitch}
use clubcos.Task.Terminate.{exit_now}
use clubcos.Prelude.{
  ℕ, ◌<◌, ◌≡◌, refl, Bool, true, false, none, some, List, [], ◌∷◌, ◌++◌, arith, if◌then◌else◌, upd,
}

-- The state in which the current task waits for its exit, and has not been switched away from yet.
abbrev pub leaving : TaskStruct → TaskStruct
leaving s = record s {
  flag = upd s.flag s.now wait_for_exit;
  store = push_back wait_for_exit_list s.now s.store;
}

pub exits :
    (unused : Bool) (f : Flag) (p : ℕ)
    → p < count_task_priority
    → (if unused then no_list else list_of_flag f p) ≡ exit_list_index
    → (unused ≡ false) × (f ≡ wait_for_exit)
exits true f p lt e = absurd (omega (arith, e))
exits false running p lt e = absurd (omega (arith, e))
exits false ready p lt e = absurd (omega (arith, e, lt))
exits false wait p lt e = absurd (omega (arith, e))
exits false wait_for_exit p lt e = (refl, refl)

module _ {s : TaskStruct} {lists : ℕ → List ℕ} (sched : IsSched s lists) where
  pub leaving-IsSched :
      s.flag s.now ≡ running
      → IsSched (leaving s) (upd lists exit_list_index (lists exit_list_index ++ s.now ∷ []))
  leaving-IsSched runs = record {
    homed =
        Homed-home (λ q. ground (arith, sched.now_used))
          (insert-Homed sched.homed exit_list_index s.now (omega arith) sched.now_node
            (ground (arith, runs)));
    now_node = sched.now_node;
    now_used = sched.now_used;
    priorities = sched.priorities;
  }

  exit_now-eq : s.wait_obj s.now ≡ none → exit_now s ≡ some (schedule_internal (leaving s))
  unfolding exit_now
  exit_now-eq e = rw e refl

  -- When the lists of the scheduler hold the right tasks, the current task runs and waits for no
  -- other task: its own end, the branch of `ckTaskTerminate_internal` for the current task, passes
  -- its assertion, marks the task as waiting for its exit, puts it at the end of
  -- `WaitForExitList`, and is the switch of the scheduler from there to the next task.
  pub exit_now-IsSwitch :
      s.flag s.now ≡ running
      → s.wait_obj s.now ≡ none
      → (s' : TaskStruct) × (exit_now s ≡ some s')
        × IsSwitch (leaving s) (upd lists exit_list_index (lists exit_list_index ++ s.now ∷ [])) s'
  exit_now-IsSwitch runs e = (
    schedule_internal (leaving s),
    exit_now-eq e,
    schedule_internal-IsSwitch (leaving s) _ (leaving-IsSched runs),
  )
