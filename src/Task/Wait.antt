-- ===== src/Task/Wait.antt =====
-- Suspending and resuming tasks: `ckTaskSuspend`, `ckTaskResume` and `ckTaskChangePriority` of
-- src/task.c. `none` is a failed assertion.
use clubcos.LinkedList.{push_back, erase}
use clubcos.Task.{
  ready, wait, TaskStruct, ready_list, wait_list, is_ready, is_wait, is_running, task_from_id,
  schedule_internal,
}
use clubcos.Prelude.{ℕ, Bool, true, false, ◌||◌, Option, none, some, ◌==◌, if◌then◌else◌, upd}

abbrev pub is_reserved : ℕ → Bool
is_reserved id = (id == 0) || (id == 1)

-- The node that goes to the wait list is the current task's, whichever task is suspended.
unfoldable pub suspend_byptr : ℕ → TaskStruct → Bool × TaskStruct
suspend_byptr t s =
    let out =
      if is_ready (s.flag t) then erase (ready_list (s.priority t)) t s.store else s.store in
    let s' = record s { store = push_back wait_list s.now out; flag = upd s.flag t wait } in
    if is_wait (s.flag t)
    then (false, s)
    else if is_running (s.flag t)
    then (true, schedule_internal s')
    else (true, s')

unfoldable pub suspend : ℕ → TaskStruct → Option (Bool × TaskStruct)
unfolding suspend_byptr
suspend id s =
    if is_reserved id
    then none
    else elim (task_from_id id s) [ none ↦ some (false, s) | some t ↦ some (suspend_byptr t s) ]

unfoldable pub resume_byptr : ℕ → TaskStruct → Bool × TaskStruct
resume_byptr t s =
    if is_wait (s.flag t)
    then (
      true,
      record s {
        store = push_back (ready_list (s.priority t)) t (erase wait_list t s.store);
        flag = upd s.flag t ready;
      },
    )
    else (false, s)

unfoldable pub resume : ℕ → TaskStruct → Option (Bool × TaskStruct)
unfolding resume_byptr
resume id s =
    if is_reserved id
    then none
    else elim (task_from_id id s) [ none ↦ some (false, s) | some t ↦ some (resume_byptr t s) ]

-- The list that the task is taken off is the ready list of its priority, whatever its flag.
unfoldable pub change_priority_byptr : ℕ → ℕ → TaskStruct → TaskStruct
change_priority_byptr t priority s =
    let moved = record s {
      store = push_back (ready_list priority) t (erase (ready_list (s.priority t)) t s.store);
      priority = upd s.priority t priority;
    } in
    if t == s.now
    then record s { priority = upd s.priority t priority }
    else if s.priority t == priority
    then s
    else moved

unfoldable pub change_priority : ℕ → ℕ → TaskStruct → Bool × TaskStruct
unfolding change_priority_byptr
change_priority id priority s = elim (task_from_id id s) [
  | none ↦ (false, s)
  | some t ↦ (true, change_priority_byptr t priority s)
]
