-- ===== src/Task/Terminate.antt =====
-- The end of tasks and processes: `ckTaskTerminate` and `ckProcessTerminate` of src/task.c, which
-- run with the interrupts off. `none` is a failed assertion, a null pointer followed, or fuel that
-- was not enough.
use clubcos.LinkedList.{push_back, erase}
use clubcos.Task.{
  wait_for_exit, TaskStruct, ready_list, wait_list, wait_for_exit_list, wait_node, wait_me_list,
  thread_list, thread_node, is_task, is_ready, is_wait, task_from_id, schedule_internal,
}
use clubcos.Task.Cleanup.{Kernel, release_task}
use clubcos.Task.Wait.{is_reserved, resume_byptr}
use clubcos.Task.Create.{is_some, process_from_id}
use clubcos.Prelude.{
  ℕ, zero, suc, ◌-◌, Bool, true, false, Option, none, some, ◌==◌, if◌then◌else◌, upd, ◌>>=◌,
}

-- The body of the loop over `WaitMeList`.
unfoldable pub wake : ℕ → TaskStruct → TaskStruct
unfolding resume_byptr
wake t s = (resume_byptr t (record s { wait_obj = upd s.wait_obj t none })).1

-- From the node `node` to the dummy node `list`.
unfoldable pub wake_from : ℕ → ℕ → ℕ → TaskStruct → Option TaskStruct
unfolding wake
wake_from zero list node s = none
wake_from (suc n) list node s =
    let s' = wake (node - 1) s in
    let rest = wake_from n list (s'.store.next node) s' in if node == list then some s else rest

unfoldable pub forget_fpu : ℕ → TaskStruct → TaskStruct
forget_fpu t s =
    if is_task t s.last_task_used_fpu then record s { last_task_used_fpu = none } else s

-- The main thread takes the process with it; any other thread leaves the list of threads.
unfoldable pub leave_process : ℕ → ℕ → TaskStruct → TaskStruct
leave_process t p s =
    if is_task t (s.main_thread p)
    then record s { main_thread = upd s.main_thread p none }
    else record s {
      store = erase (thread_list p) (thread_node t) s.store;
      process = upd s.process t none;
    }

-- The current task: its entry is freed when it does not run any more.
unfoldable pub exit_now : TaskStruct → Option TaskStruct
unfolding schedule_internal
exit_now s =
    let s' = record s {
      flag = upd s.flag s.now wait_for_exit;
      store = push_back wait_for_exit_list s.now s.store;
    } in
    if is_some (s.wait_obj s.now) then none else some (schedule_internal s')

-- Another task leaves the list that it is in.
unfoldable pub leave_list : Option ℕ → ℕ → TaskStruct → Option TaskStruct
leave_list (some u) t s =
    let unlinked = erase (wait_me_list u) (wait_node t) s.store in
    let s' = record s { wait_obj = upd s.wait_obj t none; store = erase wait_list t unlinked } in
    if is_wait (s.flag t) then some s' else none
leave_list none t s =
    let s' = record s { store = erase (ready_list (s.priority t)) t s.store } in
    if is_ready (s.flag t) then some s' else none

unfoldable pub terminate_now : Kernel → Option Kernel
unfolding exit_now
terminate_now k = do s ← exit_now k.tasks; some (record k { tasks = s })

unfoldable pub terminate_other : ℕ → Kernel → Option Kernel
unfolding leave_list release_task
terminate_other t k = do
  s ← leave_list (k.tasks.wait_obj t) t k.tasks
  release_task t (record k { tasks = s })

-- What comes before the test for the current task, on the tasks alone.
unfoldable pub detach : ℕ → ℕ → TaskStruct → Option TaskStruct
unfolding wake_from forget_fpu leave_process
detach fuel t s = do
  woken ← wake_from fuel (wait_me_list t) (s.store.next (wait_me_list t)) s
  p ← woken.process t
  some (leave_process t p (forget_fpu t woken))

unfoldable pub terminate_internal : ℕ → ℕ → Kernel → Option Kernel
unfolding detach terminate_now terminate_other
terminate_internal fuel t k = do
  s ← detach fuel t k.tasks
  let k' = record k { tasks = s }
  if t == s.now then terminate_now k' else terminate_other t k'

unfoldable pub terminate_found : ℕ → Option ℕ → Kernel → Option (Bool × Kernel)
unfolding terminate_internal
terminate_found fuel none k = some (false, k)
terminate_found fuel (some t) k = do k' ← terminate_internal fuel t k; some (true, k')

unfoldable pub terminate : ℕ → ℕ → Kernel → Option (Bool × Kernel)
unfolding terminate_found
terminate fuel id k =
    if is_reserved id then none else terminate_found fuel (task_from_id id k.tasks) k

unfoldable pub main_thread_of : Option ℕ → TaskStruct → Option ℕ
main_thread_of none s = none
main_thread_of (some p) s = s.main_thread p

unfoldable pub process_terminate : ℕ → ℕ → Kernel → Option (Bool × Kernel)
unfolding terminate_found main_thread_of
process_terminate fuel id k =
    if id == 0
    then none
    else terminate_found fuel (main_thread_of (process_from_id id k.tasks) k.tasks) k
