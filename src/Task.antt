-- ===== src/Task.antt =====
-- The task scheduler of src/task.c and src/task.h. A `Task *` is the address of the task's `_node`,
-- its first member. `tasks[i]` is at `8 * i`, and the members behind `_node` that are list nodes or
-- lists are the addresses after it; the lists of the scheduler are at the addresses `8 * k + 4`.
-- Every function runs with the interrupts off, so that nothing comes between the steps of the
-- lock-free list functions that it calls: they are the plain ones here (see
-- LinkedList/Lockfree).
pub mod Lists
pub mod Sched
pub mod Switch
pub mod Wait
pub mod Move
pub mod Misqueue
pub mod Boot
pub mod Start
pub mod Create
pub mod Fpu
pub mod Created
pub mod Cleanup
pub mod Terminate
pub mod Waking
pub mod Ended
pub mod Exited
mod FpuTests
mod EndedTests
mod Tests
use clubcos.LinkedList.{push_back, pop_front, erase}
use clubcos.Prelude.{
  ℕ, zero, suc, ◌+◌, ◌-◌, ◌*◌, ◌/◌, ◌%◌, ◌^◌, ◌≤◌, ◌<◌, ◌≡◌, refl, sym, ap, ◌∙◌, ◌≢◌, ◌↔◌, ◌⊎◌, inl,
  inr, Bool, true, false, not, ◌&&◌, ◌||◌, Option, none, some, List, [], ◌∷◌, ◌++◌, map, arith, ltb,
  leb, ◌==◌, if◌then◌else◌, ltb→lt, lt→ltb, leb→le, ==_iff, tests, Bool-cases, Option-cases, length,
  get_elem?, set, get_or, take, drop, replicate, length-append, length-set, get_elem?-set_self,
  get_elem?-set_ne, take-append-drop, length-take, length-drop, length-replicate, length-map,
  get_or-set_self, get_or-set_ne, u8_mod, u16_mod, u32_mod, add32, sub32, Store, upd, has, Distinct,
  has-append, Distinct-snoc, Distinct-drop, Distinct-remove, has_same, Distinct-gone, all_below,
  all_below_sound,
}

-- `TaskFlag`
pub data Flag : Type 0 where
  running ready wait wait_for_exit : Flag

-- The members of `TaskStruct`, and of its tasks and processes as functions of their addresses, less
-- the register contexts, the terminal buffers of the processes and the processor load.
pub record TaskStruct : Type 0 where
  pub store : Store
  pub flag : ℕ → Flag
  pub priority : ℕ → ℕ
  pub wait_obj : ℕ → Option ℕ
  pub selector : ℕ → ℕ
  pub id : ℕ → ℕ
  pub used_cpu_time : ℕ → ℕ
  pub process : ℕ → Option ℕ
  pub stack : ℕ → Option ℕ
  pub stack_size : ℕ → ℕ
  pub process_cpu_time : ℕ → ℕ
  pub main_thread : ℕ → Option ℕ
  pub parent_process : ℕ → Option ℕ
  pub page_directory : ℕ → Option ℕ
  pub page_dir_size : ℕ → ℕ
  pub process_id : ℕ → ℕ
  pub task_id_mask : ℕ
  pub process_id_mask : ℕ
  pub execute_count : ℕ → ℕ
  pub now : ℕ
  pub remain_quantum : ℕ
  pub last_task_used_fpu : Option ℕ
  -- The bit TS of CR0.
  pub task_switched : Bool

abbrev pub task_quantum : ℕ
task_quantum = 20

abbrev pub max_task : ℕ
max_task = 2048

abbrev pub task_invalid_id : ℕ
task_invalid_id = 0xffff_ffff

abbrev pub count_task_priority : ℕ
count_task_priority = 9

abbrev pub task_idmask_unit : ℕ
task_idmask_unit = 4096

abbrev pub process_idmask_unit : ℕ
process_idmask_unit = 1024

abbrev pub task_at : ℕ → ℕ
task_at i = 8 * i

abbrev pub list_at : ℕ → ℕ
list_at k = 8 * k + 4

abbrev pub wait_list_index : ℕ
wait_list_index = 9

abbrev pub exit_list_index : ℕ
exit_list_index = 10

abbrev pub ready_list : ℕ → ℕ
ready_list p = list_at p

abbrev pub wait_list : ℕ
wait_list = list_at wait_list_index

abbrev pub wait_for_exit_list : ℕ
wait_for_exit_list = list_at exit_list_index

abbrev pub wait_node : ℕ → ℕ
wait_node t = t + 1

abbrev pub wait_me_list : ℕ → ℕ
wait_me_list t = t + 2

abbrev pub thread_node : ℕ → ℕ
thread_node t = t + 3

-- The lists of `processes[i]`, which is at `i` in the maps of the processes.
abbrev pub thread_list : ℕ → ℕ
thread_list i = 8 * i + 5

abbrev pub child_process_list : ℕ → ℕ
child_process_list i = 8 * i + 6

abbrev pub child_node : ℕ → ℕ
child_node i = 8 * i + 7

abbrev pub is_running : Flag → Bool
is_running running = true
is_running _ = false

abbrev pub is_ready : Flag → Bool
is_ready ready = true
is_ready _ = false

abbrev pub is_wait : Flag → Bool
is_wait wait = true
is_wait _ = false

abbrev pub is_wait_for_exit : Flag → Bool
is_wait_for_exit wait_for_exit = true
is_wait_for_exit _ = false

-- `&tasks[id & TASK_ID_IDX_MASK]` if it is in use under this very id.
unfoldable pub task_from_id : ℕ → TaskStruct → Option ℕ
task_from_id id s =
    let t = task_at (id % max_task) in
    if id == task_invalid_id
    then none
    else if not (s.selector t == 0) && (s.id t == id) && not (is_wait_for_exit (s.flag t))
    then some t
    else none

-- One round over the priorities from `i`, `k` of them; `counts` is `ExecuteCount`.
unfoldable pub pick : ℕ → ℕ → Store → (ℕ → ℕ) → Option ℕ × Store × (ℕ → ℕ)
pick zero i st counts = (none, st, counts)
pick (suc k) i st counts =
    let rest = pick k (suc i) st (upd counts i 0) in
    let (t, st') = pop_front (ready_list i) st in
    if ltb (counts i) (st.third (ready_list i))
    then (t, st', upd counts i (add32 (counts i) 1))
    else rest

-- At most two rounds.
unfoldable pub pick_twice : Store → (ℕ → ℕ) → Option ℕ × Store × (ℕ → ℕ)
unfolding pick
pick_twice st counts =
    let (t, st', counts') = pick count_task_priority 0 st counts in
    let again = pick count_task_priority 0 st' counts' in
    elim t [ none ↦ again | some t ↦ (some t, st', counts') ]

-- The task that gives up the processor goes to the end of its ready list if it still runs.
unfoldable pub requeue : TaskStruct → TaskStruct
requeue s =
    let queued = record s {
      store = push_back (ready_list (s.priority s.now)) s.now s.store;
      flag = upd s.flag s.now ready;
    } in
    if is_running (s.flag s.now) then queued else s

abbrev pub add_at : ℕ → ℕ → (ℕ → ℕ) → ℕ → ℕ
add_at p time f = upd f p (add32 (f p) time)

-- The time that it used, added if its process is not the null pointer.
unfoldable pub account : TaskStruct → TaskStruct
account s =
    let time = sub32 task_quantum s.remain_quantum in
    record s {
      process_cpu_time = elim (s.process s.now) [
        | none ↦ s.process_cpu_time
        | some p ↦ add_at p time s.process_cpu_time
      ];
      used_cpu_time = elim (s.process s.now) [
        | none ↦ s.used_cpu_time
        | some p ↦ add_at s.now time s.used_cpu_time
      ];
    }

abbrev pub is_task : ℕ → Option ℕ → Bool
is_task t none = false
is_task t (some u) = t == u

unfoldable pub dispatch : ℕ → TaskStruct → TaskStruct
dispatch t s = record s {
  task_switched = not (is_task t s.last_task_used_fpu);
  now = t;
  flag = upd s.flag t running;
  remain_quantum = task_quantum;
}

unfoldable pub switch_to : Option ℕ → TaskStruct → TaskStruct
unfolding requeue account dispatch
switch_to none s = s
switch_to (some t) s = dispatch t (account (requeue s))

-- The state when the far jump to the next task is made; the caller goes on when it is switched to.
unfoldable pub schedule_internal : TaskStruct → TaskStruct
unfolding pick_twice switch_to
schedule_internal s =
    let (t, st, counts) = pick_twice s.store s.execute_count in
    switch_to t (record s { store = st; execute_count = counts })

unfoldable pub schedule_on_timer_int : TaskStruct → TaskStruct
unfolding schedule_internal
schedule_on_timer_int s =
    let left = sub32 s.remain_quantum 1 in
    let s' = record s { remain_quantum = left } in if left == 0 then schedule_internal s' else s'
