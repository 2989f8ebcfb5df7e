-- ===== src/Task/Create.antt =====
-- Creating tasks and processes, and waiting for their end: `ckTaskCreate`, `ckProcessCreate`,
-- `ckTaskJoin` and `ckProcessJoin` of src/task.c. The task's initial registers are left out. `none`
-- is a failed assertion.
use Prim.Native.Nat.{bit_or}
use clubcos.LinkedList.{init, push_back}
use clubcos.Task.{
  ready, TaskStruct, task_at, max_task, task_invalid_id, ready_list, wait_me_list, wait_node,
  thread_list, thread_node, child_process_list, child_node, task_idmask_unit, process_idmask_unit,
  task_from_id, is_wait_for_exit,
}
use clubcos.Task.Boot.{task_gdt_0}
use clubcos.Task.Wait.{suspend_byptr}
use clubcos.Prelude.{
  ℕ, zero, suc, ◌+◌, ◌-◌, ◌%◌, Bool, true, false, ◌&&◌, Option, none, some, ◌==◌, if◌then◌else◌,
  add32, upd,
}

abbrev pub max_process : ℕ
max_process = 512

abbrev pub is_some : Option ℕ → Bool
is_some none = false
is_some (some p) = true

unfoldable pub process_from_id : ℕ → TaskStruct → Option ℕ
process_from_id id s =
    let p = id % max_process in
    if id == task_invalid_id
    then none
    else if is_some (s.page_directory p) && (s.process_id p == id) && is_some (s.main_thread p)
    then some p
    else none

-- The first entry of `tasks` from `i`, of `k` of them, that is not in use.
unfoldable pub find_task : ℕ → ℕ → TaskStruct → Option ℕ
find_task zero i s = none
find_task (suc k) i s =
    let rest = find_task k (suc i) s in if s.selector (task_at i) == 0 then some i else rest

unfoldable pub fill_task : ℕ → Option ℕ → ℕ → ℕ → ℕ → TaskStruct → TaskStruct
fill_task i stack stack_size p priority s =
    let t = task_at i in
    let listed = push_back (thread_list p) (thread_node t) (init (wait_me_list t) s.store) in
    record s {
      store = push_back (ready_list priority) t listed;
      wait_obj = upd s.wait_obj t none;
      used_cpu_time = upd s.used_cpu_time t 0;
      selector = upd s.selector t (task_gdt_0 + i);
      flag = upd s.flag t ready;
      priority = upd s.priority t priority;
      process = upd s.process t (some p);
      stack = upd s.stack t stack;
      stack_size = upd s.stack_size t stack_size;
      id = upd s.id t (bit_or s.task_id_mask i);
      task_id_mask = add32 s.task_id_mask task_idmask_unit;
    }

-- When the loop ends without a free entry, `ret` is the last one.
unfoldable pub create_unsafe : Option ℕ → ℕ → ℕ → ℕ → TaskStruct → ℕ × TaskStruct
unfolding find_task fill_task
create_unsafe stack stack_size p priority s = elim (find_task (max_task - 2) 2 s) [
  | none ↦ (task_at (max_task - 1), s)
  | some i ↦ (task_at i, fill_task i stack stack_size p priority s)
]

unfoldable pub task_create : Option ℕ → ℕ → ℕ → ℕ → TaskStruct → ℕ × TaskStruct
unfolding process_from_id create_unsafe
task_create stack stack_size process_id priority s = elim (process_from_id process_id s) [
  | none ↦ (task_invalid_id, s)
  | some p ↦ let (t, s') = create_unsafe stack stack_size p priority s in (s'.id t, s')
]

unfoldable pub find_process : ℕ → ℕ → TaskStruct → Option ℕ
find_process zero i s = none
find_process (suc k) i s =
    let rest = find_process k (suc i) s in if is_some (s.page_directory i) then rest else some i

unfoldable pub process_create : Option ℕ → ℕ → ℕ → Option ℕ → ℕ → ℕ → TaskStruct → ℕ × TaskStruct
unfolding process_from_id find_process create_unsafe
process_create stack stack_size priority directory dir_size parent_id s =
    elim (process_from_id parent_id s) [
      | none ↦ (task_invalid_id, s)
      | some parent ↦ elim (find_process max_process 0 s) [
        | none ↦ (task_invalid_id, s)
        | some p ↦
            let id = bit_or s.process_id_mask p in
            let lists = init (child_process_list p) (init (thread_list p) s.store) in
            let s' = record s {
              store = push_back (child_process_list parent) (child_node p) lists;
              parent_process = upd s.parent_process p (some parent);
              page_directory = upd s.page_directory p directory;
              page_dir_size = upd s.page_dir_size p dir_size;
              process_cpu_time = upd s.process_cpu_time p 0;
              process_id = upd s.process_id p id;
              process_id_mask = add32 s.process_id_mask process_idmask_unit;
            } in
            let (t, s'') = create_unsafe stack stack_size p priority s' in
            (id, record s'' { main_thread = upd s''.main_thread p (some t) })
      ]
    ]

-- The current task waits in the list of task `t` and goes to sleep.
unfoldable pub wait_for : ℕ → TaskStruct → TaskStruct
wait_for t s =
    let s' = record s {
      wait_obj = upd s.wait_obj s.now (some t);
      store = push_back (wait_me_list t) (wait_node s.now) s.store;
    } in
    (suspend_byptr s.now s').1

unfoldable pub join : ℕ → TaskStruct → Option TaskStruct
unfolding wait_for
join id s = if is_some (s.wait_obj s.now) then none else elim (task_from_id id s) [
  | none ↦ some s
  | some t ↦ if is_wait_for_exit (s.flag t) then some s else some (wait_for t s)
]

unfoldable pub process_join : ℕ → TaskStruct → Option TaskStruct
unfolding wait_for
process_join id s = if is_some (s.wait_obj s.now) then none else elim (process_from_id id s) [
  | none ↦ some s
  | some p ↦ elim (s.main_thread p) [ none ↦ some s | some t ↦ some (wait_for t s) ]
]
