-- ===== src/Task/Boot.antt =====
-- `ckTaskStructInitialize` of src/task.c, less the registers and descriptors of the processor.
use clubcos.LinkedList.{init, push_back}
use clubcos.Task.{
  task_idmask_unit, process_idmask_unit, running, ready, TaskStruct, task_at, ready_list, wait_list,
  wait_for_exit_list, wait_me_list, thread_list, thread_node, child_process_list,
  count_task_priority, task_quantum,
}
use clubcos.Prelude.{ℕ, zero, suc, ◌+◌, true, none, some, Store, upd}

-- `TASK_GDT_0`, `KERNEL_TASK_PRIORITY`, `TASK_PRIORITY_IDLE`
abbrev pub task_gdt_0 : ℕ
task_gdt_0 = 3

abbrev pub kernel_task_priority : ℕ
kernel_task_priority = 1

abbrev pub task_priority_idle : ℕ
task_priority_idle = 8

abbrev pub kernel_task : ℕ
kernel_task = task_at 0

abbrev pub idle_task : ℕ
idle_task = task_at 1

unfoldable pub init_ready_lists : ℕ → Store → Store
init_ready_lists zero st = st
init_ready_lists (suc i) st = init (ready_list i) (init_ready_lists i st)

-- The lists and nodes, in the order of the calls.
unfoldable pub boot_lists : Store → Store
unfolding init_ready_lists
boot_lists st =
    let cleared =
      init wait_list (init wait_for_exit_list (init_ready_lists count_task_priority st)) in
    let kernel = init (wait_me_list kernel_task) cleared in
    let idle =
      push_back (ready_list task_priority_idle) idle_task (init (wait_me_list idle_task) kernel) in
    let threads =
      push_back (thread_list 0) (thread_node idle_task)
        (push_back (thread_list 0) (thread_node kernel_task) (init (thread_list 0) idle)) in
    init (child_process_list 0) threads

-- From the memory as `memset` leaves it; the argument is the address of the page directory.
unfoldable pub task_struct_initialize : ℕ → TaskStruct
unfolding boot_lists
task_struct_initialize kernel_page_directory = record {
  store = boot_lists (record { next = λ q. 0; prev = λ q. 0; third = λ q. 0 });
  flag = upd (upd (λ t. running) kernel_task running) idle_task ready;
  priority = upd (upd (λ t. 0) kernel_task kernel_task_priority) idle_task task_priority_idle;
  wait_obj = λ t. none;
  selector = upd (upd (λ t. 0) kernel_task task_gdt_0) idle_task (task_gdt_0 + 1);
  id = upd (upd (λ t. 0) kernel_task 0) idle_task 1;
  used_cpu_time = λ t. 0;
  process = upd (upd (λ t. none) kernel_task (some 0)) idle_task (some 0);
  stack = λ t. none;
  stack_size = λ t. 0;
  process_cpu_time = λ p. 0;
  main_thread = upd (λ p. none) 0 (some kernel_task);
  parent_process = λ p. none;
  page_directory = upd (λ p. none) 0 (some kernel_page_directory);
  page_dir_size = λ p. 0;
  process_id = λ p. 0;
  task_id_mask = task_idmask_unit;
  process_id_mask = process_idmask_unit;
  execute_count = upd (λ p. 0) kernel_task_priority 1;
  now = kernel_task;
  remain_quantum = task_quantum;
  last_task_used_fpu = none;
  task_switched = true;
}
