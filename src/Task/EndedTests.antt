-- ===== src/Task/EndedTests.antt =====
-- The end of a task of src/task.c that the kernel's task waits for.
use clubcos.LinkedList.{init, push_back}
use clubcos.LinkedList.IsList.{IsList, push_back-SameOutside}
use clubcos.Memory.Dyn.{DynMem}
use clubcos.Task.{
  running, ready, TaskStruct, task_at, wait_list_index, wait_node, wait_me_list, thread_list,
  thread_node,
}
use clubcos.Task.Boot.{task_struct_initialize, boot_lists, init_ready_lists, kernel_task, idle_task}
use clubcos.Task.Start.{boot_tasks, booted-IsSched, boot_threads-IsList}
use clubcos.Task.Create.{find_task, fill_task, create_unsafe}
use clubcos.Task.Created.{IsFirstFree, create_unsafe-IsSched}
use clubcos.Task.Lists.{Homed-other}
use clubcos.Task.Sched.{IsSched}
use clubcos.Task.Move.{asleep, asleep-IsSched}
use clubcos.Task.Cleanup.{Kernel}
use clubcos.Task.{exit_list_index}
use clubcos.Task.Switch.{IsSwitch}
use clubcos.Task.Exited.{leaving, exit_now-IsSwitch}
use clubcos.Task.Terminate.{terminate_internal, exit_now}
use clubcos.Task.Ended.{terminate_internal-IsSched}
use clubcos.Prelude.{ℕ, ◌≡◌, refl, true, none, some, List, [], ◌∷◌, ◌++◌, map, arith, upd, has}

abbrev booted : TaskStruct
booted = task_struct_initialize 0x10_0000

abbrev third_task : ℕ
third_task = task_at 2

abbrev created : TaskStruct
created = (create_unsafe none 0 0 4 booted).1

abbrev created_tasks : ℕ → List ℕ
created_tasks = upd boot_tasks 4 (boot_tasks 4 ++ third_task ∷ [])

free_entry : IsFirstFree 2 booted
unfolding task_struct_initialize
free_entry = (omega arith, omega arith, refl, λ j a b. absurd (omega arith))

created-IsSched : IsSched created created_tasks
created-IsSched =
    (create_unsafe-IsSched 2 0 4 (thread_node kernel_task ∷ thread_node idle_task ∷ []) none 0
      (booted-IsSched 0x10_0000) free_entry (boot_threads-IsList 0x10_0000)
      (λ q i. ground (arith, i)) (omega arith)).2

-- The kernel's task has put itself into the third task's list of waiting tasks.
abbrev joining : TaskStruct
joining = record created {
  wait_obj = upd created.wait_obj kernel_task (some third_task);
  store = push_back (wait_me_list third_task) (wait_node kernel_task) created.store;
}

nobody_waits : IsList created.store (wait_me_list third_task) []
unfolding task_struct_initialize boot_lists init_ready_lists init push_back find_task fill_task
    create_unsafe
nobody_waits = record {
  chain = (refl, refl);
  distinct = (refl, tt);
  sized = refl;
  small = omega arith;
}

joining-IsSched : IsSched joining created_tasks
joining-IsSched = record {
  homed =
      Homed-other (wait_node kernel_task ∷ wait_me_list third_task ∷ [])
        (push_back-SameOutside (wait_node kernel_task) nobody_waits) (λ q i. ground (arith, i))
        created-IsSched.homed;
  now_node = created-IsSched.now_node;
  now_used = created-IsSched.now_used;
  priorities = created-IsSched.priorities;
}

joining_runs : joining.flag joining.now ≡ running
unfolding task_struct_initialize find_task fill_task create_unsafe
joining_runs = refl

abbrev joined : TaskStruct
joined = asleep joining

joining_now : joining.now ≡ kernel_task
unfolding task_struct_initialize find_task fill_task create_unsafe
joining_now = refl

abbrev joined_tasks : ℕ → List ℕ
joined_tasks = upd created_tasks wait_list_index (created_tasks wait_list_index ++ joining.now ∷ [])

joined-IsSched : IsSched joined joined_tasks
joined-IsSched = asleep-IsSched joining-IsSched joining_runs

kernel_waits : IsList joined.store (wait_me_list third_task) (map wait_node (kernel_task ∷ []))
unfolding task_struct_initialize boot_lists init_ready_lists init push_back find_task fill_task
    create_unsafe
kernel_waits = record {
  chain = (refl, refl, (refl, refl));
  distinct = (refl, (refl, tt));
  sized = refl;
  small = omega arith;
}

three_threads :
    IsList joined.store
      (thread_list 0)
      ((thread_node kernel_task ∷ thread_node idle_task ∷ []) ++ thread_node third_task ∷ [])
unfolding task_struct_initialize boot_lists init_ready_lists init push_back find_task fill_task
    create_unsafe
three_threads = record {
  chain = (refl, refl, (refl, refl, (refl, refl, (refl, refl))));
  distinct = (refl, (refl, (refl, (refl, tt))));
  sized = refl;
  small = omega arith;
}

abbrev small_heap : DynMem
small_heap = record {
  dyn_mem_size = 0;
  begin_addr = 0x11_0000;
  used_size = 0;
  count_of_unit_block = 0;
  bitmap_level = 0;
  ar_bitmap = [];
}

abbrev kernel : Kernel
kernel = record { tasks = joined; dyn_mem = small_heap; word = λ p. 0; gdt_table = λ i. 1 }

terminate_internal-IsSched_example :
    (k' : Kernel) × (lists' : ℕ → List ℕ) × (terminate_internal 2 third_task kernel ≡ some k')
    × IsSched k'.tasks lists'
    × (k'.tasks.selector third_task ≡ 0)
    × ((w : ℕ)
        → has w (kernel_task ∷ []) ≡ true
        → (k'.tasks.flag w ≡ ready) × (k'.tasks.wait_obj w ≡ none))
    × IsList k'.tasks.store (thread_list 0) (thread_node kernel_task ∷ thread_node idle_task ∷ [])
unfolding task_struct_initialize find_task fill_task create_unsafe
terminate_internal-IsSched_example =
    terminate_internal-IsSched kernel joined_tasks joined-IsSched third_task 0 (kernel_task ∷ [])
      (thread_node kernel_task ∷ thread_node idle_task ∷ []) [] small_heap refl refl refl refl
      kernel_waits (λ w h. ground (arith, h)) refl refl three_threads (λ q i. ground (arith, i))
      refl

created_runs : created.flag created.now ≡ running
unfolding task_struct_initialize find_task fill_task create_unsafe
created_runs = refl

created_alone : created.wait_obj created.now ≡ none
unfolding task_struct_initialize find_task fill_task create_unsafe
created_alone = refl

exit_now-IsSwitch_example :
    (s' : TaskStruct) × (exit_now created ≡ some s')
    × IsSwitch
        (leaving created)
        (upd created_tasks exit_list_index (created_tasks exit_list_index ++ created.now ∷ []))
        s'
exit_now-IsSwitch_example = exit_now-IsSwitch created-IsSched created_runs created_alone
