-- ===== src/Task/Tests.antt =====
-- The scheduler at the state after the start of the kernel.
use clubcos.LinkedList.{init, push_back, pop_front}
use clubcos.Task.Boot.{boot_lists, init_ready_lists}
use clubcos.Task.{thread_node, task_at}
use clubcos.Task.Create.{create_unsafe}
use clubcos.Task.Created.{IsFirstFree, create_unsafe-IsSched}
use clubcos.Task.Start.{boot_threads-IsList}
use clubcos.Task.{
  pick, pick_twice, requeue, account, dispatch, switch_to, running, ready, wait, TaskStruct,
  wait_list, wait_list_index, schedule_internal,
}
use clubcos.Task.Sched.{IsSched}
use clubcos.Task.Switch.{IsSwitch, schedule_internal-IsSwitch}
use clubcos.Task.Wait.{suspend_byptr, resume_byptr, change_priority_byptr}
use clubcos.Task.Move.{
  asleep, asleep-IsSched, moved, resume_byptr-IsSched, suspend_byptr-IsSwitch,
  change_priority_byptr-IsSched,
}
use clubcos.Task.Misqueue.{suspend_byptr-other}
use clubcos.Task.Boot.{task_struct_initialize, kernel_task, idle_task, task_priority_idle}
use clubcos.Task.Start.{boot_tasks, booted-IsSched, task_struct_initialize-IsSched}
use clubcos.Prelude.{
  ℕ, ◌%◌, ◌≡◌, refl, ◌≢◌, ◌↔◌, ◌⊎◌, true, none, List, [], ◌∷◌, ◌++◌, arith, upd, has,
}

abbrev booted : TaskStruct
booted = task_struct_initialize 0x10_0000

runs : booted.flag booted.now ≡ running
unfolding task_struct_initialize
runs = refl

idle_ready : booted.flag idle_task ≡ ready
unfolding task_struct_initialize
idle_ready = refl

sleeper : (asleep booted).now ≡ kernel_task
unfolding task_struct_initialize
sleeper = refl

abbrev sleeping_tasks : ℕ → List ℕ
sleeping_tasks = upd boot_tasks wait_list_index (kernel_task ∷ [])

sleeping-IsSched : IsSched (asleep booted) sleeping_tasks
unfolding task_struct_initialize
sleeping-IsSched = asleep-IsSched (booted-IsSched 0x10_0000) runs

schedule_internal-IsSwitch_example : IsSwitch booted boot_tasks (schedule_internal booted)
schedule_internal-IsSwitch_example =
    schedule_internal-IsSwitch booted boot_tasks (booted-IsSched 0x10_0000)

resume_byptr-IsSched_example :
    ((resume_byptr kernel_task (asleep booted)).0 ≡ true)
    × ((resume_byptr kernel_task (asleep booted)).1.flag kernel_task ≡ ready)
    × IsSched (resume_byptr kernel_task (asleep booted)).1 (
        moved sleeping_tasks wait_list_index [] []
          ((asleep booted).priority kernel_task)
          kernel_task)
resume_byptr-IsSched_example = resume_byptr-IsSched sleeping-IsSched kernel_task [] [] refl

change_priority_byptr-IsSched_example :
    ((change_priority_byptr idle_task 3 booted).priority idle_task ≡ 3)
    × IsSched
        (change_priority_byptr idle_task 3 booted)
        (moved boot_tasks task_priority_idle [] [] 3 idle_task)
unfolding task_struct_initialize
change_priority_byptr-IsSched_example =
    change_priority_byptr-IsSched (booted-IsSched 0x10_0000) idle_task task_priority_idle 3 [] []
      (omega arith) (omega arith) refl refl refl

suspend_byptr-IsSwitch_example :
    ((suspend_byptr booted.now booted).0 ≡ true)
    × IsSwitch
        (asleep booted)
        (upd boot_tasks wait_list_index (boot_tasks wait_list_index ++ booted.now ∷ []))
        (suspend_byptr booted.now booted).1
suspend_byptr-IsSwitch_example = suspend_byptr-IsSwitch (booted-IsSched 0x10_0000) runs

suspend_byptr-other_example :
    ((suspend_byptr idle_task booted).0 ≡ true)
    × ((suspend_byptr idle_task booted).1.now ≡ booted.now)
    × ((suspend_byptr idle_task booted).1.flag booted.now ≡ running)
    × ((suspend_byptr idle_task booted).1.flag idle_task ≡ wait)
    × ((suspend_byptr idle_task booted).1.store.prev wait_list ≡ booted.now)
    × ((lists' : ℕ → List ℕ) → ¬ IsSched (suspend_byptr idle_task booted).1 lists')
suspend_byptr-other_example =
    suspend_byptr-other (booted-IsSched 0x10_0000) idle_task idle_ready runs

-- The idle task gets the processor when the kernel's task gives it up.
schedule_idle : (schedule_internal booted).now ≡ idle_task
unfolding task_struct_initialize boot_lists init_ready_lists init push_back pop_front pick
    pick_twice requeue account dispatch switch_to schedule_internal
schedule_idle = refl

task_struct_initialize-IsSched_example :
    IsSched booted boot_tasks
    × (booted.now ≡ kernel_task)
    × (booted.flag kernel_task ≡ running)
    × (booted.flag idle_task ≡ ready)
    × ((t : ℕ) → (booted.selector t ≢ 0) ↔ ((t ≡ kernel_task) ⊎ (t ≡ idle_task)))
    × (booted.id kernel_task ≡ 0)
    × (booted.id idle_task ≡ 1)
task_struct_initialize-IsSched_example = task_struct_initialize-IsSched 0x10_0000

first_free : IsFirstFree 2 booted
unfolding task_struct_initialize
first_free = (omega arith, omega arith, refl, λ j a b. absurd (omega arith))

thread_nodes :
    (q : ℕ) → has q (thread_node kernel_task ∷ thread_node idle_task ∷ []) ≡ true → q % 8 ≡ 3
thread_nodes q e = ground (arith, e)

create_unsafe-IsSched_example :
    ((create_unsafe none 0 0 4 booted).0 ≡ task_at 2)
    × ((create_unsafe none 0 0 4 booted).1.flag (task_at 2) ≡ ready)
    × IsSched
        (create_unsafe none 0 0 4 booted).1
        (upd boot_tasks 4 (boot_tasks 4 ++ task_at 2 ∷ []))
create_unsafe-IsSched_example =
    create_unsafe-IsSched 2 0 4 (thread_node kernel_task ∷ thread_node idle_task ∷ []) none 0
      (booted-IsSched 0x10_0000) first_free (boot_threads-IsList 0x10_0000) thread_nodes
      (omega arith)

-- Every entry in use.
abbrev crowded : TaskStruct
crowded = record booted { selector = λ t. 5 }
