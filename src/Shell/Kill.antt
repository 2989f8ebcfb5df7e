-- ===== src/Shell/Kill.antt =====
-- The task that `killtask` of src/coshell_cmd.c ends.
use clubcos.Task.{wait_for_exit, TaskStruct, task_at, max_task}
use clubcos.Task.Boot.{kernel_task, idle_task}
use clubcos.Task.Cleanup.{Kernel}
use clubcos.Task.Terminate.{terminate_internal}
use clubcos.Shell.{Answer, invalid_id, failed, terminated}
use clubcos.Prelude.{ℕ, ◌%◌, ◌^◌, ◌≤◌, ◌<◌, ◌≡◌, ◌≢◌, ◌⊎◌, Option, some, ◌>>=◌}

-- The entry of `tasks` that the low bits of an id name.
abbrev pub entry_of : ℕ → ℕ
entry_of id = task_at (id % max_task)

-- The entry is in use by the task with this id, which has not ended.
abbrev pub IsLive : ℕ → TaskStruct → Type 0
IsLive id s =
    (s.selector (entry_of id) ≢ 0)
    × (s.id (entry_of id) ≡ id)
    × (s.flag (entry_of id) ≢ wait_for_exit)

-- What `killtask` does with the number `id`.
abbrev pub IsKill : ℕ → ℕ → Kernel → Option (Answer × Kernel) → Type 0
IsKill fuel id k r =
    (((id ≤ 2) ⊎ (2 ^ 31 ≤ id)) × (r ≡ some (invalid_id id, k)))
    ⊎ ((2 < id) × (id < 2 ^ 31) × ¬ IsLive id k.tasks × (r ≡ some (failed id, k)))
    ⊎ ((2 < id)
        × (id < 2 ^ 31)
        × IsLive id k.tasks
        × (entry_of id ≢ kernel_task)
        × (entry_of id ≢ idle_task)
        × (r ≡ (terminate_internal fuel (entry_of id) k >>= λ k'. some (terminated id, k'))))
