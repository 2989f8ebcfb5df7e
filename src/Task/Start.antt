-- ===== src/Task/Start.antt =====
-- The scheduler's lists after `ckTaskStructInitialize`.
use mathlib.Core.Path.{subst}
use clubcos.LinkedList.{init, push_back}
use clubcos.LinkedList.IsList.{
  IsList, IsList-frame, init-IsList, init-SameOutside, push_back-IsList, push_back-SameOutside,
}
use clubcos.Task.{
  running, ready, list_at, ready_list, wait_list, wait_for_exit_list, wait_me_list, thread_list,
  thread_node, child_process_list, count_task_priority,
}
use clubcos.Task.Lists.{Homed, Homed-home, Homed-other, no_list, insert-Homed}
use clubcos.Task.Sched.{IsSched}
use clubcos.Task.Boot.{
  init_ready_lists, boot_lists, task_struct_initialize, kernel_task, idle_task, task_priority_idle,
}
use clubcos.Prelude.{
  ℕ, zero, suc, ◌<◌, ◌≡◌, refl, sym, ◌≢◌, ◌↔◌, ◌⊎◌, inl, inr, false, List, [], ◌∷◌, arith, ◌==◌,
  ==_iff, Bool-cases, Store, upd,
}

abbrev no_tasks : ℕ → List ℕ
no_tasks k = []

-- A newly initialised list leaves the other empty ones empty.
init-next :
    (k j : ℕ) {st : Store}
    → (j == k) ≡ false
    → IsList st (list_at j) []
    → IsList (init (list_at k) st) (list_at j) []
init-next k j ne l = IsList-frame (init-SameOutside (list_at k) _) (λ q i. ground arith) l

init_ready_lists-empty :
    (n j : ℕ) (st : Store) → j < n → IsList (init_ready_lists n st) (list_at j) []
unfolding init_ready_lists
init_ready_lists-empty zero j st lt = absurd (omega arith)
init_ready_lists-empty (suc n) j st lt = elim (Bool-cases (j == n)) [
  | inl e ↦
      subst (λ i. IsList (init (list_at n) (init_ready_lists n st)) (list_at i) [])
        (sym ((==_iff j n).0 e)) (init-IsList (list_at n) _)
  | inr e ↦ init-next n j e (init_ready_lists-empty n j st (ground arith))
]

cleared : Store → Store
cleared st = init wait_list (init wait_for_exit_list (init_ready_lists count_task_priority st))

cleared-IsList : (st : Store) (k : ℕ) → k < no_list → IsList (cleared st) (list_at k) []
unfolding cleared
cleared-IsList st k lt = elim (Bool-cases (k == 9)) [
  | inl e ↦
      subst (λ i. IsList (cleared st) (list_at i) []) (sym ((==_iff k 9).0 e))
        (init-IsList wait_list _)
  | inr ne ↦ init-next 9 k ne (elim (Bool-cases (k == 10)) [
    | inl e ↦
        subst
          (λ i.
            IsList (init wait_for_exit_list (init_ready_lists count_task_priority st)) (list_at i)
              [])
          (sym ((==_iff k 10).0 e)) (init-IsList wait_for_exit_list _)
    | inr ne' ↦ init-next 10 k ne' (init_ready_lists-empty count_task_priority k st (ground arith))
  ])
]

cleared-Homed : (st : Store) → Homed (cleared st) no_tasks (λ t. no_list)
cleared-Homed st = record {
  list = cleared-IsList st;
  at_home = λ k t lt i. absurd cc;
  nodes = λ k t lt i. absurd cc;
  held = λ t lt. absurd (omega arith);
}

queued : Store → Store
unfolding cleared
queued st =
    push_back (ready_list task_priority_idle) idle_task
      (init (wait_me_list idle_task) (init (wait_me_list kernel_task) (cleared st)))

-- The idle task waits in the last ready list, and that is all.
abbrev pub boot_tasks : ℕ → List ℕ
boot_tasks = upd no_tasks task_priority_idle (idle_task ∷ [])

queued-Homed :
    (st : Store) → Homed (queued st) boot_tasks (upd (λ t. no_list) idle_task task_priority_idle)
unfolding queued
queued-Homed st =
    insert-Homed
      (Homed-other (wait_me_list idle_task ∷ []) (init-SameOutside (wait_me_list idle_task) _)
        (λ q i. ground arith)
        (Homed-other (wait_me_list kernel_task ∷ []) (init-SameOutside (wait_me_list kernel_task) _)
          (λ q i. ground arith) (cleared-Homed st)))
      task_priority_idle idle_task (omega arith) (refl, omega arith) refl

-- The kernel's process and its two threads touch none of it.
module _ (st : Store) where
  threads_none : IsList (init (thread_list 0) st) (thread_list 0) []
  threads_none = init-IsList (thread_list 0) st

  one_thread : Store
  one_thread = push_back (thread_list 0) (thread_node kernel_task) (init (thread_list 0) st)

  one_thread-IsList : IsList one_thread (thread_list 0) (thread_node kernel_task ∷ [])
  unfolding one_thread
  one_thread-IsList =
      push_back-IsList (thread_node kernel_task) threads_none (ground arith) (ground arith)

  processes-Homed :
      {lists : ℕ → List ℕ} {home : ℕ → ℕ}
      → Homed st lists home
      → Homed
          (init
            (child_process_list 0)
            (push_back (thread_list 0) (thread_node idle_task) one_thread))
          lists
          home
  unfolding one_thread
  processes-Homed h =
      Homed-other (child_process_list 0 ∷ []) (init-SameOutside (child_process_list 0) _)
        (λ q i. ground arith)
        (Homed-other (thread_node idle_task ∷ thread_list 0 ∷ thread_node kernel_task ∷ [])
          (push_back-SameOutside (thread_node idle_task) one_thread-IsList) (λ q i. ground arith)
          (Homed-other (thread_node kernel_task ∷ thread_list 0 ∷ [])
            (push_back-SameOutside (thread_node kernel_task) threads_none) (λ q i. ground arith)
            (Homed-other (thread_list 0 ∷ []) (init-SameOutside (thread_list 0) _)
              (λ q i. ground arith) h)))

pub booted-IsSched :
    (kernel_page_directory : ℕ) → IsSched (task_struct_initialize kernel_page_directory) boot_tasks
unfolding task_struct_initialize boot_lists cleared queued one_thread
booted-IsSched kernel_page_directory = record {
  homed = Homed-home (λ t. ground arith) (processes-Homed _ (queued-Homed _));
  now_node = (refl, omega arith);
  now_used = refl;
  priorities = λ t. ground arith;
}

-- The entries in use.
booted-used :
    (kernel_page_directory t : ℕ)
    → ((task_struct_initialize kernel_page_directory).selector t ≢ 0)
      ↔ ((t ≡ kernel_task) ⊎ (t ≡ idle_task))
unfolding task_struct_initialize
booted-used kernel_page_directory t = (λ used. ground (arith, used), λ at h. ground (arith, at, h))

-- After `ckTaskStructInitialize` the lists hold the right tasks: the idle task is in the last
-- ready list and every other list is empty. The current task is the kernel's, it is marked running
-- and the idle task ready, these two entries and no others are in use, and their ids are 0 and 1.
pub task_struct_initialize-IsSched :
    (kernel_page_directory : ℕ)
    → let s = task_struct_initialize kernel_page_directory in
      IsSched s boot_tasks
      × (s.now ≡ kernel_task)
      × (s.flag kernel_task ≡ running)
      × (s.flag idle_task ≡ ready)
      × ((t : ℕ) → (s.selector t ≢ 0) ↔ ((t ≡ kernel_task) ⊎ (t ≡ idle_task)))
      × (s.id kernel_task ≡ 0)
      × (s.id idle_task ≡ 1)
unfolding task_struct_initialize
task_struct_initialize-IsSched kernel_page_directory = (
  booted-IsSched kernel_page_directory,
  refl,
  refl,
  refl,
  booted-used kernel_page_directory,
  refl,
  refl,
)

module _ (st : Store) where
  two_threads : Store
  two_threads = push_back (thread_list 0) (thread_node idle_task) (one_thread st)

  two_threads-IsList :
      IsList two_threads (thread_list 0) (thread_node kernel_task ∷ thread_node idle_task ∷ [])
  unfolding two_threads
  two_threads-IsList =
      push_back-IsList (thread_node idle_task) (one_thread-IsList st) (ground arith) (ground arith)

  all_threads-IsList :
      IsList
        (init (child_process_list 0) two_threads)
        (thread_list 0)
        (thread_node kernel_task ∷ thread_node idle_task ∷ [])
  all_threads-IsList =
      IsList-frame (init-SameOutside (child_process_list 0) two_threads) (λ q e. ground (arith, e))
        two_threads-IsList

pub boot_threads-IsList :
    (kernel_page_directory : ℕ)
    → IsList
        (task_struct_initialize kernel_page_directory).store
        (thread_list 0)
        (thread_node kernel_task ∷ thread_node idle_task ∷ [])
unfolding task_struct_initialize boot_lists cleared queued one_thread two_threads
boot_threads-IsList kernel_page_directory = all_threads-IsList _
