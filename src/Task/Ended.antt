-- ===== src/Task/Ended.antt =====
-- What `ckTaskTerminate_internal` of src/task.c does to the lists of the scheduler and of the
-- process when it ends a thread that is ready.
use mathlib.Core.Path.{subst}
use clubcos.LinkedList.{erase}
use clubcos.LinkedList.Chain.{Chain, Chain-frame}
use clubcos.LinkedList.IsList.{IsList, IsList-frame, erase-IsList, erase-SameOutside}
use clubcos.Memory.Dyn.{DynMem, free}
use clubcos.Task.{
  Flag, ready, wait, TaskStruct, ready_list, wait_list_index, wait_node, wait_me_list, thread_list,
  thread_node, is_task, list_at,
}
use clubcos.Task.Lists.{Homed-home, Homed-other, no_list, remove-Homed}
use clubcos.Task.Sched.{IsSched, home_of}
use clubcos.Task.Move.{member}
use clubcos.Task.Cleanup.{Kernel, free_stack, release_task}
use clubcos.Task.Terminate.{
  wake_from, forget_fpu, leave_process, leave_list, detach, terminate_other, terminate_internal,
}
use clubcos.Task.Waking.{Leads, is_listed, IsSameAt, wake_from-IsAllWoken, waiting, not_listed}
use clubcos.Prelude.{
  ℕ, suc, ◌%◌, ◌<◌, ◌≡◌, refl, sym, ap, ◌∙◌, inl, inr, Bool, true, false, Option, none, some, List,
  [], ◌∷◌, ◌++◌, map, arith, ◌==◌, Bool-cases, length, Store, upd, has, Distinct, has-append,
  has-cut,
}

-- The heap `g'` is `g` after the stack has been freed.
abbrev pub IsFreed : Option ℕ → ℕ → DynMem → DynMem → Type 0
IsFreed none size g g' = g' ≡ g
IsFreed (some stack) size g g' = (freed : Bool) × (free stack size g ≡ some (freed, g'))

wait_node-has : (w : ℕ) (ws : List ℕ) → has (wait_node w) (map wait_node ws) ≡ has w ws
wait_node-has w [] = refl
wait_node-has w (x ∷ ws) = ground (arith, wait_node-has w ws)

wait_node-Distinct : (ws : List ℕ) → Distinct (map wait_node ws) → Distinct ws
wait_node-Distinct [] d = tt
wait_node-Distinct (w ∷ ws) d = (sym (wait_node-has w ws) ∙ d.0, wait_node-Distinct ws d.1)

Chain-Leads :
    (next prev : ℕ → ℕ) (a : ℕ) (ws : List ℕ) (list : ℕ)
    → Chain next prev a (map wait_node ws) list
    → Leads next ws list (next a)
Chain-Leads next prev a [] list c = c.0
Chain-Leads next prev a (w ∷ ws) list c = (
  c.0,
  subst (λ q. Leads next ws list (next q)) (sym c.0)
      (Chain-Leads next prev (wait_node w) ws list c.2),
)

forget_fpu-eq :
    (t : ℕ) (s : TaskStruct)
    → (f : Option ℕ) × (forget_fpu t s ≡ record s { last_task_used_fpu = f })
unfolding forget_fpu
forget_fpu-eq t s = elim (Bool-cases (is_task t s.last_task_used_fpu)) [
  | inl e ↦ (none, rw e refl)
  | inr e ↦ (s.last_task_used_fpu, rw e refl)
]

-- The thread has left its process.
abbrev apart : ℕ → ℕ → Option ℕ → TaskStruct → TaskStruct
apart t p f s = record s {
  last_task_used_fpu = f;
  store = erase (thread_list p) (thread_node t) s.store;
  process = upd s.process t none;
}

leave_process-eq :
    (t p : ℕ) (f : Option ℕ) (s : TaskStruct)
    → is_task t (s.main_thread p) ≡ false
    → leave_process t p (record s { last_task_used_fpu = f }) ≡ apart t p f s
unfolding leave_process
leave_process-eq t p f s e = rw e refl

free_stack-eq :
    (o : Option ℕ) (size : ℕ) (k : Kernel) (g : DynMem)
    → IsFreed o size k.dyn_mem g
    → free_stack o size k ≡ some (record k { dyn_mem = g })
unfolding free_stack
free_stack-eq none size k g e = rw e refl
free_stack-eq (some stack) size k g (b, e) = rw e refl

-- The kernel when a thread that was ready is gone.
abbrev gone : ℕ → DynMem → Kernel → Kernel
gone t g k = record k {
  dyn_mem = g;
  gdt_table = upd k.gdt_table (k.tasks.selector t) 0;
  tasks = record k.tasks {
    store = erase (ready_list (k.tasks.priority t)) t k.tasks.store;
    selector = upd k.tasks.selector t 0;
  };
}

pub release_task-eq :
    (t : ℕ) (k : Kernel) (g : DynMem)
    → k.tasks.process t ≡ none
    → IsFreed (k.tasks.stack t) (k.tasks.stack_size t) k.dyn_mem g
    → release_task t k
      ≡ some (record k {
        dyn_mem = g;
        gdt_table = upd k.gdt_table (k.tasks.selector t) 0;
        tasks = record k.tasks { selector = upd k.tasks.selector t 0 };
      })
unfolding release_task
release_task-eq t k g e h =
    rw (e, free_stack-eq (k.tasks.stack t) (k.tasks.stack_size t) k g h) refl

terminate_other-eq :
    (t : ℕ) (k : Kernel) (g : DynMem)
    → k.tasks.wait_obj t ≡ none
    → k.tasks.flag t ≡ ready
    → k.tasks.process t ≡ none
    → IsFreed (k.tasks.stack t) (k.tasks.stack_size t) k.dyn_mem g
    → terminate_other t k ≡ some (gone t g k)
unfolding terminate_other leave_list
terminate_other-eq t k g a b c h = rw (a, b) (release_task-eq t _ g c h)

module _ {s : TaskStruct} {lists : ℕ → List ℕ} (sched : IsSched s lists) where
  -- The links of threads are none of the scheduler's.
  apart-IsSched :
      (t p : ℕ) (f : Option ℕ) (xs ys : List ℕ)
      → IsList s.store (thread_list p) (xs ++ thread_node t ∷ ys)
      → ((q : ℕ) → has q (xs ++ thread_node t ∷ ys) ≡ true → q % 8 ≡ 3)
      → IsSched (apart t p f s) lists
  apart-IsSched t p f xs ys threads nodes = record {
    homed =
        Homed-other (thread_list p ∷ xs ++ thread_node t ∷ ys)
          (erase-SameOutside xs (thread_node t) ys threads) (λ q i. ground (arith, nodes q, i))
          (Homed-home (λ u. refl) sched.homed);
    now_node = sched.now_node;
    now_used = sched.now_used;
    priorities = sched.priorities;
  }

  -- A ready task is in the ready list of its priority.
  ready-cut :
      (t : ℕ)
      → s.flag t ≡ ready
      → (s.selector t == 0) ≡ false
      → (xs : List ℕ) × (ys : List ℕ) × (lists (s.priority t) ≡ xs ++ t ∷ ys)
  ready-cut t e used =
      let home : home_of s t ≡ s.priority t = ground (arith, e, used) in
      has-cut t (lists (s.priority t)) (
        subst (λ k. k < no_list → has t (lists k) ≡ true) home (sched.homed.held t)
          (omega (arith, sched.priorities t)))

  gone-IsSched :
      (t : ℕ) (g : DynMem) (k : Kernel) (xs ys : List ℕ)
      → k.tasks ≡ s
      → (t == s.now) ≡ false
      → lists (s.priority t) ≡ xs ++ t ∷ ys
      → IsSched (gone t g k).tasks (upd lists (s.priority t) (xs ++ ys))
  gone-IsSched t g k xs ys same other e =
      subst
        (λ r.
          IsSched
            (record r {
              store = erase (ready_list (r.priority t)) t r.store;
              selector = upd r.selector t 0;
            })
            (upd lists (s.priority t) (xs ++ ys)))
        (sym same)
        (record {
          homed =
              Homed-home (λ u. ground arith)
                (remove-Homed sched.homed (s.priority t) xs t ys (omega (arith, sched.priorities t))
                  e);
          now_node = sched.now_node;
          now_used = ground (arith, sched.now_used, other);
          priorities = sched.priorities;
        })

detach-eq :
    (fuel t p : ℕ) (f : Option ℕ) (s s' : TaskStruct)
    → wake_from fuel (wait_me_list t) (s.store.next (wait_me_list t)) s ≡ some s'
    → s'.process t ≡ some p
    → is_task t (s'.main_thread p) ≡ false
    → forget_fpu t s' ≡ record s' { last_task_used_fpu = f }
    → detach fuel t s ≡ some (apart t p f s')
unfolding detach
detach-eq fuel t p f s s' run e m h = rw (run, e, h) (ap some (leave_process-eq t p f s' m))

terminate_internal-other :
    (fuel t : ℕ) (k : Kernel) (s : TaskStruct)
    → detach fuel t k.tasks ≡ some s
    → (t == s.now) ≡ false
    → terminate_internal fuel t k ≡ terminate_other t (record k { tasks = s })
unfolding terminate_internal
terminate_internal-other fuel t k s e other = rw (e, other) refl

IsList-unlisted :
    {st st' : Store} (d : ℕ) (xs : List ℕ)
    → ((q : ℕ) → is_listed q ≡ false → IsSameAt q st st')
    → ((q : ℕ) → has q (d ∷ xs) ≡ true → is_listed q ≡ false)
    → IsList st d xs
    → IsList st' d xs
IsList-unlisted {st} {st'} d xs same out l = record {
  chain =
      Chain-frame st.next st.prev st'.next st'.prev d xs d (λ q i. (same q (out q i)).0)
        (λ q i. (same q (out q (ground (arith, i, has-append q xs (d ∷ []))))).1) l.chain;
  distinct = l.distinct;
  sized = (same d (out d (ground arith))).2 ∙ l.sized;
  small = l.small;
}

-- A ready task that has left its process is taken off its list and freed, and a list of threads
-- outlives that.
end_ready :
    (k : Kernel) (g : DynMem) (t : ℕ) (a : TaskStruct) {lists : ℕ → List ℕ}
    → IsSched a lists
    → (t == a.now) ≡ false
    → a.flag t ≡ ready
    → (a.selector t == 0) ≡ false
    → a.wait_obj t ≡ none
    → a.process t ≡ none
    → IsFreed (a.stack t) (a.stack_size t) k.dyn_mem g
    → (d : ℕ) (xs : List ℕ) → IsList a.store d xs
    → ((q : ℕ) → has q (d ∷ xs) ≡ true → is_listed q ≡ false)
    → let k' = record k { tasks = a } in
      (lists' : ℕ → List ℕ) × (terminate_other t k' ≡ some (gone t g k'))
      × IsSched (gone t g k').tasks lists'
      × IsList (gone t g k').tasks.store d xs
end_ready k g t a {lists} sched other e used alone free_of freed d xs l out =
    let k' = record k { tasks = a } in
    let j = a.priority t in
    let lt : j < no_list = omega (arith, sched.priorities t) in
    let (us, vs, cut) = ready-cut sched t e used in
    let whole : IsList a.store (list_at j) (us ++ t ∷ vs) =
      subst (λ l. IsList a.store (list_at j) l) cut (sched.homed.list j lt) in
    (
      upd lists j (us ++ vs),
      terminate_other-eq t k' g alone e free_of freed,
      gone-IsSched sched t g k' us vs refl other cut,
      IsList-frame (erase-SameOutside us t vs whole)
          (λ q i.
            subst (λ l. has q (list_at j ∷ l) ≡ false) cut
              (not_listed sched.homed j q lt (out q i)))
          l,
    )

module _ (k : Kernel) (lists : ℕ → List ℕ) (sched : IsSched k.tasks lists) where
  open k.tasks use {store, flag, selector, wait_obj, process, main_thread, stack, stack_size, now}

  unawoken :
      (t : ℕ) (ws : List ℕ)
      → flag t ≡ ready
      → ((w : ℕ) → has w ws ≡ true → has w (lists wait_list_index) ≡ true)
      → has t ws ≡ false
  unawoken t ws e sleep = elim (Bool-cases (has t ws)) [
    | inl i ↦
        let clash : ◌≡◌ {A = Flag} ready wait = sym e ∙ waiting sched t (sleep t i) in absurd cc
    | inr i ↦ i
  ]

  -- `ckTaskTerminate_internal` of a ready thread that is neither the current task nor the main
  -- thread of its process, when the lists of the scheduler hold the right tasks, its list of
  -- waiting tasks holds the tasks `ws` of the wait list, the list of threads of the process holds
  -- it, and its stack, if it has one, can be freed, returns after as many rounds of its loop as
  -- tasks wait for it: the lists hold the right tasks again, the entry of the task is free, every
  -- task that waited for it is ready and waits for nothing, and the list of threads holds the
  -- other threads.
  pub terminate_internal-IsSched :
      (t p : ℕ) (ws xs ys : List ℕ) (g : DynMem)
      → flag t ≡ ready
      → (selector t == 0) ≡ false
      → wait_obj t ≡ none
      → (t == now) ≡ false
      → IsList store (wait_me_list t) (map wait_node ws)
      → ((w : ℕ) → has w ws ≡ true → has w (lists wait_list_index) ≡ true)
      → process t ≡ some p
      → is_task t (main_thread p) ≡ false
      → IsList store (thread_list p) (xs ++ thread_node t ∷ ys)
      → ((q : ℕ) → has q (xs ++ thread_node t ∷ ys) ≡ true → q % 8 ≡ 3)
      → IsFreed (stack t) (stack_size t) k.dyn_mem g
      → (k' : Kernel) × (lists' : ℕ → List ℕ) × (terminate_internal (suc (length ws)) t k ≡ some k')
        × IsSched k'.tasks lists'
        × (k'.tasks.selector t ≡ 0)
        × ((w : ℕ) → has w ws ≡ true → (k'.tasks.flag w ≡ ready) × (k'.tasks.wait_obj w ≡ none))
        × IsList k'.tasks.store (thread_list p) (xs ++ ys)
  terminate_internal-IsSched t p ws xs ys g is_ready used alone other waiters sleep of main threads
        nodes freed =
      let (us, vs, cut) = ready-cut sched t is_ready used in
      let here : t % 8 ≡ 0 =
        (sched.homed.nodes (k.tasks.priority t) t (omega (arith, sched.priorities t))
          (member sched (k.tasks.priority t) t us vs cut)).0 in
      let (s, lists', run, sched', woken) =
        wake_from-IsAllWoken ws (wait_me_list t) (store.next (wait_me_list t)) sched
          (wait_node-Distinct ws waiters.distinct.1) sleep (omega (arith, here))
          (Chain-Leads store.next store.prev (wait_me_list t) ws (wait_me_list t) waiters.chain) in
      let f = forget_fpu-eq t s in
      let still = woken.others t (unawoken t ws is_ready sleep) in
      let (same_selector, same_priority, same_process, same_main, same_stack, same_size) =
        woken.same_rest in
      let outside : (q : ℕ)
          → has q (thread_list p ∷ xs ++ thread_node t ∷ ys) ≡ true
          → is_listed q ≡ false =
        λ q i. ground (arith, nodes q, i) in
      let threads' : IsList s.store (thread_list p) (xs ++ thread_node t ∷ ys) =
        IsList-unlisted (thread_list p) (xs ++ thread_node t ∷ ys) woken.same_store outside
          threads in
      let a : TaskStruct = apart t p f.0 s in
      let sched'' : IsSched a lists' = apart-IsSched sched' t p f.0 xs ys threads' nodes in
      let other' : (t == a.now) ≡ false = ap (λ n. t == n) woken.same_now ∙ other in
      let end =
        end_ready k g t a sched'' other' (still.0 ∙ is_ready)
          (ap (λ m. m t == 0) same_selector ∙ used) (still.1 ∙ alone) (ground arith)
          (subst (λ m. IsFreed (m t) (s.stack_size t) k.dyn_mem g) (sym same_stack)
            (subst (λ m. IsFreed (stack t) (m t) k.dyn_mem g) (sym same_size) freed))
          (thread_list p) (xs ++ ys) (erase-IsList xs (thread_node t) ys threads')
          (λ q i.
            outside q
              (ground (arith, i, has-append q xs (thread_node t ∷ ys), has-append q xs ys))) in
      (
        gone t g (record k { tasks = a }),
        end.0,
        terminate_internal-other (suc (length ws)) t k a
              (detach-eq (suc (length ws)) t p f.0 k.tasks s run (ap (λ m. m t) same_process ∙ of)
                (ap (λ m. is_task t (m p)) same_main ∙ main) f.1)
              other'
            ∙ end.1,
        end.2,
        ground arith,
        woken.woken,
        end.3,
      )
