-- ===== src/Task/Misqueue.antt =====
-- `ckTaskSuspend` of a task that is not the current one.
use mathlib.Core.Path.{subst}
use clubcos.LinkedList.{push_back, erase}
use clubcos.LinkedList.IsList.{IsList}
use clubcos.LinkedList.Chain.{Chain-last}
use clubcos.Task.{
  Flag, running, ready, wait, TaskStruct, list_at, ready_list, wait_list, wait_list_index,
}
use clubcos.Task.Sched.{IsSched, home_of}
use clubcos.Task.Wait.{suspend_byptr}
use clubcos.Prelude.{
  ℕ, ◌≡◌, refl, sym, ap, ◌∙◌, inl, inr, Bool, true, false, List, arith, ◌==◌, Bool-cases, Store,
  upd, has,
}

-- The last node of a list that is not empty is in the list.
last-has :
    {st : Store} (k : ℕ) {q : ℕ} (l : List ℕ)
    → IsList st (list_at k) l
    → st.prev (list_at k) ≡ q
    → (q == list_at k) ≡ false
    → has q l ≡ true
last-has {st} k {q} l list e ne =
    ground (arith, Chain-last st.next st.prev (list_at k) l (list_at k) list.chain)

module _ {s : TaskStruct} {lists : ℕ → List ℕ} (sched : IsSched s lists) where
  other_asleep : ℕ → ℕ → TaskStruct
  other_asleep t k = record s {
    store = push_back wait_list s.now (erase (ready_list k) t s.store);
    flag = upd s.flag t wait;
  }

  suspend_byptr-ready :
      (t k : ℕ) → s.flag t ≡ ready → s.priority t ≡ k → suspend_byptr t s ≡ (true, other_asleep t k)
  unfolding suspend_byptr other_asleep
  suspend_byptr-ready t k e f = rw (e, f) refl

  other_asleep-last : (t k : ℕ) → (other_asleep t k).store.prev wait_list ≡ s.now
  unfolding other_asleep push_back
  other_asleep-last t k = ground arith

  different : (t : ℕ) → s.flag t ≡ ready → s.flag s.now ≡ running → (s.now == t) ≡ false
  different t e runs = elim (Bool-cases (s.now == t)) [
    | inl same ↦
        let q : s.now ≡ t = ground arith in
        let clash : ◌≡◌ {A = Flag} running ready = sym runs ∙ ap s.flag q ∙ e in absurd cc
    | inr ne ↦ ne
  ]

  other_asleep-now :
      (t k : ℕ)
      → (s.now == t) ≡ false
      → s.flag s.now ≡ running
      → (other_asleep t k).flag s.now ≡ running
  unfolding other_asleep
  other_asleep-now t k ne runs = ground arith

  other_asleep-flag : (t k : ℕ) → (other_asleep t k).flag t ≡ wait
  unfolding other_asleep
  other_asleep-flag t k = ground arith

  still_running :
      (t k : ℕ)
      → (s.now == t) ≡ false
      → s.flag s.now ≡ running
      → home_of (other_asleep t k) s.now ≡ wait_list_index
      → ⊥
  still_running t k ne runs home =
      let f = other_asleep-now t k ne runs in ground (arith, sched.now_used, f, home)

  other_asleep-broken :
      (t k : ℕ) (lists' : ℕ → List ℕ)
      → (s.now == t) ≡ false
      → s.flag s.now ≡ running
      → ¬ IsSched (other_asleep t k) lists'
  other_asleep-broken t k lists' ne runs b =
      let i =
        last-has wait_list_index (lists' wait_list_index)
          (b.homed.list wait_list_index (omega arith)) (other_asleep-last t k)
          (ground (arith, sched.now_node.0)) in
      let home : home_of (other_asleep t k) s.now ≡ wait_list_index =
        b.homed.at_home wait_list_index s.now (omega arith) i in
      still_running t k ne runs home

  -- When `ckTaskSuspend_byptr` suspends a ready task while another task runs, and the lists held
  -- the right tasks, it answers true and marks the task as waiting, but the last node of the wait
  -- list is that of the task that goes on running, and no assignment of tasks to the lists is
  -- right any more.
  pub suspend_byptr-other :
      (t : ℕ)
      → s.flag t ≡ ready
      → s.flag s.now ≡ running
      → ((suspend_byptr t s).0 ≡ true)
        × ((suspend_byptr t s).1.now ≡ s.now)
        × ((suspend_byptr t s).1.flag s.now ≡ running)
        × ((suspend_byptr t s).1.flag t ≡ wait)
        × ((suspend_byptr t s).1.store.prev wait_list ≡ s.now)
        × ((lists' : ℕ → List ℕ) → ¬ IsSched (suspend_byptr t s).1 lists')
  unfolding other_asleep
  suspend_byptr-other t e runs =
      let ne = different t e runs in
      subst
        (λ (r : Bool × TaskStruct).
          (r.0 ≡ true)
          × (r.1.now ≡ s.now)
          × (r.1.flag s.now ≡ running)
          × (r.1.flag t ≡ wait)
          × (r.1.store.prev wait_list ≡ s.now)
          × ((lists' : ℕ → List ℕ) → ¬ IsSched r.1 lists'))
        (sym (suspend_byptr-ready t (s.priority t) e refl))
        (
          refl,
          refl,
          other_asleep-now t (s.priority t) ne runs,
          other_asleep-flag t (s.priority t),
          other_asleep-last t (s.priority t),
          λ lists' b. other_asleep-broken t (s.priority t) lists' ne runs b,
        )
