-- ===== src/Task/Waking.antt =====
-- The loop of `ckTaskTerminate_internal` of src/task.c over the tasks that wait for the end of the
-- terminated one.
use mathlib.Core.Path.{subst}
use clubcos.LinkedList.{push_back, erase}
use clubcos.LinkedList.IsList.{IsList, push_back-SameOutside, erase-SameOutside}
use clubcos.Task.{
  ready, wait, TaskStruct, ready_list, wait_list, wait_node, wait_list_index, list_at,
}
use clubcos.Task.Lists.{Homed, no_list, remove-Homed}
use clubcos.Task.Sched.{IsSched}
use clubcos.Task.Move.{moved, waits, member, resume_byptr-IsSched}
use clubcos.Task.Terminate.{wake, wake_from}
use clubcos.Prelude.{
  ℕ, suc, ◌-◌, ◌%◌, ◌<◌, ◌≡◌, refl, sym, ap, ◌∙◌, inl, inr, Bool, true, false, ◌||◌, none, some,
  List, [], ◌∷◌, ◌++◌, arith, ◌==◌, ==_iff, Bool-cases, length, Store, upd, has, Distinct,
  has-append, has_same, has-cut,
}

-- From `node` on, the next pointers lead through the wait nodes of `ws` to `list`.
abbrev pub Leads : (ℕ → ℕ) → List ℕ → ℕ → ℕ → Type 0
Leads next [] list node = node ≡ list
Leads next (w ∷ ws) list node = (node ≡ wait_node w) × Leads next ws list (next node)

-- The addresses of the scheduler's own lists and of the nodes in them.
abbrev pub is_listed : ℕ → Bool
is_listed q = (q % 8 == 0) || (q % 8 == 4)

abbrev pub IsSameAt : ℕ → Store → Store → Type 0
IsSameAt q st st' = (st'.next q ≡ st.next q) × (st'.prev q ≡ st.prev q) × (st'.third q ≡ st.third q)

-- `s'` is `s` with the tasks of `ws` woken, as far as flags and awaited tasks go.
pub record IsWoken (ws : List ℕ) (s s' : TaskStruct) : Type 0 where
  pub woken : (w : ℕ) → has w ws ≡ true → (s'.flag w ≡ ready) × (s'.wait_obj w ≡ none)
  pub others : (u : ℕ) → has u ws ≡ false → (s'.flag u ≡ s.flag u) × (s'.wait_obj u ≡ s.wait_obj u)
  pub same_now : s'.now ≡ s.now
  pub same_last : s'.last_task_used_fpu ≡ s.last_task_used_fpu
  pub same_rest :
      (s'.selector ≡ s.selector)
      × (s'.priority ≡ s.priority)
      × (s'.process ≡ s.process)
      × (s'.main_thread ≡ s.main_thread)
      × (s'.stack ≡ s.stack)
      × (s'.stack_size ≡ s.stack_size)
  pub same_store : (q : ℕ) → is_listed q ≡ false → IsSameAt q s.store s'.store

abbrev resumed : ℕ → TaskStruct → TaskStruct
resumed t s = record s {
  wait_obj = upd s.wait_obj t none;
  store = push_back (ready_list (s.priority t)) t (erase wait_list t s.store);
  flag = upd s.flag t ready;
}

wake-eq : (t : ℕ) (s : TaskStruct) → s.flag t ≡ wait → wake t s ≡ resumed t s
unfolding wake
wake-eq t s e = rw (wake, e) refl

pub not_listed :
    {st : Store} {lists : ℕ → List ℕ} {home : ℕ → ℕ}
    → Homed st lists home
    → (k q : ℕ) → k < no_list
    → is_listed q ≡ false
    → has q (list_at k ∷ lists k) ≡ false
not_listed {lists = lists} h k q lt odd = elim (Bool-cases (has q (lists k))) [
  | inl e ↦ absurd (ground (arith, (h.nodes k q lt e).0, odd))
  | inr e ↦ ground (arith, odd, e)
]

module _ {s : TaskStruct} {lists : ℕ → List ℕ} (sched : IsSched s lists) where
  unawaited : ℕ → TaskStruct
  unawaited t = record s { wait_obj = upd s.wait_obj t none }

  unawaited-IsSched : (t : ℕ) → IsSched (unawaited t) lists
  unfolding unawaited
  unawaited-IsSched t = record {
    homed = sched.homed;
    now_node = sched.now_node;
    now_used = sched.now_used;
    priorities = sched.priorities;
  }

  pub waiting : (t : ℕ) → has t (lists wait_list_index) ≡ true → s.flag t ≡ wait
  waiting t h =
      (waits (s.selector t == 0) (s.flag t) (s.priority t) (sched.priorities t)
        (sched.homed.at_home wait_list_index t (omega arith) h)).1

  wake-IsSched :
      (t : ℕ) (xs ys : List ℕ)
      → lists wait_list_index ≡ xs ++ t ∷ ys
      → IsSched (wake t s) (moved lists wait_list_index xs ys (s.priority t) t)
  unfolding wake unawaited
  wake-IsSched t xs ys e = (resume_byptr-IsSched (unawaited-IsSched t) t xs ys e).2

  -- The nodes of other kinds keep their links.
  wake-same :
      (t : ℕ) (xs ys : List ℕ)
      → lists wait_list_index ≡ xs ++ t ∷ ys
      → s.flag t ≡ wait
      → (q : ℕ) → is_listed q ≡ false
      → IsSameAt q s.store (wake t s).store
  wake-same t xs ys e f q odd =
      let h = remove-Homed sched.homed wait_list_index xs t ys (omega arith) e in
      let p = s.priority t in
      let lt : p < no_list = omega (arith, sched.priorities t) in
      let node =
        sched.homed.nodes wait_list_index t (omega arith)
          (member sched wait_list_index t xs ys e) in
      let whole : IsList s.store wait_list (xs ++ t ∷ ys) =
        subst (λ l. IsList s.store wait_list l) e
          (sched.homed.list wait_list_index (omega arith)) in
      let out : has q (wait_list ∷ xs ++ t ∷ ys) ≡ false =
        subst (λ l. has q (wait_list ∷ l) ≡ false) e
          (not_listed sched.homed wait_list_index q (omega arith) odd) in
      let into = push_back-SameOutside t (h.list p lt) in
      let from = erase-SameOutside xs t ys whole in
      let far : has q (t ∷ list_at p ∷ upd lists wait_list_index (xs ++ ys) p) ≡ false =
        ground (arith, not_listed h p q lt odd, node.0, odd) in
      subst (λ s'. IsSameAt q s.store s'.store) (sym (wake-eq t s f))
        (
          into.same_next q far ∙ from.same_next q out,
          into.same_prev q far ∙ from.same_prev q out,
          into.same_third q far ∙ from.same_third q out,
        )

  wake-kept :
      (t : ℕ) (xs ys : List ℕ)
      → lists wait_list_index ≡ xs ++ t ∷ ys
      → (u : ℕ) → has u (lists wait_list_index) ≡ true
      → (u == t) ≡ false
      → has u (moved lists wait_list_index xs ys (s.priority t) t wait_list_index) ≡ true
  wake-kept t xs ys e u h ne =
      let i : has u (xs ++ t ∷ ys) ≡ true = subst (λ l. has u l ≡ true) e h in
      ground (arith, sched.priorities t, has-append u xs (t ∷ ys), has-append u xs ys)

Leads-frame :
    {next next' : ℕ → ℕ} (ws : List ℕ) (list node : ℕ) {node' : ℕ}
    → ((q : ℕ) → is_listed q ≡ false → next' q ≡ next q)
    → ((w : ℕ) → has w ws ≡ true → w % 8 ≡ 0)
    → node' ≡ node
    → Leads next ws list node
    → Leads next' ws list node'
Leads-frame [] list node same nodes e l = e ∙ l
Leads-frame {next} {next'} (w ∷ ws) list node same nodes e (f, l) = (
  e ∙ f,
  Leads-frame ws list (next node) same (λ u h. nodes u (ground (arith, h)))
      (ap next' e ∙ same node (ground (arith, f, nodes w (ground arith)))) l,
)

Woken-cons :
    (w : ℕ) (ws : List ℕ) {s s' : TaskStruct}
    → s.flag w ≡ wait
    → has w ws ≡ false
    → ((q : ℕ) → is_listed q ≡ false → IsSameAt q s.store (wake w s).store)
    → IsWoken ws (wake w s) s'
    → IsWoken (w ∷ ws) s s'
Woken-cons w ws {s} {s'} e new same_links i =
    let j : IsWoken ws (resumed w s) s' = subst (λ r. IsWoken ws r s') (wake-eq w s e) i in
    record {
      woken = λ u h. elim (Bool-cases (u == w)) [
        | inl same ↦
            subst (λ v. (s'.flag v ≡ ready) × (s'.wait_obj v ≡ none)) (sym ((==_iff u w).0 same))
              ((j.others w new).0 ∙ ground arith, (j.others w new).1 ∙ ground arith)
        | inr other ↦ j.woken u (ground (arith, h, other))
      ];
      others = λ u h.
          let o = j.others u (ground (arith, h)) in
          (o.0 ∙ ground (arith, h), o.1 ∙ ground (arith, h));
      same_now = j.same_now;
      same_last = j.same_last;
      same_rest = j.same_rest;
      same_store = λ q h.
          let a = i.same_store q h in let b = same_links q h in (a.0 ∙ b.0, a.1 ∙ b.1, a.2 ∙ b.2);
    }

abbrev pub IsAllWoken : List ℕ → ℕ → ℕ → TaskStruct → Type 0
IsAllWoken ws list node s =
    (s' : TaskStruct) × (lists' : ℕ → List ℕ) × (wake_from (suc (length ws)) list node s ≡ some s')
    × IsSched s' lists'
    × IsWoken ws s s'

wake_from-step :
    (n list w : ℕ) (s : TaskStruct)
    → (wait_node w == list) ≡ false
    → wake_from (suc n) list (wait_node w) s
      ≡ wake_from n list ((wake w s).store.next (wait_node w)) (wake w s)
unfolding wake_from
wake_from-step n list w s e = let back : wait_node w - 1 ≡ w = omega arith in rw (e, back) refl

wake_from-end :
    (n list node : ℕ) (s : TaskStruct) → node ≡ list → wake_from (suc n) list node s ≡ some s
unfolding wake_from
wake_from-end n list node s e = ground (arith, e)

-- If the lists of the scheduler hold the right tasks, and the wait nodes of the different tasks
-- `ws`, all of them in the wait list, lead from `node` to `list`, then the loop ends.
pub wake_from-IsAllWoken :
    (ws : List ℕ) (list node : ℕ) {s : TaskStruct} {lists : ℕ → List ℕ}
    → IsSched s lists
    → Distinct ws
    → ((w : ℕ) → has w ws ≡ true → has w (lists wait_list_index) ≡ true)
    → list % 8 ≡ 2
    → Leads s.store.next ws list node
    → IsAllWoken ws list node s
wake_from-IsAllWoken [] list node {s} {lists} sched d sleep even l = (
  s,
  lists,
  wake_from-end 0 list node s l,
  sched,
  record {
    woken = λ w h. absurd (ground (arith, h));
    others = λ u h. (refl, refl);
    same_now = refl;
    same_last = refl;
    same_rest = (refl, refl, refl, refl, refl, refl);
    same_store = λ q h. (refl, refl, refl);
  },
)
wake_from-IsAllWoken (w ∷ ws) list node {s} {lists} sched d sleep even (f, l) =
    let here = sleep w (ground arith) in
    let e = waiting sched w here in
    let (xs, ys, cut) = has-cut w (lists wait_list_index) here in
    let sched' = wake-IsSched sched w xs ys cut in
    let nodes : (u : ℕ) → has u (w ∷ ws) ≡ true → u % 8 ≡ 0 =
      λ u h. (sched.homed.nodes wait_list_index u (omega arith) (sleep u h)).0 in
    let l' : Leads (wake w s).store.next ws list ((wake w s).store.next (wait_node w)) =
      Leads-frame ws list (s.store.next node) (λ q odd. (wake-same sched w xs ys cut e q odd).0)
        (λ u h. nodes u (ground (arith, h)))
        ((wake-same sched w xs ys cut e (wait_node w) (ground (arith, nodes w (ground arith)))).0
          ∙ ap s.store.next (sym f))
        l in
    let (s', lists', run, done, woken) =
      wake_from-IsAllWoken ws list ((wake w s).store.next (wait_node w)) sched' d.1
        (λ u h.
          wake-kept sched w xs ys cut u (sleep u (ground (arith, h)))
            (ground (arith, has_same w u ws, d.0, h)))
        even l' in
    (
      s',
      lists',
      ap (λ n. wake_from (suc (suc (length ws))) list n s) f
          ∙ wake_from-step (suc (length ws)) list w s (ground (arith, even, nodes w (ground arith)))
          ∙ run,
      done,
      Woken-cons w ws e d.0 (wake-same sched w xs ys cut e) woken,
    )
