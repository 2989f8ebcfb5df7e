-- ===== src/Mutex.antt =====
-- The recursive mutex of src/recursive_mutex.c and src/recursive_mutex.h, taken by any number of
-- tasks that interrupt one another anywhere: each access of the shared words is one step. A
-- compare-and-swap is one step; so is `++LockCount`, which only the holder runs.
pub mod Holder
pub mod Steps
pub mod Exclusion
mod Tests
use clubcos.Task.{task_invalid_id}
use clubcos.Prelude.{
  ℕ, zero, suc, ◌+◌, ◌-◌, ◌*◌, ◌/◌, ◌%◌, ◌^◌, ◌≤◌, ◌<◌, ◌≡◌, refl, sym, ap, ◌∙◌, ◌≢◌, ◌↔◌, ◌⊎◌, inl,
  inr, Bool, true, false, not, ◌&&◌, ◌||◌, Option, none, some, List, [], ◌∷◌, ◌++◌, map, arith, ltb,
  leb, ◌==◌, if◌then◌else◌, ltb→lt, lt→ltb, leb→le, ==_iff, tests, Bool-cases, Option-cases, length,
  get_elem?, set, get_or, take, drop, replicate, length-append, length-set, get_elem?-set_self,
  get_elem?-set_ne, take-append-drop, length-take, length-drop, length-replicate, length-map,
  get_or-set_self, get_or-set_ne, u8_mod, u16_mod, u32_mod, add32, sub32, Store, upd, has, Distinct,
  has-append, Distinct-snoc, Distinct-drop, Distinct-remove, has_same, Distinct-gone, all_below,
  all_below_sound,
}

-- Where a task stands in `ckRecursiveMutexLock` or `ckRecursiveMutexUnlock`; `away` is in neither.
-- `lower` carries the local variable `LockCount`.
pub data Pc : Type 0 where
  away try compare_id recount spin set_count set_id : Pc
  test_locked test_id read_count clear_count clear_id unlock : Pc
  lower : ℕ → Pc

pub data Call : Type 0 where
  call_lock call_unlock : Call

-- The mutex, and of every task where it stands and how many locks it has to give back.
pub record System : Type 0 where
  pub task_id : ℕ
  pub lock_count : ℕ
  pub locked : Bool
  pub pc : ℕ → Pc
  pub held : ℕ → ℕ

unfoldable pub init : System
init = record {
  task_id = task_invalid_id;
  lock_count = 0;
  locked = false;
  pc = λ i. away;
  held = λ i. 0;
}

abbrev pub goto : ℕ → Pc → System → System
goto i l s = record s { pc = upd s.pc i l }

-- Back from a call, with the locks that the task has then.
abbrev pub return_with : ℕ → ℕ → System → System
return_with i n s = record s { pc = upd s.pc i away; held = upd s.held i n }

-- The next step of task `i`, which stands at the given place; `c` is what it calls next. A task's
-- id is its number.
unfoldable pub step_at : Pc → ℕ → Call → System → System
step_at away i call_lock s = goto i try s
step_at away i call_unlock s = goto i test_locked s
step_at try i c s =
    if s.locked then goto i compare_id s else goto i set_count (record s { locked = true })
step_at compare_id i c s = if s.task_id == i then goto i recount s else goto i spin s
step_at recount i c s =
    return_with i (s.held i + 1) (record s { lock_count = add32 s.lock_count 1 })
step_at spin i c s = if s.locked then s else goto i set_count (record s { locked = true })
step_at set_count i c s = goto i set_id (record s { lock_count = 1 })
step_at set_id i c s = return_with i (s.held i + 1) (record s { task_id = i })
step_at test_locked i c s = if s.locked then goto i test_id s else goto i away s
step_at test_id i c s = if s.task_id == i then goto i read_count s else goto i away s
step_at read_count i c s =
    if ltb 1 s.lock_count then goto i (lower s.lock_count) s else goto i clear_count s
step_at (lower n) i c s = return_with i (s.held i - 1) (record s { lock_count = sub32 n 1 })
step_at clear_count i c s = goto i clear_id (record s { lock_count = 0 })
step_at clear_id i c s = goto i unlock (record s { task_id = task_invalid_id })
step_at unlock i c s = return_with i (s.held i - 1) (record s { locked = false })

unfoldable pub step : ℕ × Call → System → System
unfolding step_at
step (i, c) s = step_at (s.pc i) i c s

-- The tasks take their steps in the order of the list.
unfoldable pub run : List (ℕ × Call) → System → System
run [] s = s
run (a ∷ rest) s = run rest (step a s)
