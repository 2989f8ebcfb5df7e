-- ===== src/Timer.antt =====
-- The time-outs of src/timer.c and src/timer.h. The words of a `TimeOut` are those of the store:
-- `next` is pNextTimeOut, `third` is `timeout`; `head` is the address of `pTimeOutHead`, which the
-- source takes for a `TimeOut`. The tick count is in the record.
pub mod Links
pub mod Sorted
pub mod Handler
mod Tests
use clubcos.LinkedList.Lockfree.{push_back_lockfree}
use clubcos.Prelude.{
  ℕ, zero, suc, ◌+◌, ◌-◌, ◌*◌, ◌/◌, ◌%◌, ◌^◌, ◌≤◌, ◌<◌, ◌≡◌, refl, sym, ap, ◌∙◌, ◌≢◌, ◌↔◌, ◌⊎◌, inl,
  inr, Bool, true, false, not, ◌&&◌, ◌||◌, Option, none, some, List, [], ◌∷◌, ◌++◌, map, arith, ltb,
  leb, ◌==◌, if◌then◌else◌, ltb→lt, lt→ltb, leb→le, ==_iff, tests, Bool-cases, Option-cases, length,
  get_elem?, set, get_or, take, drop, replicate, length-append, length-set, get_elem?-set_self,
  get_elem?-set_ne, take-append-drop, length-take, length-drop, length-replicate, length-map,
  get_or-set_self, get_or-set_ne, u8_mod, u16_mod, u32_mod, add32, sub32, Store, upd, has, Distinct,
  has-append, Distinct-snoc, Distinct-drop, Distinct-remove, has_same, Distinct-gone, all_below,
  all_below_sound, lt→ne, ne→false, sub16,
}

pub record Timer : Type 0 where
  pub store : Store
  pub notice_queue : ℕ → ℕ
  pub head : ℕ
  pub sentinal : ℕ
  pub tick_low : ℕ
  pub tick_high : ℕ

unfoldable pub initialize : Timer → Timer
initialize t =
    let s = t.store in
    record t {
      store = record s {
        next = upd (upd s.next t.sentinal t.sentinal) t.head t.sentinal;
        third = upd s.third t.sentinal 4294967295;
      };
      notice_queue = upd t.notice_queue t.sentinal 0;
    }

-- `p` between `before` and the first time-out from there on that is not sooner, in ticks from `tick`.
unfoldable pub link_in : ℕ → ℕ → ℕ → ℕ → Store → Option Store
link_in zero tick p before s = none
link_in (suc k) tick p before s =
    let node = s.next before in
    let rest = link_in k tick p node s in
    if leb (sub32 (s.third p) tick) (sub32 (s.third node) tick)
    then some (record s { next = upd (upd s.next before p) p node })
    else rest

abbrev pub set_store : Timer → Option Store → Option (Bool × Timer)
set_store t none = none
set_store t (some s) = some (true, record t { store = s })

unfoldable pub timer_set : ℕ → ℕ → Timer → Option (Bool × Timer)
unfolding link_in
timer_set fuel p t =
    let s = t.store in
    let s' = record s { third = upd s.third t.sentinal (add32 t.tick_low 4294967295) } in
    if t.notice_queue p == 0
    then some (false, t)
    else set_store t (link_in fuel t.tick_low p t.head s')

abbrev then_loop : (Store → Option Store) → Option Store → Option Store
then_loop go none = none
then_loop go (some s) = go s

-- The time-outs of the tick `low`, from `p` on. A time-out without a queue is the sentinal. The one
-- that comes next is read behind the push to the queue.
unfoldable pub expire : ℕ → Timer → ℕ → ℕ → Store → Option Store
expire zero t low p s = none
expire (suc k) t low p s =
    let out = record s { next = upd s.next t.head (s.next p) } in
    let again = record out { third = upd out.third p (add32 (out.third p) 4294967295) } in
    let pushed =
      then_loop (λ u. expire k t low (u.next p) u) (push_back_lockfree (t.notice_queue p) p out) in
    let kept = expire k t low (again.next p) again in
    if s.third p == low then if not (t.notice_queue p == 0) then pushed else kept else some s

abbrev ticked : Timer → Option Store → Option Timer
ticked t none = none
ticked t (some s) = some (record t { store = s })

-- The interrupt of the timer, up to the scheduling.
unfoldable pub timer_int_handler : ℕ → Timer → Option Timer
unfolding expire
timer_int_handler fuel t =
    let low = add32 t.tick_low 1 in
    let high = if low == 0 then add32 t.tick_high 1 else t.tick_high in
    ticked (record t { tick_low = low; tick_high = high })
      (expire fuel t low (t.store.next t.head) t.store)
