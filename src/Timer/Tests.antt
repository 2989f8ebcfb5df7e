-- ===== src/Timer/Tests.antt =====
-- Runs of the time-outs of src/timer.c, and the theorem about them at an input of its own.
use clubcos.LinkedList.IsList.{IsList}
use clubcos.Timer.{Timer, initialize, link_in, timer_set, timer_int_handler}
use clubcos.Timer.Handler.{timer_int_handler-due, timer_int_handler-IsPending}
use clubcos.Timer.Links.{Links, insert_by}
use clubcos.Timer.Sorted.{left, IsPending, timer_set-IsPending}
use clubcos.Prelude.{
  ℕ, ◌+◌, ◌≡◌, refl, Bool, true, ◌||◌, Option, none, some, [], ◌∷◌, arith, ◌==◌, if◌then◌else◌, has,
}

-- The tick count is close to its wrap; the time-out 10 comes after the wrap.
abbrev fresh : Timer
fresh = record {
  store = record {
    next = λ q. 0;
    prev = λ q. 0;
    third = λ q. if q == 10 then 2 else if q == 20 then 4294967295 else 0;
  };
  notice_queue = λ q. 700;
  head = 500;
  sentinal = 900;
  tick_low = 4294967290;
  tick_high = 0;
}

abbrev one_pending : Timer
one_pending = record fresh {
  store = record fresh.store { next = λ q. if q == 500 then 10 else if q == 10 then 900 else 0 };
}

one_pending-IsPending : IsPending one_pending (10 ∷ [])
one_pending-IsPending = record {
  linked = (refl, refl);
  distinct = (refl, (refl, tt));
  apart = refl;
  sorted = refl;
  word = omega arith;
}

timer_set-IsPending_example :
    (t' : Timer) × (timer_set 3 20 one_pending ≡ some (true, t'))
    × IsPending t' (insert_by (left t') 20 (10 ∷ []))
    × (left t' 20 ≡ 5)
timer_set-IsPending_example =
    timer_set-IsPending 3 20 one_pending (10 ∷ []) one_pending-IsPending
      (λ e. absurd (omega (arith, e))) refl (λ e. absurd (omega (arith, e))) (omega arith)

head_of : Option (Bool × Timer) → ℕ × ℕ
head_of none = (0, 0)
head_of (some (b, t)) = (t.store.next 500, t.store.next 20)

-- The time-out 20 is before the wrap, and so before 10.
timer_set_wrap : head_of (timer_set 3 20 one_pending) ≡ (20, 10)
unfolding timer_set link_in head_of
timer_set_wrap = refl

start : head_of (some (true, initialize fresh)) ≡ (900, 0)
unfolding initialize head_of
start = refl

-- Two time-outs for the next tick, and their notice queue at 700.
abbrev two_due : Timer
two_due = record fresh {
  store = record {
    next = λ q. if q == 500 then 10 else if q == 10 then 20 else if q == 20 then 900 else q;
    prev = λ q. q;
    third = λ q. if (q == 10) || (q == 20) then 4294967291 else 0;
  };
}

two_due-IsPending : IsPending two_due (10 ∷ 20 ∷ [])
two_due-IsPending = record {
  linked = (refl, (refl, refl));
  distinct = (refl, (refl, (refl, tt)));
  apart = refl;
  sorted = (omega arith, refl);
  word = omega arith;
}

empty_queue : IsList two_due.store 700 []
empty_queue = record {
  chain = (refl, refl);
  distinct = (refl, tt);
  sized = refl;
  small = omega arith;
}

timer_int_handler-due_example :
    (t' : Timer) × (timer_int_handler 2 two_due ≡ some t')
    × (t'.tick_low ≡ 4294967291)
    × IsList t'.store 700 (10 ∷ [])
    × Links t'.store.next t'.head (20 ∷ []) t'.sentinal
    × ((q : ℕ) → has q (20 ∷ []) ≡ true → t'.store.third q ≡ two_due.store.third q)
timer_int_handler-due_example =
    timer_int_handler-due two_due 10 700 (20 ∷ []) [] two_due-IsPending refl refl
      (λ e. absurd (omega (arith, e))) empty_queue (λ q i. ground (arith, i)) (omega arith)
      (λ e. absurd (omega (arith, e)))

timer_int_handler-IsPending_example :
    (t' : Timer) × (timer_int_handler 1 one_pending ≡ some t')
    × IsPending t' (10 ∷ [])
    × ((q : ℕ) → has q (10 ∷ []) ≡ true → left t' q + 1 ≡ left one_pending q)
timer_int_handler-IsPending_example =
    timer_int_handler-IsPending one_pending (10 ∷ []) one_pending-IsPending
      (λ e. absurd (omega (arith, e))) (λ q i. ground (arith, i))
