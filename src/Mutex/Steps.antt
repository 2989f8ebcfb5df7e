-- ===== src/Mutex/Steps.antt =====
-- The steps of src/recursive_mutex.c keep the invariant, whoever holds the mutex.
use mathlib.Core.Path.{subst}
use clubcos.Task.{task_invalid_id}
use clubcos.Mutex.{
  Pc, away, try, compare_id, recount, spin, set_count, set_id, test_locked, test_id, read_count,
  clear_count, clear_id, unlock, lower, Call, call_lock, call_unlock, System, step_at, step,
}
use clubcos.Mutex.Holder.{
  IsHeld, IsOutside, IsHolding, goto_outside, take_lock, goto_holding, return_holding, give_lock,
}
use clubcos.Prelude.{
  ℕ, suc, ◌+◌, ◌-◌, ◌^◌, ◌<◌, ◌≡◌, refl, sym, ◌⊎◌, inl, inr, Bool, true, false, Option, none, some,
  arith, ltb, ◌==◌, if◌then◌else◌, ==_iff, Bool-cases,
}

abbrev pub IsHeldNext : ℕ → System → Type 0
IsHeldNext bound s = (h : Option ℕ) × IsHeld h (suc bound) s

taken :
    {bound : ℕ} {b : Bool} (x y : System)
    → b ≡ true
    → IsHeldNext bound x
    → IsHeldNext bound (if b then x else y)
taken x y e h = rw e h

skipped :
    {bound : ℕ} {b : Bool} (x y : System)
    → b ≡ false
    → IsHeldNext bound y
    → IsHeldNext bound (if b then x else y)
skipped x y e h = rw e h

-- The id in the mutex is the holder's or none.
holder_id :
    (l : Pc) (k n id count : ℕ) → IsHolding l k n id count → (id ≡ k) ⊎ (id ≡ task_invalid_id)
holder_id away k n id count h = inl h.1
holder_id try k n id count h = inl h.1
holder_id spin k n id count h = elim h [ ]
holder_id compare_id k n id count h = inl h.1
holder_id recount k n id count h = inl h.1
holder_id set_count k n id count h = inr h.1
holder_id set_id k n id count h = inr h.1
holder_id test_locked k n id count h = inl h.1
holder_id test_id k n id count h = inl h.1
holder_id read_count k n id count h = inl h.1
holder_id clear_count k n id count h = inl h.1
holder_id clear_id k n id count h = inl h.1
holder_id unlock k n id count h = inr h.1
holder_id (lower m) k n id count h = inl h.1

module _ {s : System} {bound i : ℕ} (is_id : i < task_invalid_id) where
  -- A task that does not hold the mutex.
  free_step :
      (l : Pc) (c : Call) → IsHeld none bound s → IsOutside l → IsHeldNext bound (step_at l i c s)
  unfolding step_at
  free_step away call_lock h o = (none, goto_outside i none try h refl tt)
  free_step away call_unlock h o = (none, goto_outside i none test_locked h refl tt)
  free_step try c h o = skipped _ _ (h.held_by.0) (some i, take_lock i is_id h)
  free_step compare_id c h o =
      let e : (s.task_id == i) ≡ false = ground (arith, h.held_by.1) in
      skipped _ _ e (none, goto_outside i none spin h refl tt)
  free_step spin c h o = skipped _ _ (h.held_by.0) (some i, take_lock i is_id h)
  free_step test_locked c h o = skipped _ _ (h.held_by.0) (none, goto_outside i none away h refl tt)
  free_step test_id c h o =
      let e : (s.task_id == i) ≡ false = ground (arith, h.held_by.1) in
      skipped _ _ e (none, goto_outside i none away h refl tt)
  free_step recount c h o = elim o [ ]
  free_step set_count c h o = elim o [ ]
  free_step set_id c h o = elim o [ ]
  free_step read_count c h o = elim o [ ]
  free_step clear_count c h o = elim o [ ]
  free_step clear_id c h o = elim o [ ]
  free_step unlock c h o = elim o [ ]
  free_step (lower m) c h o = elim o [ ]

  not_mine : (k : ℕ) → IsHeld (some k) bound s → (i == k) ≡ false → (s.task_id == i) ≡ false
  not_mine k h n = elim (holder_id (s.pc k) k _ _ _ (h.held_by.2)) [
    | inl e ↦ ground (arith, e)
    | inr e ↦ ground (arith, e)
  ]

  -- The same while another task does.
  waiting_step :
      (k : ℕ) (l : Pc) (c : Call)
      → IsHeld (some k) bound s
      → (i == k) ≡ false
      → IsOutside l
      → s.pc i ≡ l
      → IsHeldNext bound (step_at l i c s)
  unfolding step_at
  waiting_step k away call_lock h n o p = (some k, goto_outside i (some k) try h n tt)
  waiting_step k away call_unlock h n o p = (some k, goto_outside i (some k) test_locked h n tt)
  waiting_step k try c h n o p =
      taken _ _ (h.held_by.0) (some k, goto_outside i (some k) compare_id h n tt)
  waiting_step k compare_id c h n o p =
      skipped _ _ (not_mine k h n) (some k, goto_outside i (some k) spin h n tt)
  waiting_step k spin c h n o p = taken _ _ (h.held_by.0) (
    some k,
    record {
      held_by = h.held_by;
      outside = h.outside;
      none_held = h.none_held;
      depth = λ j. omega (arith, h.depth j);
    },
  )
  waiting_step k test_locked c h n o p =
      taken _ _ (h.held_by.0) (some k, goto_outside i (some k) test_id h n tt)
  waiting_step k test_id c h n o p =
      skipped _ _ (not_mine k h n) (some k, goto_outside i (some k) away h n tt)
  waiting_step k recount c h n o p = elim o [ ]
  waiting_step k set_count c h n o p = elim o [ ]
  waiting_step k set_id c h n o p = elim o [ ]
  waiting_step k read_count c h n o p = elim o [ ]
  waiting_step k clear_count c h n o p = elim o [ ]
  waiting_step k clear_id c h n o p = elim o [ ]
  waiting_step k unlock c h n o p = elim o [ ]
  waiting_step k (lower m) c h n o p = elim o [ ]

  -- The holder.
  holder_step :
      (l : Pc) (c : Call)
      → suc bound < 2 ^ 32
      → IsHeld (some i) bound s
      → IsHolding l i (s.held i) s.task_id s.lock_count
      → IsHeldNext bound (step_at l i c s)
  unfolding step_at
  holder_step away call_lock b h o = (some i, goto_holding i try _ _ h o)
  holder_step away call_unlock b h o = (some i, goto_holding i test_locked _ _ h o)
  holder_step try c b h o = taken _ _ (h.held_by.0) (some i, goto_holding i compare_id _ _ h o)
  holder_step compare_id c b h o =
      let e : (s.task_id == i) ≡ true = ground (arith, o.1) in
      taken _ _ e (some i, goto_holding i recount _ _ h o)
  holder_step recount c b h o = (
    some i,
    return_holding i (s.held i + 1) _ _ h (omega arith, o.1, omega (arith, o.2, h.depth i))
        (omega arith),
  )
  holder_step set_count c b h o = (some i, goto_holding i set_id _ 1 h (o.0, o.1, refl))
  holder_step set_id c b h o = (
    some i,
    return_holding i (s.held i + 1) i _ h (omega arith, refl, omega (arith, o.0, o.2))
        (omega arith),
  )
  holder_step test_locked c b h o = taken _ _ (h.held_by.0) (some i, goto_holding i test_id _ _ h o)
  holder_step test_id c b h o =
      let e : (s.task_id == i) ≡ true = ground (arith, o.1) in
      taken _ _ e (some i, goto_holding i read_count _ _ h o)
  holder_step read_count c b h o = elim (Bool-cases (ltb 1 s.lock_count)) [
    | inl e ↦
        taken _ _ e
          (some i, goto_holding i (lower s.lock_count) _ _ h (ground (arith, o.2, e), o.1, o.2))
    | inr e ↦ skipped _ _ e (some i, goto_holding i clear_count _ _ h (ground (arith, o, e), o.1))
  ]
  holder_step (lower m) c b h o = (
    some i,
    return_holding i (s.held i - 1) _ _ h
        (omega (arith, o.0), o.1, omega (arith, o.0, o.2, h.depth i)) (omega arith),
  )
  holder_step clear_count c b h o = (some i, goto_holding i clear_id _ 0 h o)
  holder_step clear_id c b h o = (some i, goto_holding i unlock task_invalid_id _ h (o.0, refl))
  holder_step unlock c b h o = (none, give_lock i h o.0 o.1)
  holder_step spin c b h o = elim o [ ]

pub step-IsHeld :
    {s : System} {bound : ℕ} (holder : Option ℕ) (i : ℕ) (c : Call)
    → i < task_invalid_id
    → suc bound < 2 ^ 32
    → IsHeld holder bound s
    → IsHeldNext bound (step (i, c) s)
unfolding step
step-IsHeld {s} none i c is_id b h = free_step is_id (s.pc i) c h (h.outside i refl)
step-IsHeld {s} {bound} (some k) i c is_id b h = elim (Bool-cases (i == k)) [
  | inl e ↦
      let h' : IsHeld (some i) bound s =
        subst (λ m. IsHeld (some m) bound s) (sym ((==_iff i k).0 e)) h in
      holder_step is_id (s.pc i) c b h' (h'.held_by.2)
  | inr e ↦ waiting_step is_id k (s.pc i) c h e (h.outside i e) refl
]
