-- ===== src/Mutex/Holder.antt =====
-- Who holds the recursive mutex, and what each step does to that.
use clubcos.Task.{task_invalid_id}
use clubcos.Mutex.{
  Pc, away, try, compare_id, spin, set_count, set_id, test_locked, test_id, clear_count, clear_id,
  unlock, lower, System, goto, return_with,
}
use clubcos.Prelude.{
  ℕ, suc, ◌-◌, ◌≤◌, ◌<◌, ◌≡◌, refl, inl, inr, Bool, true, false, Option, none, some, arith, ◌==◌,
  Bool-cases,
}

-- What holds of a task that does not hold the mutex.
abbrev pub IsOutside : Pc → Type 0
IsOutside away = Unit
IsOutside try = Unit
IsOutside compare_id = Unit
IsOutside spin = Unit
IsOutside test_locked = Unit
IsOutside test_id = Unit
IsOutside _ = ⊥

-- What holds of the task that does, by its place: its id, its locks and the two words.
abbrev pub IsHolding : Pc → ℕ → ℕ → ℕ → ℕ → Type 0
IsHolding set_count i n id count = (n ≡ 0) × (id ≡ task_invalid_id)
IsHolding set_id i n id count = (n ≡ 0) × (id ≡ task_invalid_id) × (count ≡ 1)
IsHolding spin i n id count = ⊥
IsHolding clear_count i n id count = (n ≡ 1) × (id ≡ i)
IsHolding clear_id i n id count = (n ≡ 1) × (id ≡ i)
IsHolding unlock i n id count = (n ≡ 1) × (id ≡ task_invalid_id)
IsHolding (lower m) i n id count = (1 < n) × (id ≡ i) × (m ≡ n)
IsHolding _ i n id count = (0 < n) × (id ≡ i) × (count ≡ n)

-- Nobody holds the mutex, or one task does.
abbrev pub HeldBy : Option ℕ → System → Type 0
HeldBy none s = (s.locked ≡ false) × (s.task_id ≡ task_invalid_id)
HeldBy (some k) s =
    (s.locked ≡ true)
    × (k < task_invalid_id)
    × IsHolding (s.pc k) k (s.held k) s.task_id s.lock_count

abbrev pub holds : ℕ → Option ℕ → Bool
holds i none = false
holds i (some k) = i == k

-- The invariant, with `bound` for the depth of nesting.
pub record IsHeld (holder : Option ℕ) (bound : ℕ) (s : System) : Type 0 where
  pub held_by : HeldBy holder s
  pub outside : (i : ℕ) → holds i holder ≡ false → IsOutside (s.pc i)
  pub none_held : (i : ℕ) → holds i holder ≡ false → s.held i ≡ 0
  pub depth : (i : ℕ) → s.held i ≤ bound

module _ {s : System} {bound : ℕ} (i : ℕ) where
  -- A task that is away from the mutex or on its way stays outside.
  pub goto_outside :
      (holder : Option ℕ) (l : Pc)
      → IsHeld holder bound s
      → holds i holder ≡ false
      → IsOutside l
      → IsHeld holder (suc bound) (goto i l s)
  goto_outside none l h out o = record {
    held_by = h.held_by;
    outside = λ j n. elim (Bool-cases (i == j)) [ inl q ↦ rw q o | inr q ↦ rw q (h.outside j n) ];
    none_held = h.none_held;
    depth = λ j. omega (arith, h.depth j);
  }
  goto_outside (some k) l h out o =
      let q : (i == k) ≡ false = out in
      record {
        held_by = (h.held_by.0, h.held_by.1, rw q (h.held_by.2));
        outside =
            λ j n. elim (Bool-cases (i == j)) [ inl q ↦ rw q o | inr q ↦ rw q (h.outside j n) ];
        none_held = h.none_held;
        depth = λ j. omega (arith, h.depth j);
      }

  pub take_lock :
      i < task_invalid_id
      → IsHeld none bound s
      → IsHeld (some i) (suc bound) (goto i set_count (record s { locked = true }))
  take_lock is_id h =
      let e : (i == i) ≡ true = ground arith in
      record {
        held_by = (refl, is_id, rw e (h.none_held i refl, h.held_by.1));
        outside = λ j n. let q : (i == j) ≡ false = ground (arith, n) in rw q (h.outside j refl);
        none_held = λ j n. h.none_held j refl;
        depth = λ j. omega (arith, h.depth j);
      }

  -- The holder goes on.
  pub goto_holding :
      (l : Pc) (id count : ℕ)
      → IsHeld (some i) bound s
      → IsHolding l i (s.held i) id count
      → IsHeld (some i) (suc bound) (goto i l (record s { task_id = id; lock_count = count }))
  goto_holding l id count h o =
      let e : (i == i) ≡ true = ground arith in
      record {
        held_by = (h.held_by.0, h.held_by.1, rw e o);
        outside = λ j n. let q : (i == j) ≡ false = ground (arith, n) in rw q (h.outside j n);
        none_held = h.none_held;
        depth = λ j. omega (arith, h.depth j);
      }

  pub return_holding :
      (n id count : ℕ)
      → IsHeld (some i) bound s
      → IsHolding away i n id count
      → n ≤ suc (s.held i)
      → IsHeld
          (some i)
          (suc bound)
          (return_with i n (record s { task_id = id; lock_count = count }))
  return_holding n id count h o le =
      let e : (i == i) ≡ true = ground arith in
      record {
        held_by = (h.held_by.0, h.held_by.1, rw e o);
        outside = λ j m. let q : (i == j) ≡ false = ground (arith, m) in rw q (h.outside j m);
        none_held = λ j m. let q : (i == j) ≡ false = ground (arith, m) in rw q (h.none_held j m);
        depth = λ j. ground (arith, h.depth j, h.depth i);
      }

  pub give_lock :
      IsHeld (some i) bound s
      → s.held i ≡ 1
      → s.task_id ≡ task_invalid_id
      → IsHeld none (suc bound) (return_with i (s.held i - 1) (record s { locked = false }))
  give_lock h one id = record {
    held_by = (refl, id);
    outside = λ j n. elim (Bool-cases (i == j)) [
      | inl q ↦ rw q tt
      | inr q ↦ rw q (h.outside j (ground (arith, q)))
    ];
    none_held = λ j n. ground (arith, one, h.none_held j);
    depth = λ j. ground (arith, one, h.depth j);
  }
