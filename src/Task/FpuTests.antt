-- ===== src/Task/FpuTests.antt =====
-- The exception of the floating-point unit of src/task.c at an input of its own.
use clubcos.Task.Fpu.{
  FpuState, IsLazy, own_registers, except_int_handler_07, except_int_handler_07-IsLazy,
}
use clubcos.Prelude.{ℕ, ◌≡◌, refl, true, ◌||◌, some, arith, ◌==◌, if◌then◌else◌}

-- Task 8 has the unit, task 16 has used it before and gets it back.
abbrev two_users : FpuState
two_users = record {
  registers = 5;
  fpu_context = λ q. if q == 16 then 7 else 0;
  fpu_used = λ q. (q == 8) || (q == 16);
  now = 16;
  last_task_used_fpu = some 8;
  task_switched = true;
}

except_int_handler_07-IsLazy_example :
    IsLazy (except_int_handler_07 0 two_users)
    × ((except_int_handler_07 0 two_users).registers ≡ own_registers 0 two_users 16)
    × ((t : ℕ)
        → own_registers 0 (except_int_handler_07 0 two_users) t ≡ own_registers 0 two_users t)
except_int_handler_07-IsLazy_example =
    except_int_handler_07-IsLazy 0 two_users (record { last_used = λ t e. ground (arith, e) })

-- What the tasks have: 8 its context, saved, 16 the registers.
two_users_exchanged :
    ((except_int_handler_07 0 two_users).registers ≡ 7)
    × ((except_int_handler_07 0 two_users).fpu_context 8 ≡ 5)
unfolding except_int_handler_07
two_users_exchanged = (refl, refl)
