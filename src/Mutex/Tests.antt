-- ===== src/Mutex/Tests.antt =====
-- Two tasks at the recursive mutex of src/recursive_mutex.c.
use clubcos.Mutex.{Call, call_lock, step_at, step, run, init}
use clubcos.Mutex.Exclusion.{IsExclusive, run-IsExclusive}
use clubcos.Prelude.{ℕ, ◌≡◌, refl, List, [], ◌∷◌, arith}

-- Task 1 takes the lock; task 2 asks for it while task 1 takes it again; both locks go back.
abbrev contest : List (ℕ × Call)
contest =
    (1, call_lock)
    ∷ (2, call_lock)
    ∷ (1, call_lock)
    ∷ (2, call_lock)
    ∷ (1, call_lock)
    ∷ (2, call_lock)
    ∷ (1, call_lock)
    ∷ (1, call_lock)
    ∷ (1, call_lock)
    ∷ (1, call_lock)
    ∷ (1, call_lock)
    ∷ []

run-IsExclusive_example : IsExclusive (run contest init)
run-IsExclusive_example = run-IsExclusive contest refl (omega arith)

contest_held : (run contest init).held 1 ≡ 2
unfolding run step step_at init
contest_held = refl
