-- ===== src/Queue/Tests.antt =====
-- Runs of the queues, and the theorems at concrete queues.
use clubcos.Queue.{Queue, put, get, remove, run}
use clubcos.Queue.Fifo
use clubcos.Queue.Fifo.{Op, put_op, get_op, remove_op}
use clubcos.Queue.Inv.{IsValid}
use clubcos.Queue.Refine.{run_refines}
use clubcos.Prelude.{ℕ, ◌≡◌, refl, true, false, List, [], ◌∷◌, arith}

abbrev storage : List ℕ
storage = 0 ∷ 0 ∷ 0 ∷ []

-- Full, with the oldest value in the last place.
abbrev wrapped : Queue
wrapped = record { buf = 9 ∷ 8 ∷ 7 ∷ []; first = 2; last = 2; size = 3; is_empty = false }

abbrev script : List Op
script = put_op 1 ∷ get_op true ∷ get_op false ∷ put_op 6 ∷ remove_op ∷ get_op false ∷ []

script_replies :
    run wrapped script ≡ (0, false) ∷ (7, true) ∷ (7, true) ∷ (0, true) ∷ (0, true) ∷ (8, true) ∷ []
unfolding run put get remove
script_replies = refl

wrapped-IsValid : IsValid wrapped
wrapped-IsValid = record {
  storage = omega arith;
  first_in = omega arith;
  last_in = omega arith;
  empty_eq = λ e. cc;
}

run_refines_example : run wrapped script ≡ Fifo.run 3 (7 ∷ 9 ∷ 8 ∷ []) script
run_refines_example = run_refines script wrapped-IsValid
