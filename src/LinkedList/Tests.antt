-- ===== src/LinkedList/Tests.antt =====
-- Lists at concrete addresses, for src/linkedlist.h and src/linkedlist.c.
use clubcos.LinkedList.{init, push_back}
use clubcos.LinkedList.IsList.{IsList, init-IsList, push_back-IsList}
use mathlib.Core.Path.{subst}
use clubcos.LinkedList.Chain.{Chain}
use clubcos.LinkedList.Lockfree.{finished, push_step}
use clubcos.LinkedList.Interleaved.{task_step, run_tasks}
use clubcos.LinkedList.Pushed.{at_start, is_quiet, started, run_tasks-Chain}
use clubcos.Prelude.{
  ℕ, ◌≡◌, refl, sym, inl, inr, true, false, List, [], ◌∷◌, ◌++◌, arith, ◌==◌, ==_iff, Bool-cases,
  Store, has, Distinct,
}

abbrev blank : Store
blank = record { next = λ q. 0; prev = λ q. 0; third = λ q. 0 }

abbrev empty : Store
empty = init 100 blank

abbrev one_node : Store
one_node = push_back 100 7 empty

abbrev two_nodes : Store
two_nodes = push_back 100 9 one_node

one_node-IsList : IsList one_node 100 (7 ∷ [])
one_node-IsList = push_back-IsList 7 (init-IsList 100 blank) (ground arith) (ground arith)

two_nodes-IsList : IsList two_nodes 100 (7 ∷ 9 ∷ [])
two_nodes-IsList = push_back-IsList 9 one_node-IsList (ground arith) (ground arith)

-- The tasks of 9 and 11 take turns; the second one loses the compare-and-swap, reads the end of the
-- list again, and writes its last pointer before the first one does.
abbrev turns : List ℕ
turns = 9 ∷ 11 ∷ 9 ∷ 11 ∷ 9 ∷ 11 ∷ 9 ∷ 11 ∷ 9 ∷ 11 ∷ 11 ∷ 11 ∷ 11 ∷ 11 ∷ 9 ∷ []

all_quiet :
    (q : ℕ)
    → has q (7 ∷ turns) ≡ true
    → is_quiet ((run_tasks 100 turns (started one_node (7 ∷ []))).pc q) ≡ true
unfolding run_tasks task_step push_step at_start init push_back
all_quiet q h = elim (Bool-cases (q == 7)) [
  | inl e ↦
      subst (λ r. is_quiet ((run_tasks 100 turns (started one_node (7 ∷ []))).pc r) ≡ true)
        (sym ((==_iff q 7).0 e)) refl
  | inr e ↦ elim (Bool-cases (q == 9)) [
    | inl f ↦
        subst (λ r. is_quiet ((run_tasks 100 turns (started one_node (7 ∷ []))).pc r) ≡ true)
          (sym ((==_iff q 9).0 f)) refl
    | inr f ↦
        let g : q ≡ 11 = ground (arith, h, e, f) in
        subst (λ r. is_quiet ((run_tasks 100 turns (started one_node (7 ∷ []))).pc r) ≡ true)
          (sym g) refl
  ]
]

run_tasks-Chain_example :
    let m = run_tasks 100 turns (started one_node (7 ∷ [])) in
    (new : List ℕ) × Chain m.store.next m.store.prev 100 ((7 ∷ []) ++ new) 100
    × Distinct (100 ∷ 7 ∷ new)
    × ((q : ℕ) → has q new ≡ true → has q turns ≡ true)
    × ((q : ℕ) → (q == 100) ≡ false → m.pc q ≡ finished → has q (7 ∷ new) ≡ true)
run_tasks-Chain_example = run_tasks-Chain 100 (7 ∷ []) turns one_node one_node-IsList refl all_quiet
