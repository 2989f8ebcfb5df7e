-- ===== src/Semaphore/Section.antt =====
-- Tasks that enter the critical section of a binary semaphore and post when they leave it.
use clubcos.Semaphore.{BiSem, try_enter, post}
use clubcos.Prelude.{
  ℕ, ◌≡◌, refl, inl, inr, Bool, true, false, List, [], ◌∷◌, arith, ◌==◌, if◌then◌else◌, ==_iff,
  Bool-cases, upd,
}

-- A task tries once to enter, or leaves if it is inside.
pub data Move : Type 0 where
  enter leave : Move

pub record Tasks : Type 0 where
  pub semaphore : BiSem
  pub inside : ℕ → Bool

unfoldable pub step : ℕ × Move → Tasks → Tasks
step (i, enter) s =
    let (ok, b) = try_enter s.semaphore in
    if s.inside i
    then s
    else if ok
    then record { semaphore = b; inside = upd s.inside i true }
    else s
step (i, leave) s =
    if s.inside i
    then record { semaphore = (post s.semaphore).1; inside = upd s.inside i false }
    else s

unfoldable pub run : List (ℕ × Move) → Tasks → Tasks
unfolding step
run [] s = s
run (a ∷ rest) s = run rest (step a s)

abbrev pub start : Tasks
start = record { semaphore = record { flag = 0 }; inside = λ i. false }

-- The flag says whether a task is inside, and no two are.
pub record IsExclusive (s : Tasks) : Type 0 where
  pub free : s.semaphore.flag ≡ 0 → (i : ℕ) → s.inside i ≡ false
  pub taken : (i : ℕ) → s.inside i ≡ true → s.semaphore.flag ≡ 1
  pub one : (i j : ℕ) → s.inside i ≡ true → s.inside j ≡ true → i ≡ j

enter-IsExclusive :
    (i : ℕ) (s : Tasks)
    → IsExclusive s
    → s.semaphore.flag ≡ 0
    → IsExclusive (record { semaphore = record { flag = 1 }; inside = upd s.inside i true })
enter-IsExclusive i s h e = record {
  free = λ z j. absurd (omega (arith, z));
  taken = λ j z. refl;
  one = λ j k a b. ground (arith, h.free e j, h.free e k, a, b);
}

leave-IsExclusive :
    (i : ℕ) (s : Tasks)
    → IsExclusive s
    → s.inside i ≡ true
    → IsExclusive (record { semaphore = record { flag = 0 }; inside = upd s.inside i false })
leave-IsExclusive i s h e = record {
  free = λ z j. ground (arith, h.one i j, e, Bool-cases (s.inside j));
  taken = λ j a. ground (arith, h.one i j, e, a);
  one = λ j k a b. ground (arith, h.one j k, a, b);
}

step-IsExclusive : (a : ℕ × Move) (s : Tasks) → IsExclusive s → IsExclusive (step a s)
unfolding step try_enter post
step-IsExclusive (i, enter) s h = elim (Bool-cases (s.inside i)) [
  | inl e ↦ rw e h
  | inr e ↦ elim (Bool-cases (s.semaphore.flag == 0)) [
    | inl f ↦ rw (e, f) (enter-IsExclusive i s h ((==_iff _ _).0 f))
    | inr f ↦ rw (e, f) h
  ]
]
step-IsExclusive (i, leave) s h = elim (Bool-cases (s.inside i)) [
  | inl e ↦
      let f : (s.semaphore.flag == 1) ≡ true = ground (arith, h.taken i e) in
      rw (e, f) (leave-IsExclusive i s h e)
  | inr e ↦ rw e h
]

run-IsExclusive_from :
    (moves : List (ℕ × Move)) (s : Tasks) → IsExclusive s → IsExclusive (run moves s)
unfolding run
run-IsExclusive_from [] s h = h
run-IsExclusive_from (a ∷ rest) s h = run-IsExclusive_from rest (step a s) (step-IsExclusive a s h)

-- From a binary semaphore whose flag is 0, with any number of tasks that try to enter and post
-- when they are inside, in any order: no two tasks are inside at once, the flag is 1 while a task
-- is inside, and nobody is inside while the flag is 0.
pub section-IsExclusive : (moves : List (ℕ × Move)) → IsExclusive (run moves start)
section-IsExclusive moves =
    run-IsExclusive_from moves start
      (record { free = λ z i. refl; taken = λ i e. absurd cc; one = λ i j a b. absurd cc })
