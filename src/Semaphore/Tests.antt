-- ===== src/Semaphore/Tests.antt =====
-- Two tasks at the binary semaphore of src/binary_semaphore.c.
use clubcos.Semaphore.{try_enter, post}
use clubcos.Semaphore.Section.{
  Move, enter, leave, step, run, start, IsExclusive, section-IsExclusive,
}
use clubcos.Prelude.{ℕ, ◌≡◌, refl, true, List, [], ◌∷◌}

abbrev moves : List (ℕ × Move)
moves = (1, enter) ∷ (2, enter) ∷ (1, leave) ∷ (2, enter) ∷ []

section-IsExclusive_example : IsExclusive (run moves start)
section-IsExclusive_example = section-IsExclusive moves

second_inside : (run moves start).inside 2 ≡ true
unfolding run step try_enter post
second_inside = refl
