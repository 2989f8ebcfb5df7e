-- ===== src/Array/Tests.antt =====
-- A byte array of three bytes with room for four, for src/array.c.
use clubcos.Array.{memcpy, Array8, append, remove}
use clubcos.Array.Removal.{remove-contents}
use clubcos.Array.Cells.{cells}
use clubcos.Array.Edit.{IsArray, contents}
use clubcos.Prelude.{ℕ, ◌≡◌, refl, ◌⊎◌, Bool, true, false, none, some, List, [], ◌∷◌, arith, has}

abbrev three : Array8
three = record { mem = λ q. q; buf = 16; now = 19; end = 20 }

three-IsArray : IsArray three
three-IsArray = record { start = omega arith; inside = omega arith }

appended : contents (append three 40 42) ≡ 16 ∷ 17 ∷ 18 ∷ 40 ∷ []
unfolding append cells memcpy
appended = refl

remove-contents_example :
    ((◌≡◌ {A = Bool} true true)
      × (◌≡◌ {A = List ℕ} (16 ∷ 17 ∷ 18 ∷ []) [])
      × (remove true 17 three ≡ none))
    ⊎ ((has 17 (16 ∷ 17 ∷ 18 ∷ []) ≡ false) × (remove true 17 three ≡ some (none, three)))
    ⊎ ((ptr : ℕ) × (a' : Array8) × (has 17 (16 ∷ 17 ∷ 18 ∷ []) ≡ true)
        × (remove true 17 three ≡ some (some ptr, a'))
        × IsArray a'
        × (contents a' ≡ 16 ∷ 18 ∷ []))
unfolding cells
remove-contents_example = remove-contents three three-IsArray true 17 (omega arith) (omega arith)
