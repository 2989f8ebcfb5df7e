-- ===== src/Sokoban.antt =====
-- The game of src/skout-sokoban.c: its stages, the keys, the moves and the test for the end of a
-- stage. The stage is the 18 by 21 bytes of the array, a cell is its index; `none` is a read or a
-- write outside the array, or a key that has not come yet.
pub mod Round
pub mod Walls
pub mod Moves
pub mod Safety
mod Tests
use clubcos.Prelude.{
  ℕ, zero, suc, ◌+◌, ◌-◌, ◌*◌, ◌/◌, ◌%◌, ◌^◌, ◌≤◌, ◌<◌, ◌≡◌, refl, sym, ap, ◌∙◌, ◌≢◌, ◌↔◌, ◌⊎◌, inl,
  inr, Bool, true, false, not, ◌&&◌, ◌||◌, Option, none, some, List, [], ◌∷◌, ◌++◌, map, arith, ltb,
  leb, ◌==◌, if◌then◌else◌, ltb→lt, lt→ltb, leb→le, ==_iff, tests, Bool-cases, Option-cases, length,
  get_elem?, set, get_or, take, drop, replicate, length-append, length-set, get_elem?-set_self,
  get_elem?-set_ne, take-append-drop, length-take, length-drop, length-replicate, length-map,
  get_or-set_self, get_or-set_ne, u8_mod, u16_mod, u32_mod, add32, sub32, Store, upd, has, Distinct,
  has-append, Distinct-snoc, Distinct-drop, Distinct-remove, has_same, Distinct-gone, all_below,
  all_below_sound, lt→ne, ne→false, sub16,
}

-- The characters of a stage: `#`, blank, `O`, `.` and `@`.
abbrev pub wall : ℕ
wall = 35

abbrev pub floor : ℕ
floor = 32

abbrev pub box : ℕ
box = 79

abbrev pub goal : ℕ
goal = 46

abbrev pub man : ℕ
man = 64

abbrev solid : List ℕ
solid = replicate 21 35

abbrev first_stage : List ℕ
first_stage =
    solid
    ++ solid
    ++ solid
    ++ solid
    ++ solid
    ++ solid
    ++ solid
    ++ (35 ∷ 35 ∷ 32 ∷ 32 ∷ 32 ∷ 79 ∷ 32 ∷ 32 ∷ 32 ∷ 32 ∷ 32 ∷ 32 ∷ 32 ∷ 32 ∷ 32 ∷ 32 ∷ 32 ∷ 32 ∷ 46
        ∷ 35 ∷ 35 ∷ [])
    ++ (35 ∷ 35 ∷ 32 ∷ 64 ∷ 32 ∷ 79 ∷ 32 ∷ 32 ∷ 32 ∷ 32 ∷ 32 ∷ 32 ∷ 32 ∷ 32 ∷ 32 ∷ 32 ∷ 32 ∷ 32 ∷ 46
        ∷ 35 ∷ 35 ∷ [])
    ++ (35 ∷ 35 ∷ 32 ∷ 32 ∷ 32 ∷ 79 ∷ 32 ∷ 32 ∷ 32 ∷ 32 ∷ 32 ∷ 32 ∷ 32 ∷ 32 ∷ 32 ∷ 32 ∷ 32 ∷ 32 ∷ 46
        ∷ 35 ∷ 35 ∷ [])
    ++ solid
    ++ solid
    ++ solid
    ++ solid
    ++ solid
    ++ solid
    ++ solid
    ++ solid

-- The source gives 17 rows, so that the last one is zero.
abbrev second_stage : List ℕ
second_stage =
    solid
    ++ solid
    ++ solid
    ++ solid
    ++ solid
    ++ (35 ∷ 35 ∷ 35 ∷ 35 ∷ 35 ∷ 35 ∷ 35 ∷ 35 ∷ 35 ∷ 35 ∷ 46 ∷ 35 ∷ 35 ∷ 35 ∷ 35 ∷ 35 ∷ 35 ∷ 35 ∷ 35
        ∷ 35 ∷ 35 ∷ [])
    ++ (35 ∷ 35 ∷ 35 ∷ 35 ∷ 35 ∷ 35 ∷ 35 ∷ 35 ∷ 35 ∷ 35 ∷ 32 ∷ 35 ∷ 35 ∷ 35 ∷ 35 ∷ 35 ∷ 35 ∷ 35 ∷ 35
        ∷ 35 ∷ 35 ∷ [])
    ++ (35 ∷ 35 ∷ 35 ∷ 35 ∷ 35 ∷ 35 ∷ 35 ∷ 35 ∷ 35 ∷ 35 ∷ 79 ∷ 64 ∷ 79 ∷ 46 ∷ 35 ∷ 35 ∷ 35 ∷ 35 ∷ 35
        ∷ 35 ∷ 35 ∷ [])
    ++ (35 ∷ 35 ∷ 35 ∷ 35 ∷ 35 ∷ 35 ∷ 35 ∷ 46 ∷ 32 ∷ 32 ∷ 79 ∷ 79 ∷ 32 ∷ 35 ∷ 35 ∷ 35 ∷ 35 ∷ 35 ∷ 35
        ∷ 35 ∷ 35 ∷ [])
    ++ (35 ∷ 35 ∷ 35 ∷ 35 ∷ 35 ∷ 35 ∷ 35 ∷ 35 ∷ 35 ∷ 35 ∷ 35 ∷ 32 ∷ 35 ∷ 35 ∷ 35 ∷ 35 ∷ 35 ∷ 35 ∷ 35
        ∷ 35 ∷ 35 ∷ [])
    ++ (35 ∷ 35 ∷ 35 ∷ 35 ∷ 35 ∷ 35 ∷ 35 ∷ 35 ∷ 35 ∷ 35 ∷ 35 ∷ 46 ∷ 35 ∷ 35 ∷ 35 ∷ 35 ∷ 35 ∷ 35 ∷ 35
        ∷ 35 ∷ 35 ∷ [])
    ++ solid
    ++ solid
    ++ solid
    ++ solid
    ++ solid
    ++ solid
    ++ replicate 21 0

unfoldable pub stage_data : ℕ → ℕ → ℕ
stage_data round i = if round == 0 then get_or first_stage i 0 else get_or second_stage i 0

pub record Game : Type 0 where
  pub stage : ℕ → ℕ
  pub round_num : ℕ
  pub roundx : ℕ
  pub roundy : ℕ
  pub num_move : ℕ
  pub on_restart : Bool

abbrev pub place : Game → ℕ
place g = g.roundy * 21 + g.roundx

-- One cell of the loops over the stage that look for the player.
unfoldable pub find_man_at : ℕ → ℕ → Game → Game
find_man_at y x g =
    if g.stage (y * 21 + x) == man
    then record g { roundx = x; roundy = y; stage = upd g.stage (y * 21 + x) floor }
    else g

unfoldable pub find_man_row : ℕ → ℕ → Game → Game
unfolding find_man_at
find_man_row y zero g = g
find_man_row y (suc k) g = find_man_at y k (find_man_row y k g)

unfoldable pub find_man : ℕ → Game → Game
unfolding find_man_row
find_man zero g = g
find_man (suc k) g = find_man_row k 20 (find_man k g)

-- The start of a round.
unfoldable pub load_stage : Game → Game
unfolding find_man stage_data
load_stage g = record (find_man 18 (record g { stage = stage_data g.round_num })) { num_move = 0 }

pub data Direction : Type 0 where
  left : Direction
  right : Direction
  up : Direction
  down : Direction

-- The cell beside another one.
abbrev pub beside : Direction → ℕ → Option ℕ
beside left i = if i == 0 then none else some (i - 1)
beside right i = if leb 377 i then none else some (i + 1)
beside up i = if ltb i 21 then none else some (i - 21)
beside down i = if leb 357 i then none else some (i + 21)

abbrev pub walk : Direction → Game → Game
walk left g = record g { roundx = g.roundx - 1; num_move = g.num_move + 1 }
walk right g = record g { roundx = g.roundx + 1; num_move = g.num_move + 1 }
walk up g = record g { roundy = g.roundy - 1; num_move = g.num_move + 1 }
walk down g = record g { roundy = g.roundy + 1; num_move = g.num_move + 1 }

-- The box at `i` to `j`.
abbrev pub push_box : ℕ → ℕ → Game → Game
push_box i j g = record g { stage = upd (upd g.stage i floor) j box }

-- In front of a box: `j` is the cell behind it.
unfoldable pub push : Direction → ℕ → ℕ → Game → Game
unfolding stage_data
push d i j g =
    if g.stage j == floor
    then walk d (push_box i j g)
    else if stage_data g.round_num j == goal
    then walk d (push_box i j g)
    else if g.stage j == wall
    then g
    else walk d g

unfoldable pub move_onto : Direction → ℕ → Game → Option Game
unfolding push
move_onto d i g =
    if g.stage i == wall
    then some g
    else if g.stage i == box
    then elim (beside d i) [ none ↦ none | some j ↦ some (push d i j g) ]
    else some (walk d g)

unfoldable pub move : Direction → Game → Option Game
unfolding move_onto
move d g = elim (beside d (place g)) [ none ↦ none | some i ↦ move_onto d i g ]

-- Over the first `k` cells of a row, and over the first `k` rows.
unfoldable pub row_clear : Game → ℕ → ℕ → Bool
unfolding stage_data
row_clear g y zero = true
row_clear g y (suc k) =
    let rest = row_clear g y k in
    let i : ℕ = y * 21 + k in
    rest && not ((stage_data g.round_num i == goal) && not (g.stage i == box))

unfoldable pub rows_clear : Game → ℕ → Bool
unfolding row_clear
rows_clear g zero = true
rows_clear g (suc k) = let rest = rows_clear g k in rest && row_clear g k 20

unfoldable pub test_stage_clear : Game → Bool
unfolding rows_clear
test_stage_clear g = rows_clear g 18
