-- ===== src/Sokoban/Walls.antt =====
-- The walls of the stages of src/skout-sokoban.c, and what the start of a round makes of them.
use clubcos.Sokoban.{
  Game, stage_data, find_man_at, find_man_row, find_man, load_stage, place, wall, floor, man,
}
use clubcos.Prelude.{
  ℕ, zero, suc, ◌+◌, ◌*◌, ◌%◌, ◌<◌, ◌≡◌, refl, sym, ap, ◌∙◌, inl, inr, Bool, true, false, ◌&&◌,
  ◌||◌, arith, ltb, leb, ◌==◌, ==_iff, Bool-cases, upd, all_below, all_below_sound,
}

-- A cell inside the rows and columns that all stages have walls around.
abbrev pub inner : ℕ → Bool
inner i = (leb 42 i && ltb i 336) && (leb 1 (i % 21) && leb (i % 21) 19)

abbrev framed : ℕ → ℕ → Bool
framed round i = (stage_data round i == 35) || inner i

first-framed : all_below 357 (framed 0) ≡ true
unfolding all_below stage_data
first-framed = refl

second-framed : all_below 357 (framed 1) ≡ true
unfolding all_below stage_data
second-framed = refl

framed-or : (a b : Bool) → (a || b) ≡ true → a ≡ false → b ≡ true
framed-or true b h e = ground arith
framed-or false b h e = h

-- In the rows above the last every cell that is no wall is an inner one.
pub open-inner :
    (round i : ℕ) → round < 2 → i < 357 → (stage_data round i == wall) ≡ false → inner i ≡ true
open-inner zero i r lt e =
    framed-or (stage_data 0 i == 35) (inner i) (all_below_sound 357 (framed 0) i first-framed lt) e
open-inner (suc zero) i r lt e =
    framed-or (stage_data 1 i == 35) (inner i) (all_below_sound 357 (framed 1) i second-framed lt) e
open-inner (suc (suc n)) i r lt e = absurd (omega arith)

-- Two games on the same round whose walls stand on the same cells.
pub record SameWalls (g g' : Game) : Type 0 where
  pub same_round : g'.round_num ≡ g.round_num
  pub same_walls : (i : ℕ) → (g'.stage i == wall) ≡ (g.stage i == wall)

pub SameWalls-refl : (g : Game) → SameWalls g g
SameWalls-refl g = record { same_round = refl; same_walls = λ i. refl }

pub SameWalls-trans : (a b c : Game) → SameWalls a b → SameWalls b c → SameWalls a c
SameWalls-trans a b c p q = record {
  same_round = q.same_round ∙ p.same_round;
  same_walls = λ i. q.same_walls i ∙ p.same_walls i;
}

-- A cell that is no wall and gets what is no wall.
pub upd-walls :
    (stage : ℕ → ℕ) (p v : ℕ)
    → (stage p == wall) ≡ false
    → (v == wall) ≡ false
    → (i : ℕ) → (upd stage p v i == wall) ≡ (stage i == wall)
upd-walls stage p v e f i = elim (Bool-cases (p == i)) [
  | inl here ↦
      let at : p ≡ i = (==_iff p i).0 here in rw here (f ∙ sym e ∙ ap (λ q. stage q == wall) at)
  | inr other ↦ rw other refl
]

find_man_at-walls : (y x : ℕ) (g : Game) → SameWalls g (find_man_at y x g)
unfolding find_man_at
find_man_at-walls y x g = elim (Bool-cases (g.stage (y * 21 + x) == man)) [
  | inl here ↦
      let at : g.stage (y * 21 + x) ≡ 64 = (==_iff (g.stage (y * 21 + x)) 64).0 here in
      rw here (record {
        same_round = refl;
        same_walls = upd-walls g.stage (y * 21 + x) floor (ap (λ v. v == wall) at) refl;
      })
  | inr other ↦ rw other (SameWalls-refl g)
]

find_man_row-walls : (y k : ℕ) (g : Game) → SameWalls g (find_man_row y k g)
unfolding find_man_row
find_man_row-walls y zero g = SameWalls-refl g
find_man_row-walls y (suc k) g =
    SameWalls-trans g (find_man_row y k g) (find_man_at y k (find_man_row y k g))
      (find_man_row-walls y k g) (find_man_at-walls y k (find_man_row y k g))

find_man-walls : (k : ℕ) (g : Game) → SameWalls g (find_man k g)
unfolding find_man
find_man-walls zero g = SameWalls-refl g
find_man-walls (suc k) g =
    SameWalls-trans g (find_man k g) (find_man_row k 20 (find_man k g)) (find_man-walls k g)
      (find_man_row-walls k 20 (find_man k g))

-- The player of a game stands on an inner cell that is no wall, and the walls are the stage's.
pub record IsSafe (g : Game) : Type 0 where
  pub round_in : g.round_num < 2
  pub walls : (i : ℕ) → (g.stage i == wall) ≡ (stage_data g.round_num i == wall)
  pub column : g.roundx < 21
  pub inside : inner (place g) ≡ true
  pub free : (g.stage (place g) == wall) ≡ false

abbrev at_round : ℕ → Game → Game
at_round r g = record g { round_num = r }

loaded : (r : ℕ) (g : Game) → r < 2 → IsSafe (load_stage (at_round r g))
unfolding load_stage find_man find_man_row find_man_at stage_data
loaded zero g lt =
    let w = find_man-walls 18 (record g { stage = stage_data 0; round_num = 0 }) in
    record {
      round_in = omega (arith, w.same_round);
      walls = λ i. w.same_walls i;
      column = omega arith;
      inside = refl;
      free = refl;
    }
loaded (suc zero) g lt =
    let w = find_man-walls 18 (record g { stage = stage_data 1; round_num = 1 }) in
    record {
      round_in = omega (arith, w.same_round);
      walls = λ i. w.same_walls i;
      column = omega arith;
      inside = refl;
      free = refl;
    }
loaded (suc (suc r)) g lt = absurd (omega arith)

pub load_stage-IsSafe : (g : Game) → g.round_num < 2 → IsSafe (load_stage g)
load_stage-IsSafe g lt = loaded g.round_num g lt
