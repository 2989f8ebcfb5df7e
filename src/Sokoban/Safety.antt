-- ===== src/Sokoban/Safety.antt =====
-- The player of src/skout-sokoban.c stays off the walls, and no move leaves the array, through the
-- whole game.
use mathlib.Core.Path.{subst}
use clubcos.Sokoban.{Game, Direction, move, load_stage, test_stage_clear}
use clubcos.Sokoban.Round.{
  KeySource, Outcome, playing, exited, go_on, on_direction, direction_of, arrow_action, key_action,
  getch, player_move_action, after_move, finish_round, round_step, play, play_on, sokoban_start,
}
use clubcos.Sokoban.Walls.{IsSafe, load_stage-IsSafe}
use clubcos.Sokoban.Moves.{move-IsSafe}
use clubcos.Prelude.{
  ℕ, zero, suc, ◌+◌, ◌≡◌, refl, sym, inl, inr, Bool, true, false, ◌||◌, Option, none, some, arith,
  ltb, ◌==◌, if◌then◌else◌, ltb→lt, Bool-cases,
}

-- What holds of the game that an outcome has.
abbrev Holds : Option Outcome → Type 0
Holds none = ◌≡◌ {A = ℕ} 0 0
Holds (some exited) = ◌≡◌ {A = ℕ} 0 0
Holds (some (playing g k)) = IsSafe g

go_on-Holds :
    (k : KeySource) (g : Game) (o : Option Game) → o ≡ some g → IsSafe g → Holds (go_on k o)
go_on-Holds k g o e p = subst (λ z. Holds (go_on k z)) (sym e) p

on_direction-Holds :
    (g : Game) (k : KeySource) (o : Option Direction) → IsSafe g → Holds (on_direction g k o)
unfolding on_direction
on_direction-Holds g k none p = p
on_direction-Holds g k (some d) p =
    let (g', e, p') = move-IsSafe d g p in go_on-Holds k g' (move d g) e p'

arrow_action-Holds : (g : Game) (o : Option (ℕ × KeySource)) → IsSafe g → Holds (arrow_action g o)
unfolding arrow_action
arrow_action-Holds g none p = refl
arrow_action-Holds g (some (ch, k)) p = on_direction-Holds g k (direction_of ch) p

if-Holds :
    (b : Bool) (o o' : Outcome)
    → Holds (some o)
    → (b ≡ false → Holds (some o'))
    → Holds (some (if b then o else o'))
if-Holds true o o' h h' = h
if-Holds false o o' h h' = h' refl

-- A restart asked for leaves the player in place.
restart-IsSafe : (g : Game) (b : Bool) → IsSafe g → IsSafe (record g { on_restart = b })
restart-IsSafe g b p = record {
  round_in = p.round_in;
  walls = p.walls;
  column = p.column;
  inside = p.inside;
  free = p.free;
}

key_action-Holds : (g : Game) (o : Option (ℕ × KeySource)) → IsSafe g → Holds (key_action g o)
unfolding key_action
key_action-Holds g none p = refl
key_action-Holds g (some (ch, k)) p = elim (Bool-cases (ch == 27)) [
  | inl e ↦ rw e refl
  | inr n ↦ elim (Bool-cases ((ch == 114) || (ch == 82))) [
    | inl e ↦ rw (n, e) (restart-IsSafe g true p)
    | inr m ↦ elim (Bool-cases (ch == 224)) [
      | inl e ↦ rw (n, m, e) (arrow_action-Holds g (getch k) p)
      | inr l ↦ rw (n, m, l) p
    ]
  ]
]

next-Holds :
    (g : Game) (k : KeySource) (b : Bool)
    → ltb g.round_num 1 ≡ b
    → Holds (
        some
          (if b then playing (load_stage (record g { round_num = g.round_num + 1 })) k else exited))
next-Holds g k true first =
    load_stage-IsSafe (record g { round_num = g.round_num + 1 })
      (omega (arith, ltb→lt g.round_num 1 first))
next-Holds g k false last = refl

after_move-Holds : (o : Outcome) → Holds (some o) → Holds (some (after_move o))
unfolding after_move
after_move-Holds exited h = refl
after_move-Holds (playing g k) p =
    let restarted = load_stage (record g { on_restart = false }) in
    let next = load_stage (record g { round_num = g.round_num + 1 }) in
    let last = if ltb g.round_num 1 then playing next k else exited in
    let cleared = if test_stage_clear g then last else playing g k in
    if-Holds g.on_restart (playing restarted k) cleared
      (load_stage-IsSafe (record g { on_restart = false }) p.round_in)
      (λ n.
        if-Holds (test_stage_clear g) last (playing g k) (next-Holds g k (ltb g.round_num 1) refl)
          (λ m. p))

finish_round-Holds : (o : Option Outcome) → Holds o → Holds (finish_round o)
unfolding finish_round
finish_round-Holds none h = refl
finish_round-Holds (some o) h = after_move-Holds o h

play_on-Holds :
    (go : Outcome → Option Outcome) (o : Option Outcome)
    → ((o' : Outcome) → Holds (some o') → Holds (go o'))
    → Holds o
    → Holds (play_on go o)
unfolding play_on
play_on-Holds go none f h = refl
play_on-Holds go (some o) f h = f o h

play-Holds : (fuel : ℕ) (o : Outcome) → Holds (some o) → Holds (play fuel o)
unfolding play round_step player_move_action
play-Holds zero exited h = refl
play-Holds (suc fuel) exited h = refl
play-Holds zero (playing g k) p = p
play-Holds (suc fuel) (playing g k) p =
    play_on-Holds (play fuel) (round_step k g) (play-Holds fuel)
      (finish_round-Holds (player_move_action k g) (key_action-Holds g (getch k) p))

-- In every state that the game gets to from its start, by any keys: the round is one of the two,
-- the walls stand where the data of the stage has them, the player is on a cell that is no wall
-- and not in the outer rows and columns, and a move in any of the four directions reads and writes
-- inside the array of the stage only.
pub play-IsSafe :
    (fuel : ℕ) (k k' : KeySource) (g : Game)
    → play fuel (playing sokoban_start k) ≡ some (playing g k')
    → IsSafe g × ((d : Direction) → (g' : Game) × (move d g ≡ some g'))
unfolding load_stage sokoban_start
play-IsSafe fuel k k' g e =
    let start =
      load_stage-IsSafe
        (record {
          stage = λ i. 0;
          round_num = 0;
          roundx = 0;
          roundy = 0;
          num_move = 0;
          on_restart = false;
        })
        (omega arith) in
    let safe : IsSafe g = subst Holds e (play-Holds fuel (playing sokoban_start k) start) in
    (safe, λ d. let (g', e', p') = move-IsSafe d g safe in (g', e'))
