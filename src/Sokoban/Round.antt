-- ===== src/Sokoban/Round.antt =====
-- The keys of the game of src/skout-sokoban.c and its main loop. `none` is a key that has not come
-- yet, or what a move has it for.
use clubcos.Sokoban.{Game, Direction, left, right, up, down, move, load_stage, test_stage_clear}
use clubcos.Prelude.{
  ℕ, zero, suc, ◌+◌, true, false, ◌||◌, Option, none, some, List, [], ◌∷◌, ltb, ◌==◌, if◌then◌else◌,
}

-- `prev` and the keys that the terminal will give.
pub record KeySource : Type 0 where
  pub prev : Option ℕ
  pub keys : List ℕ

abbrev from_keypad : ℕ → ℕ
from_keypad cascii =
    if cascii == 148
    then 165
    else if cascii == 154
    then 170
    else if cascii == 150
    then 167
    else if cascii == 152
    then 168
    else cascii

abbrev next_key : List ℕ → Option (ℕ × KeySource)
next_key [] = none
next_key (cascii ∷ keys) =
    if ltb cascii 128
    then some (cascii, record { prev = none; keys = keys })
    else some (224, record { prev = some cascii; keys = keys })

unfoldable pub getch : KeySource → Option (ℕ × KeySource)
getch k = elim (k.prev) [
  | some cascii ↦ some (from_keypad cascii, record k { prev = none })
  | none ↦ next_key k.keys
]

-- What a key leads to: the game goes on, or the task exits.
pub data Outcome : Type 0 where
  playing : Game → KeySource → Outcome
  exited : Outcome

abbrev pub direction_of : ℕ → Option Direction
direction_of ch =
    if ch == 167
    then some left
    else if ch == 168
    then some right
    else if ch == 165
    then some up
    else if ch == 170
    then some down
    else none

abbrev pub go_on : KeySource → Option Game → Option Outcome
go_on k none = none
go_on k (some g) = some (playing g k)

unfoldable pub on_direction : Game → KeySource → Option Direction → Option Outcome
unfolding move
on_direction g k none = some (playing g k)
on_direction g k (some d) = go_on k (move d g)

unfoldable pub arrow_action : Game → Option (ℕ × KeySource) → Option Outcome
unfolding on_direction
arrow_action g none = none
arrow_action g (some (ch, k)) = on_direction g k (direction_of ch)

unfoldable pub key_action : Game → Option (ℕ × KeySource) → Option Outcome
unfolding arrow_action getch
key_action g none = none
key_action g (some (ch, k)) =
    if ch == 27
    then some exited
    else if (ch == 114) || (ch == 82)
    then some (playing (record g { on_restart = true }) k)
    else if ch == 224
    then arrow_action g (getch k)
    else some (playing g k)

unfoldable pub player_move_action : KeySource → Game → Option Outcome
unfolding key_action getch
player_move_action k g = key_action g (getch k)

-- The main loop behind the key: a stage that is over is followed by the next one, when the enter key
-- has been hit.
unfoldable pub after_move : Outcome → Outcome
unfolding load_stage test_stage_clear
after_move exited = exited
after_move (playing g k) =
    if g.on_restart
    then playing (load_stage (record g { on_restart = false })) k
    else if test_stage_clear g
    then if ltb g.round_num 1
      then playing (load_stage (record g { round_num = g.round_num + 1 })) k
      else exited
    else playing g k

unfoldable pub finish_round : Option Outcome → Option Outcome
unfolding after_move
finish_round none = none
finish_round (some o) = some (after_move o)

unfoldable pub round_step : KeySource → Game → Option Outcome
unfolding player_move_action finish_round
round_step k g = finish_round (player_move_action k g)

-- The rest of the game once a round is over.
unfoldable pub play_on : (Outcome → Option Outcome) → Option Outcome → Option Outcome
play_on go none = none
play_on go (some o) = go o

-- The game for at most as many rounds as there is fuel.
unfoldable pub play : ℕ → Outcome → Option Outcome
unfolding round_step play_on
play fuel exited = some exited
play zero (playing g k) = some (playing g k)
play (suc fuel) (playing g k) = play_on (play fuel) (round_step k g)

unfoldable pub sokoban_start : Game
unfolding load_stage
sokoban_start = load_stage (record {
  stage = λ i. 0;
  round_num = 0;
  roundx = 0;
  roundy = 0;
  num_move = 0;
  on_restart = false;
})
