-- ===== src/Sokoban/Tests.antt =====
-- Runs of the game of src/skout-sokoban.c, and the theorem about it at an input of its own.
use clubcos.Sokoban.{
  Game, Direction, left, right, move, move_onto, push, walk, push_box, stage_data, load_stage,
  find_man, find_man_row, find_man_at, test_stage_clear, rows_clear, row_clear,
}
use clubcos.Sokoban.Round.{
  KeySource, playing, play, play_on, round_step, finish_round, after_move, player_move_action,
  key_action, getch, arrow_action, on_direction, sokoban_start,
}
use clubcos.Sokoban.Walls.{IsSafe}
use clubcos.Sokoban.Safety.{play-IsSafe}
use clubcos.Prelude.{◌≡◌, refl, true, false, ◌||◌, none, some, [], ◌∷◌, ◌==◌, if◌then◌else◌}

abbrev two_rights : KeySource
two_rights = record { prev = none; keys = 168 ∷ 168 ∷ [] }

abbrev no_keys : KeySource
no_keys = record { prev = none; keys = [] }

-- A step to the right, and the box there pushed on.
abbrev pushed : Game
pushed = walk right (push_box 173 174 (walk right sokoban_start))

play_two : play 2 (playing sokoban_start two_rights) ≡ some (playing pushed no_keys)
unfolding play play_on round_step finish_round after_move player_move_action key_action getch
    arrow_action on_direction sokoban_start load_stage find_man find_man_row find_man_at stage_data
    move move_onto push test_stage_clear rows_clear row_clear
play_two = refl

play-IsSafe_example : IsSafe pushed × ((d : Direction) → (g' : Game) × (move d pushed ≡ some g'))
play-IsSafe_example = play-IsSafe 2 two_rights no_keys pushed play_two

-- A box with another one behind it, which does not stand on a goal: the player walks onto the box.
abbrev crowded : Game
crowded = record {
  stage = λ i. 79;
  round_num = 0;
  roundx = 6;
  roundy = 8;
  num_move = 0;
  on_restart = false;
}

move_onto_box : move left crowded ≡ some (walk left crowded)
unfolding move move_onto push stage_data
move_onto_box = refl

-- Two boxes in a row before a goal that already has one: one box less.
abbrev two_boxes : Game
two_boxes = record crowded { stage = λ i. if (i == 185) || (i == 186) then 79 else 32; roundx = 16 }

move_merges : move right two_boxes ≡ some (walk right (push_box 185 186 two_boxes))
unfolding move move_onto push stage_data
move_merges = refl

clear_start : (test_stage_clear sokoban_start ≡ false) × (test_stage_clear crowded ≡ true)
unfolding test_stage_clear rows_clear row_clear sokoban_start load_stage find_man find_man_row
    find_man_at stage_data
clear_start = (refl, refl)
