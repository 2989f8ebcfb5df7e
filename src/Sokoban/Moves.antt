-- ===== src/Sokoban/Moves.antt =====
-- The moves of src/skout-sokoban.c keep the player off the walls and inside the array.
use clubcos.Sokoban.{
  Game, Direction, left, right, up, down, beside, walk, push_box, push, move_onto, move, place,
  wall, floor, box, goal, stage_data,
}
use clubcos.Sokoban.Walls.{inner, open-inner, upd-walls, IsSafe}
use clubcos.Prelude.{
  ℕ, ◌+◌, ◌-◌, ◌*◌, ◌%◌, ◌≤◌, ◌<◌, ◌≡◌, refl, sym, ap, ◌∙◌, inl, inr, true, false, Option, none,
  some, arith, ◌==◌, Bool-cases, upd,
}

remainder : (y x : ℕ) → x < 21 → (y * 21 + x) % 21 ≡ x
remainder y x lt = ground arith

inner-bounds : (i : ℕ) → inner i ≡ true → (42 ≤ i) × (i < 336) × (1 ≤ i % 21) × (i % 21 ≤ 19)
inner-bounds i h = ground arith

-- A step from an inner cell stays in the rows above the last.
beside-inner :
    (d : Direction) (i : ℕ)
    → 42 ≤ i
    → i < 336
    → (j : ℕ) × (beside d i ≡ some j) × (21 ≤ j) × (j < 357)
beside-inner left i low high = (i - 1, ground arith, omega arith, omega arith)
beside-inner right i low high = (i + 1, ground arith, omega arith, omega arith)
beside-inner up i low high = (i - 21, ground arith, omega arith, omega arith)
beside-inner down i low high = (i + 21, ground arith, omega arith, omega arith)

walk-place :
    (d : Direction) (g : Game)
    → g.roundx < 21
    → inner (place g) ≡ true
    → (j : ℕ) × (beside d (place g) ≡ some j)
      × (21 ≤ j)
      × (j < 357)
      × (place (walk d g) ≡ j)
      × ((walk d g).roundx < 21)
      × ((walk d g).round_num ≡ g.round_num)
      × ((walk d g).stage ≡ g.stage)
walk-place left g column inside =
    let (low, high, first, last) = inner-bounds (place g) inside in
    let x = remainder g.roundy g.roundx column in
    let (j, e, l, h) = beside-inner left (place g) low high in
    (
      place g - 1,
      ground (arith, low),
      omega (arith, low),
      omega (arith, high),
      omega (arith, x, first),
      omega (arith, column),
      refl,
      refl,
    )
walk-place right g column inside =
    let (low, high, first, last) = inner-bounds (place g) inside in
    let x = remainder g.roundy g.roundx column in
    (
      place g + 1,
      ground (arith, high),
      omega (arith, low),
      omega (arith, high),
      omega arith,
      omega (arith, x, last),
      refl,
      refl,
    )
walk-place up g column inside =
    let (low, high, first, last) = inner-bounds (place g) inside in
    (
      place g - 21,
      ground (arith, low),
      omega (arith, low),
      omega (arith, high),
      omega (arith, low, column),
      column,
      refl,
      refl,
    )
walk-place down g column inside =
    let (low, high, first, last) = inner-bounds (place g) inside in
    (
      place g + 21,
      ground (arith, high),
      omega (arith, low),
      omega (arith, high),
      omega arith,
      column,
      refl,
      refl,
    )

index_of : ℕ → Option ℕ → ℕ
index_of a none = a
index_of a (some b) = b

pub record IsWalled (g : Game) : Type 0 where
  pub round_in : g.round_num < 2
  pub walls : (i : ℕ) → (g.stage i == wall) ≡ (stage_data g.round_num i == wall)

IsWalled-inner :
    (g : Game) (i : ℕ) → IsWalled g → i < 357 → (g.stage i == wall) ≡ false → inner i ≡ true
IsWalled-inner g i w lt e = open-inner g.round_num i w.round_in lt (sym (w.walls i) ∙ e)

walk-IsSafe :
    (d : Direction) (g : Game) (i : ℕ)
    → IsWalled g
    → g.roundx < 21
    → inner (place g) ≡ true
    → beside d (place g) ≡ some i
    → (g.stage i == wall) ≡ false
    → IsSafe (walk d g)
unfolding index_of
walk-IsSafe d g i w column inside at clear =
    let (j, e, low, high, there, column', round, stage) = walk-place d g column inside in
    let same : i ≡ j = ap (index_of 0) (sym at ∙ e) in
    let here : place (walk d g) ≡ i = there ∙ sym same in
    record {
      round_in = omega (arith, round, w.round_in);
      walls = λ q.
          ap (λ f. f q == wall) stage ∙ w.walls q ∙ ap (λ r. stage_data r q == wall) (sym round);
      column = column';
      inside = ap inner here ∙ IsWalled-inner g i w (omega (arith, same, high)) clear;
      free =
          ap (λ f. f (place (walk d g)) == wall) stage ∙ ap (λ q. g.stage q == wall) here ∙ clear;
    }

-- A box moved from one cell that is no wall to another.
push_box-IsWalled :
    (i j : ℕ) (g : Game)
    → IsWalled g
    → (g.stage i == wall) ≡ false
    → (g.stage j == wall) ≡ false
    → IsWalled (push_box i j g) × (((push_box i j g).stage i == wall) ≡ false)
push_box-IsWalled i j g w clear behind =
    let once = upd-walls g.stage i floor clear refl in
    let twice = upd-walls (upd g.stage i floor) j box (once j ∙ behind) refl in
    (
      record { round_in = w.round_in; walls = λ q. twice q ∙ once q ∙ w.walls q },
      twice i ∙ once i ∙ clear,
    )

no-wall : (v c : ℕ) → (v == c) ≡ true → (c == 35) ≡ false → (v == 35) ≡ false
no-wall v c e f = ground arith

push-IsSafe :
    (d : Direction) (i j : ℕ) (g : Game)
    → IsSafe g
    → beside d (place g) ≡ some i
    → (g.stage i == wall) ≡ false
    → IsSafe (push d i j g)
unfolding push
push-IsSafe d i j g p at clear =
    let w : IsWalled g = record { round_in = p.round_in; walls = p.walls } in
    elim (Bool-cases (g.stage j == floor)) [
      | inl blank ↦
          let behind : (g.stage j == wall) ≡ false = no-wall (g.stage j) floor blank refl in
          let (w', clear') = push_box-IsWalled i j g w clear behind in
          rw blank (walk-IsSafe d (push_box i j g) i w' p.column p.inside at clear')
      | inr other ↦ elim (Bool-cases (stage_data g.round_num j == goal)) [
        | inl end ↦
            let data_open : (stage_data g.round_num j == wall) ≡ false =
              no-wall (stage_data g.round_num j) goal end refl in
            let (w', clear') = push_box-IsWalled i j g w clear (w.walls j ∙ data_open) in
            rw (other, end) (walk-IsSafe d (push_box i j g) i w' p.column p.inside at clear')
        | inr no_end ↦ elim (Bool-cases (g.stage j == wall)) [
          | inl blocked ↦ rw (other, no_end, blocked) p
          | inr in_box ↦ rw (other, no_end, in_box) (walk-IsSafe d g i w p.column p.inside at clear)
        ]
      ]
    ]

move_onto-IsSafe :
    (d : Direction) (i : ℕ) (g : Game)
    → IsSafe g
    → beside d (place g) ≡ some i
    → i < 357
    → (g' : Game) × (move_onto d i g ≡ some g') × IsSafe g'
unfolding move_onto
move_onto-IsSafe d i g p at lt =
    let w : IsWalled g = record { round_in = p.round_in; walls = p.walls } in
    elim (Bool-cases (g.stage i == wall)) [
      | inl blocked ↦ (g, rw blocked refl, p)
      | inr clear ↦ elim (Bool-cases (g.stage i == box)) [
        | inr no_box ↦
            (walk d g, rw (clear, no_box) refl, walk-IsSafe d g i w p.column p.inside at clear)
        | inl in_box ↦
            let (low, high, first, last) = inner-bounds i (IsWalled-inner g i w lt clear) in
            let (j, e, from, to) = beside-inner d i low high in
            (push d i j g, rw (clear, in_box, e) refl, push-IsSafe d i j g p at clear)
      ]
    ]

-- A move reads and writes inside the array only.
pub move-IsSafe :
    (d : Direction) (g : Game) → IsSafe g → (g' : Game) × (move d g ≡ some g') × IsSafe g'
unfolding move
move-IsSafe d g p =
    let (j, e, low, high, there, column, round, stage) = walk-place d g p.column p.inside in
    let (g', e', p') = move_onto-IsSafe d j g p e high in (g', rw (e, move) e', p')
