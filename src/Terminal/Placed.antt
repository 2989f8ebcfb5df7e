-- ===== src/Terminal/Placed.antt =====
-- The cursor and the end of the text stay on the screen of src/terminal.c.
use clubcos.Terminal.{
  Terminal, cursor, end, update_cursor_unsafe, scroll_screen, new_line, next_row, next_column,
  insert_cell, scrolled_up, add_char, put_char_unsafe,
}
use clubcos.Terminal.Print.{print_string_unsafe, print_rest}
use mathlib.Core.Path.{subst}
use clubcos.Prelude.{
  ℕ, zero, suc, ◌+◌, ◌-◌, ◌*◌, ◌%◌, ◌^◌, ◌≤◌, ◌<◌, ◌≡◌, refl, sym, ap, ◌∙◌, ◌≢◌, inl, inr, Bool,
  true, false, ◌&&◌, some, arith, ◌==◌, if◌then◌else◌, Bool-cases, sub16,
}

pub record IsPlaced (t : Terminal) : Type 0 where
  pub cursor_row_in : t.cursor_row < 24
  pub cursor_column_in : t.cursor_column < 80
  pub end_row_in : t.end_row < 24
  pub end_column_in : t.end_column < 80
  pub ordered : cursor t ≤ end t

-- One step to the right inside the screen.
pub next-cell :
    (r c : ℕ)
    → c < 80
    → r < 65535
    → (next_row r c * 80 + next_column c ≡ r * 80 + c + 1) × (next_column c < 80)
next-cell r c h g = elim (Bool-cases (c + 1 == 80)) [ inl e ↦ ground arith | inr e ↦ ground arith ]

pub next_row-below : (r c : ℕ) → c < 80 → r * 80 + c < 1919 → next_row r c < 24
next_row-below r c h g = elim (Bool-cases (c + 1 == 80)) [
  | inl e ↦ ground arith
  | inr e ↦ ground arith
]

new_line-IsPlaced : (t : Terminal) → t.end_row < 24 → IsPlaced (new_line t)
unfolding new_line scroll_screen update_cursor_unsafe
new_line-IsPlaced t h = elim (Bool-cases ((t.end_row + 1) % 2 ^ 16 == 24)) [
  | inl e ↦ rw e (record {
    cursor_row_in = ground arith;
    cursor_column_in = omega arith;
    end_row_in = ground arith;
    end_column_in = omega arith;
    ordered = omega arith;
  })
  | inr e ↦ rw e (record {
    cursor_row_in = ground arith;
    cursor_column_in = omega arith;
    end_row_in = ground arith;
    end_column_in = omega arith;
    ordered = omega arith;
  })
]

pub insert_cell-IsPlaced :
    (c : ℕ) (t : Terminal) → IsPlaced t → end t < 1919 → IsPlaced (insert_cell c t)
unfolding insert_cell
insert_cell-IsPlaced c t p room =
    let at =
      next-cell t.cursor_row t.cursor_column p.cursor_column_in (omega (arith, p.cursor_row_in)) in
    let behind = next-cell t.end_row t.end_column p.end_column_in (omega (arith, p.end_row_in)) in
    record {
      cursor_row_in =
          next_row-below t.cursor_row t.cursor_column p.cursor_column_in
            (omega (arith, p.ordered, room));
      cursor_column_in = at.1;
      end_row_in = next_row-below t.end_row t.end_column p.end_column_in room;
      end_column_in = behind.1;
      ordered = omega (arith, at.0, behind.0, p.ordered);
    }

pub scrolled_up-IsPlaced :
    (t : Terminal)
    → IsPlaced t
    → 0 < t.cursor_row
    → t.end_row ≡ 23
    → IsPlaced (scrolled_up t) × (end (scrolled_up t) < 1919)
unfolding scrolled_up scroll_screen
scrolled_up-IsPlaced t p above e =
    let row : sub16 t.cursor_row 1 ≡ t.cursor_row - 1 = ground (arith, p.cursor_row_in) in
    let last : sub16 t.end_row 1 ≡ t.end_row - 1 = ground (arith, p.end_row_in) in
    (
      record {
        cursor_row_in = omega (arith, row, p.cursor_row_in);
        cursor_column_in = p.cursor_column_in;
        end_row_in = omega (arith, last, p.end_row_in);
        end_column_in = p.end_column_in;
        ordered = omega (arith, row, last, p.ordered);
      },
      omega (arith, last, p.end_row_in, p.end_column_in),
    )

pub update-IsPlaced : (t : Terminal) → IsPlaced t → IsPlaced (update_cursor_unsafe t)
unfolding update_cursor_unsafe
update-IsPlaced t p = record {
  cursor_row_in = p.cursor_row_in;
  cursor_column_in = p.cursor_column_in;
  end_row_in = p.end_row_in;
  end_column_in = p.end_column_in;
  ordered = p.ordered;
}

add_char-IsPlaced : (c : ℕ) (t : Terminal) → IsPlaced t → IsPlaced (add_char c t).1
unfolding add_char
add_char-IsPlaced c t p = elim (Bool-cases ((t.end_row == 23) && (t.end_column == 79))) [
  | inl full ↦ elim (Bool-cases (t.cursor_row == 0)) [
    | inl top ↦ rw (full, top) (update-IsPlaced t p)
    | inr below ↦
        let up = scrolled_up-IsPlaced t p (ground arith) (ground arith) in
        rw (full, below)
          (update-IsPlaced (insert_cell c (scrolled_up t))
            (insert_cell-IsPlaced c (scrolled_up t) up.0 up.1))
  ]
  | inr room ↦ rw room (
      update-IsPlaced (insert_cell c t)
        (insert_cell-IsPlaced c t p (ground (arith, p.end_row_in, p.end_column_in))))
]

add_char-mem : (c : ℕ) (t : Terminal) → (add_char c t).1.mem ≡ t.mem
unfolding add_char update_cursor_unsafe insert_cell scrolled_up scroll_screen
add_char-mem c t = elim (Bool-cases ((t.end_row == 23) && (t.end_column == 79))) [
  | inl full ↦ elim (Bool-cases (t.cursor_row == 0)) [
    | inl top ↦ rw (full, top) refl
    | inr below ↦ rw (full, below) refl
  ]
  | inr room ↦ rw room refl
]

new_line-mem : (t : Terminal) → (new_line t).mem ≡ t.mem
unfolding new_line scroll_screen update_cursor_unsafe
new_line-mem t = elim (Bool-cases ((t.end_row + 1) % 2 ^ 16 == 24)) [
  | inl e ↦ rw e refl
  | inr e ↦ rw e refl
]

pub put_char-IsPlaced :
    (fuel c : ℕ) (t : Terminal)
    → IsPlaced t
    → c ≢ 8
    → (b : Bool) × (t' : Terminal) × (put_char_unsafe fuel c t ≡ some (b, t'))
      × IsPlaced t'
      × (t'.mem ≡ t.mem)
unfolding put_char_unsafe
put_char-IsPlaced fuel c t p printable =
    let eight : (c == 8) ≡ false = ground arith in
    elim (Bool-cases (c == 10)) [
      | inl newline ↦
          (true, new_line t, rw newline refl, new_line-IsPlaced t p.end_row_in, new_line-mem t)
      | inr other ↦ elim (Bool-cases (c == 0)) [
        | inl nul ↦ (true, t, rw (other, eight, nul) refl, p, refl)
        | inr some_char ↦ (
          (add_char c t).0,
          (add_char c t).1,
          rw (other, eight, some_char) refl,
          add_char-IsPlaced c t p,
          add_char-mem c t,
        )
      ]
    ]

-- A string of `n` characters, none of them a backspace.
pub record IsPrintable (mem : ℕ → ℕ) (str n : ℕ) : Type 0 where
  pub no_nul : (j : ℕ) → j < n → mem (str + j) ≢ 0
  pub no_backspace : (j : ℕ) → j < n → mem (str + j) ≢ 8
  pub terminated : mem (str + n) ≡ 0

IsPrintable-tail :
    (mem : ℕ → ℕ) (str n : ℕ) → IsPrintable mem str (suc n) → IsPrintable mem (str + 1) n
IsPrintable-tail mem str n p =
    let at : (j : ℕ) → mem (str + 1 + j) ≡ mem (str + suc j) = λ j. ap mem (omega arith) in
    record {
      no_nul = λ j lt e. p.no_nul (suc j) (omega arith) (sym (at j) ∙ e);
      no_backspace = λ j lt e. p.no_backspace (suc j) (omega arith) (sym (at j) ∙ e);
      terminated = at n ∙ p.terminated;
    }

print_string-step :
    (k str : ℕ) (t t1 t2 : Terminal) (b : Bool)
    → (t.mem str == 0) ≡ false
    → put_char_unsafe k (t.mem str) t ≡ some (b, t1)
    → print_string_unsafe k (str + 1) t1 ≡ some t2
    → print_string_unsafe (suc k) str t ≡ some t2
unfolding print_string_unsafe
print_string-step k str t t1 t2 b here e e2 =
    let rest = print_rest (print_string_unsafe k (str + 1)) (put_char_unsafe k (t.mem str) t) in
    ap (λ z. if z then some t else rest) here
    ∙ ap (print_rest (print_string_unsafe k (str + 1))) e
    ∙ e2

-- With the cursor and the end of the text on the 80 by 24 cells of the screen and the cursor not
-- behind the end, printing a terminated string without backspaces ends, given more fuel than the
-- string is long, and leaves the cursor and the end so.
pub print_string-IsPlaced :
    (fuel n str : ℕ) (t : Terminal)
    → IsPlaced t
    → IsPrintable t.mem str n
    → n < fuel
    → (t' : Terminal) × (print_string_unsafe fuel str t ≡ some t') × IsPlaced t'
unfolding print_string_unsafe
print_string-IsPlaced zero n str t p text lt = absurd (omega arith)
print_string-IsPlaced (suc k) zero str t p text lt =
    let last : t.mem (str + 0) ≡ t.mem str = ap t.mem (omega arith) in
    let here : (t.mem str == 0) ≡ true = ground (arith, text.terminated, last) in
    (t, rw here refl, p)
print_string-IsPlaced (suc k) (suc n) str t p text lt =
    let first : t.mem (str + 0) ≡ t.mem str = ap t.mem (omega arith) in
    let here : (t.mem str == 0) ≡ false = ground (arith, text.no_nul 0 (omega arith), first) in
    let (b, t1, e, p1, m) =
      put_char-IsPlaced k (t.mem str) t p (λ h. text.no_backspace 0 (omega arith) (first ∙ h)) in
    let tail =
      subst (λ mm. IsPrintable mm (str + 1) n) (sym m) (IsPrintable-tail t.mem str n text) in
    let (t2, e2, p2) = print_string-IsPlaced k n (str + 1) t1 p1 tail (omega arith) in
    (t2, print_string-step k str t t1 t2 b here e e2, p2)
