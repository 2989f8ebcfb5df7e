-- ===== src/Terminal/Echo/Keys.antt =====
-- The keys of src/terminal.c that edit the line, as operations on the text typed and on the position
-- in it, with the screen showing the text after every one.
use mathlib.Core.Path.{subst}
use clubcos.Array.{Array8, size, insert}
use clubcos.Array.Edit.{contents, insert-contents}
use clubcos.Terminal.{Terminal, add_char, put_char_unsafe}
use clubcos.Terminal.Input.{line, key_char, insert_echo, echoed}
use clubcos.Terminal.Echo.{IsEcho}
use clubcos.Terminal.Echo.Insert.{typed, add_char-IsEcho}
use clubcos.Prelude.{
  ℕ, ◌+◌, ◌-◌, ◌%◌, ◌^◌, ◌≤◌, ◌<◌, ◌≡◌, refl, sym, ap, ◌∙◌, ◌≢◌, ◌⊎◌, inl, inr, Bool, true, false,
  ◌&&◌, Option, none, some, List, ◌∷◌, ◌++◌, arith, leb, ◌==◌, ==_iff, Bool-cases, take, drop,
}

-- The bytes of the line, and the position of the next one in it.
abbrev pub text : Terminal → List ℕ
text t = contents (line t)

abbrev pub position : Terminal → ℕ
position t = t.line_buf_ptr - t.line_buf_array.buf

pub array-of : Array8 → Option (Bool × Array8) → Array8
array-of a none = a
array-of a (some (b, a')) = a'

insert-typed :
    (c : ℕ) (t : Terminal)
    → t.line_buf_array.buf ≤ t.line_buf_ptr
    → t.line_buf_ptr ≤ t.line_buf_array.now
    → (t.line_buf_array.now == t.line_buf_array.end) ≡ false
    → insert t.line_buf_ptr c (line t) ≡ some (true, line (typed c t))
unfolding insert
insert-typed c t low high room =
    let in_bounds : (leb t.line_buf_array.buf t.line_buf_ptr
          && leb t.line_buf_ptr t.line_buf_array.now)
        ≡ true =
      ground (arith, low, high) in
    rw (in_bounds, room) refl

-- What the array operation is on the text.
typed-text :
    (start c : ℕ) (t : Terminal)
    → IsEcho start t
    → (t.line_buf_array.now == t.line_buf_array.end) ≡ false
    → text (typed c t) ≡ take (position t) (text t) ++ c % 2 ^ 8 ∷ drop (position t) (text t)
unfolding array-of size
typed-text start c t p room =
    let at : t.line_buf_array.buf + position t ≡ t.line_buf_ptr = omega (arith, p.ptr_start) in
    let le : position t ≤ size (line t) = omega (arith, p.ptr_end) in
    elim (insert-contents (line t) p.valid (position t) c le) [
      | inl (full, e) ↦ absurd (ground (arith, full, room))
      | inr (a', e, valid, last, bytes) ↦
          let e' = subst (λ q. insert q c (line t) ≡ some (true, a')) at e in
          let same : a' ≡ line (typed c t) =
            ap (array-of a') (sym e' ∙ insert-typed c t p.ptr_start p.ptr_end room) in
          subst
            (λ a. contents a ≡ take (position t) (text t) ++ c % 2 ^ 8 ∷ drop (position t) (text t))
            same bytes
    ]

put_char-printable :
    (fuel c : ℕ) (t : Terminal) → 31 < c → put_char_unsafe fuel c t ≡ some (add_char c t)
unfolding put_char_unsafe
put_char-printable fuel c t low =
    let nul : (c == 0) ≡ false = ground arith in
    let eight : (c == 8) ≡ false = ground arith in
    let ten : (c == 10) ≡ false = ground arith in rw (ten, eight, nul) refl

key_char-typed :
    (fuel c : ℕ) (t t' : Terminal)
    → 31 < c
    → insert t.line_buf_ptr c (line t) ≡ some (true, line (typed c t))
    → add_char c (typed c t) ≡ (true, t')
    → key_char fuel c t ≡ some t'
unfolding key_char insert_echo echoed
key_char-typed fuel c t t' low inserted added =
    ap (λ o. insert_echo fuel c o t) inserted
    ∙ ap echoed (put_char-printable fuel c (typed c t) low ∙ ap (λ r. some r) added)

key_char-full :
    (fuel start c : ℕ) (t : Terminal)
    → IsEcho start t
    → t.line_buf_array.now ≡ t.line_buf_array.end
    → key_char fuel c t ≡ some t
unfolding key_char insert_echo insert
key_char-full fuel start c t p full =
    let in_bounds : (leb t.line_buf_array.buf t.line_buf_ptr
          && leb t.line_buf_ptr t.line_buf_array.now)
        ≡ true =
      ground (arith, p.ptr_start, p.ptr_end) in
    let no_room : (t.line_buf_array.now == t.line_buf_array.end) ≡ true = ground (arith, full) in
    rw (in_bounds, no_room) refl

-- While the line being typed stands on the screen, with the cursor at the position in it and only
-- blank cells behind it, typing a character of code 32 to 127 changes nothing if the line holds
-- 249 bytes. Otherwise it puts the character in at the position, moves the position behind it, and
-- the screen shows the new line in the same way, from the same cell or, if it had to scroll, a row
-- above it.
pub key_char-IsEcho :
    (fuel start c : ℕ) (t : Terminal)
    → IsEcho start t
    → 31 < c
    → c < 128
    → ((size (line t) ≡ 249) × (key_char fuel c t ≡ some t))
      ⊎ ((start' : ℕ) × (t' : Terminal) × (key_char fuel c t ≡ some t')
          × ((start' ≡ start) ⊎ (start' + 80 ≡ start))
          × IsEcho start' t'
          × (position t' ≡ position t + 1)
          × (text t' ≡ take (position t) (text t) ++ c ∷ drop (position t) (text t)))
unfolding size
key_char-IsEcho fuel start c t p low ascii =
    elim (Bool-cases (t.line_buf_array.now == t.line_buf_array.end)) [
      | inl e ↦
          let full : t.line_buf_array.now ≡ t.line_buf_array.end =
            (==_iff t.line_buf_array.now t.line_buf_array.end).0 e in
          inl (omega (arith, full, p.capacity), key_char-full fuel start c t p full)
      | inr room ↦
          let more : t.line_buf_array.now ≢ t.line_buf_array.end = ground arith in
          let (start', t', added, moved, p', same, ptr) =
            add_char-IsEcho start c t p more (omega (arith, low)) ascii in
          let byte : c % 2 ^ 8 ≡ c = ground arith in
          let buf : t'.line_buf_array.buf ≡ t.line_buf_array.buf = ap (λ a. a.buf) same in
          inr (
            start',
            t',
            key_char-typed fuel c t t' low (insert-typed c t p.ptr_start p.ptr_end room) added,
            moved,
            p',
            omega (arith, ptr, buf, p.ptr_start),
            ap contents same
                ∙ typed-text start c t p room
                ∙ ap (λ x. take (position t) (text t) ++ x ∷ drop (position t) (text t)) byte,
          )
    ]
