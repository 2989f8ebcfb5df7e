-- ===== src/Terminal/Echo/Removals.antt =====
-- The keys of src/terminal.c that take a character out of the line.
use mathlib.Core.Path.{subst}
use clubcos.Array.Copy.{memcpy-back}
use clubcos.Array.{Array8, size, erase}
use clubcos.Array.Edit.{contents, erase-contents}
use clubcos.Terminal.{Terminal, delete_unsafe, backspace_unsafe}
use clubcos.Terminal.Input.{line, retract, key_delete, key_backspace}
use clubcos.Terminal.Echo.{IsEcho}
use clubcos.Terminal.Echo.Erase.{erased, erase-IsEcho}
use clubcos.Terminal.Echo.Keys.{text, position}
use clubcos.Terminal.Echo.Moves.{moved-IsEcho}
use clubcos.Prelude.{
  ℕ, suc, ◌+◌, ◌-◌, ◌≤◌, ◌<◌, ◌≡◌, refl, sym, ap, ◌∙◌, ◌≢◌, ◌⊎◌, inl, inr, true, false, ◌&&◌,
  Option, none, some, ◌++◌, arith, ltb, leb, ◌==◌, ==_iff, Bool-cases, take, drop,
}

array-of : Array8 → Option Array8 → Array8
array-of a none = a
array-of a (some a') = a'

erase-erased :
    (t : Terminal)
    → t.line_buf_array.buf ≤ t.line_buf_ptr
    → t.line_buf_ptr < t.line_buf_array.now
    → erase t.line_buf_ptr (line t) ≡ some (line (erased t))
unfolding erase
erase-erased t low more =
    let in_bounds : (leb t.line_buf_array.buf t.line_buf_ptr
          && ltb t.line_buf_ptr t.line_buf_array.now)
        ≡ true =
      ground (arith, low, more) in
    let block = memcpy-back t.line_buf_ptr (t.line_buf_array.now - t.line_buf_ptr - 1) t.mem in
    rw (in_bounds, block) refl

erased-text :
    (start : ℕ) (t : Terminal)
    → IsEcho start t
    → t.line_buf_ptr < t.line_buf_array.now
    → text (erased t) ≡ take (position t) (text t) ++ drop (suc (position t)) (text t)
unfolding array-of size
erased-text start t p more =
    let at : t.line_buf_array.buf + position t ≡ t.line_buf_ptr = omega (arith, p.ptr_start) in
    let lt : position t < size (line t) = omega (arith, more, p.ptr_start) in
    let (a', e, valid, last, bytes) = erase-contents (line t) p.valid (position t) lt in
    let e' = subst (λ q. erase q (line t) ≡ some a') at e in
    let same : a' ≡ line (erased t) = ap (array-of a') (sym e' ∙ erase-erased t p.ptr_start more) in
    subst (λ a. contents a ≡ take (position t) (text t) ++ drop (suc (position t)) (text t)) same
      bytes

-- The delete key at the end of the text does nothing; before it, with more than one character in the
-- text or the end not at the start of a row, it takes the character at the position out, and the
-- screen shows the new text.
pub key_delete-IsEcho :
    (start : ℕ) (t : Terminal)
    → IsEcho start t
    → (t.end_column ≢ 0) ⊎ (1 < size (line t))
    → ((position t ≡ size (line t)) × (key_delete t ≡ some t))
      ⊎ ((t' : Terminal) × (key_delete t ≡ some t')
          × IsEcho start t'
          × (position t' ≡ position t)
          × (text t' ≡ take (position t) (text t) ++ drop (suc (position t)) (text t)))
unfolding key_delete size
key_delete-IsEcho start t p enough = elim (Bool-cases (t.line_buf_ptr == t.line_buf_array.now)) [
  | inl e ↦
      let last : t.line_buf_ptr ≡ t.line_buf_array.now =
        (==_iff t.line_buf_ptr t.line_buf_array.now).0 e in
      inl (omega (arith, last), rw e refl)
  | inr e ↦
      let more : t.line_buf_ptr < t.line_buf_array.now = ground (arith, e, p.ptr_end) in
      let (p', same, ptr) = erase-IsEcho start t p more enough in
      let buf : (delete_unsafe (erased t)).line_buf_array.buf ≡ t.line_buf_array.buf =
        ap (λ a. a.buf) same in
      inr (
        delete_unsafe (erased t),
        rw (e, erase-erased t p.ptr_start more) refl,
        p',
        omega (arith, ptr, buf),
        ap contents same ∙ erased-text start t p more,
      )
]

-- The cursor one to the left.
abbrev back : Terminal → Terminal
back t = record (retract t) { cursor_column = t.cursor_column - 1 }

-- While the line being typed stands on the screen, with the cursor not at the start of a row, and
-- with the end of the line not at the start of a row or more than one character in it: the
-- backspace key changes nothing at the start of the line. Otherwise, whatever the fuel, it takes
-- the character before the position out, moves the position back, and the screen shows the new
-- line in the same way, from the same cell.
pub key_backspace-IsEcho :
    (fuel start : ℕ) (t : Terminal)
    → IsEcho start t
    → t.cursor_column ≢ 0
    → (t.end_column ≢ 0) ⊎ (1 < size (line t))
    → ((position t ≡ 0) × (key_backspace fuel t ≡ some t))
      ⊎ ((t' : Terminal) × (key_backspace fuel t ≡ some t')
          × IsEcho start t'
          × (position t' + 1 ≡ position t)
          × (text t' ≡ take (position t - 1) (text t) ++ drop (position t) (text t)))
unfolding key_backspace backspace_unsafe size
key_backspace-IsEcho fuel start t p column enough =
    let inside : (t.cursor_column == 0) ≡ false = ground (arith, column) in
    elim (Bool-cases (t.line_buf_ptr == t.line_buf_array.buf)) [
      | inl e ↦
          let first : t.line_buf_ptr ≡ t.line_buf_array.buf =
            (==_iff t.line_buf_ptr t.line_buf_array.buf).0 e in
          inl (omega (arith, first), rw e refl)
      | inr e ↦
          let later : t.line_buf_array.buf < t.line_buf_ptr = ground (arith, e, p.ptr_start) in
          let more : (back t).line_buf_ptr < t.line_buf_array.now =
            omega (arith, later, p.ptr_end) in
          let low : t.line_buf_array.buf ≤ (back t).line_buf_ptr = omega (arith, later) in
          let next : suc (position (back t)) ≡ position t = omega (arith, later) in
          let before : position (back t) ≡ position t - 1 = omega (arith, later) in
          let q =
            moved-IsEcho start (back t).line_buf_ptr t.cursor_row (t.cursor_column - 1) t p low
              (omega (arith, p.ptr_end)) (omega (arith, p.placed.cursor_column_in))
              (omega (arith, p.at_ptr, column, later)) in
          let (p', same, ptr) = erase-IsEcho start (back t) q more enough in
          let buf : (delete_unsafe (erased (back t))).line_buf_array.buf ≡ t.line_buf_array.buf =
            ap (λ a. a.buf) same in
          inr (
            delete_unsafe (erased (back t)),
            rw (e, erase-erased (back t) low more, inside) refl,
            p',
            omega (arith, ptr, buf, later),
            ap contents same
                ∙ erased-text start (back t) q more
                ∙ ap (λ i. take (position (back t)) (text t) ++ drop i (text t)) next
                ∙ ap (λ i. take i (text t) ++ drop (position t) (text t)) before,
          )
    ]
