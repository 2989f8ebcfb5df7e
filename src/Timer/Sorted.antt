-- ===== src/Timer/Sorted.antt =====
-- Setting a time-out of src/timer.c keeps the time-outs in the order of the ticks left.
use clubcos.Timer.{Timer, link_in, timer_set}
use clubcos.Timer.Links.{
  Links, Links-frame, insert_by, IsSorted, insert_by-IsSorted, IsSorted-same, has-insert_by,
  Distinct-insert_by,
}
use mathlib.Core.Path.{subst}
use clubcos.Prelude.{
  ℕ, zero, suc, ◌^◌, ◌≤◌, ◌<◌, ◌≡◌, refl, sym, ap, ◌∙◌, ◌≢◌, inl, inr, true, false, some, List, [],
  ◌∷◌, arith, leb, ◌==◌, Bool-cases, length, add32, sub32, Store, upd, has, Distinct, has_same,
  ne→false,
}

link_in-Links :
    (fuel tick p before : ℕ) (xs : List ℕ) (e : ℕ) (s : Store)
    → Links s.next before xs e
    → Distinct (before ∷ xs)
    → has p (before ∷ xs) ≡ false
    → sub32 (s.third p) tick ≤ sub32 (s.third e) tick
    → length xs < fuel
    → (s' : Store) × (link_in fuel tick p before s ≡ some s')
      × Links s'.next before (insert_by (λ q. sub32 (s.third q) tick) p xs) e
      × (s'.third ≡ s.third)
      × ((q : ℕ) → has q (p ∷ before ∷ xs) ≡ false → s'.next q ≡ s.next q)
unfolding link_in
link_in-Links zero tick p before xs e s l d new last lt = absurd (omega arith)
link_in-Links (suc k) tick p before [] e s l d new last lt =
    let first : leb (sub32 (s.third p) tick) (sub32 (s.third e) tick) ≡ true =
      ground (arith, last) in
    (
      record s { next = upd (upd s.next before p) p e },
      rw (l, first) refl,
      (ground (arith, new), ground (arith, new)),
      refl,
      λ q out. ground (arith, out),
    )
link_in-Links (suc k) tick p before (x ∷ xs) e s l d new last lt =
    elim (Bool-cases (leb (sub32 (s.third p) tick) (sub32 (s.third x) tick))) [
      | inl here ↦
          let next' = upd (upd s.next before p) p x in
          let behind =
            Links-frame s.next next' x xs e
              (λ q i.
                let not_p = has_same p q (x ∷ xs) i (ground (arith, new)) in
                let not_before = has_same before q (x ∷ xs) i d.0 in
                ground (arith, not_p, not_before))
              l.1 in
          (
            record s { next = next' },
            rw (l.0, here) refl,
            rw here (ground (arith, new), (ground (arith, new), behind)),
            refl,
            λ q out. ground (arith, out),
          )
      | inr later ↦
          let (s', run, links, third, out) =
            link_in-Links k tick p x xs e s l.1 d.1 (ground (arith, new)) last
              (omega (arith, lt)) in
          let same : s'.next before ≡ s.next before = out before (ground (arith, new, d.0)) in
          (
            s',
            rw (l.0, later) run,
            rw later (same ∙ l.0, links),
            third,
            λ q o. out q (ground (arith, o)),
          )
    ]

-- The ticks left of a time-out.
abbrev pub left : Timer → ℕ → ℕ
left t q = sub32 (t.store.third q) t.tick_low

-- The time-outs `xs` wait between the head and the sentinal, in the order of the ticks left.
pub record IsPending (t : Timer) (xs : List ℕ) : Type 0 where
  pub linked : Links t.store.next t.head xs t.sentinal
  pub distinct : Distinct (t.head ∷ xs)
  pub apart : has t.sentinal xs ≡ false
  pub sorted : IsSorted (left t) xs
  pub word : t.tick_low < 2 ^ 32

upd-third : (f : ℕ → ℕ) (p v q : ℕ) → (p == q) ≡ false → upd f p v q ≡ f q
upd-third f p v q h = ground (arith, h)

upd_self : (f : ℕ → ℕ) (p v : ℕ) → upd f p v p ≡ v
upd_self f p v = ground arith

behind-all : (tick : ℕ) → tick < 2 ^ 32 → sub32 (add32 tick 4294967295) tick ≡ 4294967295
behind-all tick h = ground arith

sub32-bound : (a b : ℕ) → sub32 a b ≤ 4294967295
sub32-bound a b = omega arith

swapped : (a b : ℕ) → (a == b) ≡ false → (b == a) ≡ false
swapped a b h = ground arith

-- While the time-outs between the head and the sentinal are distinct and in the order of the ticks
-- left, counted across the wrap of the tick count: setting one that has a queue, is not among them
-- and is not the sentinal answers true, given more fuel than there are time-outs, links it in at
-- the place that its ticks left give it, so that they are in that order again with it, and leaves
-- its ticks left as they were.
pub timer_set-IsPending :
    (fuel p : ℕ) (t : Timer) (xs : List ℕ)
    → IsPending t xs
    → t.notice_queue p ≢ 0
    → has p (t.head ∷ xs) ≡ false
    → p ≢ t.sentinal
    → length xs < fuel
    → (t' : Timer) × (timer_set fuel p t ≡ some (true, t'))
      × IsPending t' (insert_by (left t') p xs)
      × (left t' p ≡ left t p)
unfolding timer_set
timer_set-IsPending fuel p t xs w queue new other lt =
    let third' = upd t.store.third t.sentinal (add32 t.tick_low 4294967295) in
    let s = record t.store { third = third' } in
    let key : ℕ → ℕ = λ q. sub32 (third' q) t.tick_low in
    let last : key t.sentinal ≡ 4294967295 =
      ap (λ v. sub32 v t.tick_low) (upd_self t.store.third t.sentinal (add32 t.tick_low 4294967295))
      ∙ behind-all t.tick_low w.word in
    let below : key p ≤ key t.sentinal = omega (arith, last, sub32-bound (third' p) t.tick_low) in
    let (s', run, links, third, out) =
      link_in-Links fuel t.tick_low p t.head xs t.sentinal s w.linked w.distinct new below lt in
    let has_queue : (t.notice_queue p == 0) ≡ false = ne→false (t.notice_queue p) 0 queue in
    let sorted =
      IsSorted-same (left t) key xs
        (λ q i.
          ap (λ v. sub32 v t.tick_low)
            (upd-third t.store.third t.sentinal (add32 t.tick_low 4294967295) q
              (swapped q t.sentinal (has_same t.sentinal q xs i w.apart))))
        w.sorted in
    let f : ℕ → ℕ = λ q. sub32 (s'.third q) t.tick_low in
    let keys : f ≡ key = ap (λ g. λ q. sub32 (g q) t.tick_low) third in
    let not_last = ne→false t.sentinal p (λ h. other (sym h)) in
    (
      record t { store = s' },
      rw (has_queue, run) refl,
      record {
        linked = subst (λ g. Links s'.next t.head (insert_by g p xs) t.sentinal) (sym keys) links;
        distinct = (
          has-insert_by f p xs t.head ∙ ground (arith, new, w.distinct.0),
          Distinct-insert_by f p xs w.distinct.1 (ground (arith, new)),
        );
        apart = has-insert_by f p xs t.sentinal ∙ ground (arith, not_last, w.apart);
        sorted = insert_by-IsSorted f p xs (subst (λ g. IsSorted g xs) (sym keys) sorted);
        word = w.word;
      },
      ap (λ g. g p) keys
          ∙ ap (λ v. sub32 v t.tick_low)
              (upd-third t.store.third t.sentinal (add32 t.tick_low 4294967295) p not_last),
    )
