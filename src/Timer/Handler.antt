-- ===== src/Timer/Handler.antt =====
-- What the tick handler of src/timer.c does with the time-outs.
use clubcos.LinkedList.{push_back}
use clubcos.LinkedList.Chain.{Chain-last}
use clubcos.LinkedList.IsList.{IsList, SameOutside, IsList-frame, push_back-IsList}
use clubcos.LinkedList.Lockfree.{push_back_lockfree-eq}
use clubcos.Timer.{Timer, expire, timer_int_handler}
use clubcos.Timer.Links.{Links, Links-frame, IsSorted}
use clubcos.Timer.Sorted.{left, IsPending}
use clubcos.Prelude.{
  ℕ, suc, ◌+◌, ◌^◌, ◌≤◌, ◌<◌, ◌≡◌, refl, ap, ◌∙◌, ◌≢◌, true, false, some, List, [], ◌∷◌, ◌++◌,
  arith, ◌==◌, if◌then◌else◌, length, length-append, add32, sub32, Store, upd, has, has_same,
  ne→false,
}

-- The time-out `x` is no longer the first.
abbrev unlinked : ℕ → ℕ → Store → Store
unlinked head x s = record s { next = upd s.next head (s.next x) }

Links-skip :
    (next next' : ℕ → ℕ) (a x : ℕ) (xs : List ℕ) (e : ℕ)
    → next' a ≡ next x
    → ((q : ℕ) → has q xs ≡ true → next' q ≡ next q)
    → Links next x xs e
    → Links next' a xs e
Links-skip next next' a x [] e f h l = f ∙ l
Links-skip next next' a x (y ∷ ys) e f h l =
    (f ∙ l.0, Links-frame next next' y ys e (λ q i. h q i) l.1)

expire-first :
    (k : ℕ) (t : Timer) (low p : ℕ) (s : Store)
    → (s.third p == low) ≡ true
    → (t.notice_queue p == 0) ≡ false
    → p ≢ t.notice_queue p
    → let u = push_back (t.notice_queue p) p (unlinked t.head p s) in
      expire (suc k) t low p s ≡ expire k t low (u.next p) u
unfolding expire
expire-first k t low p s due queue other =
    rw (due, queue, push_back_lockfree-eq (t.notice_queue p) p (unlinked t.head p s) other) refl

expire-later :
    (k : ℕ) (t : Timer) (low p : ℕ) (s : Store)
    → (s.third p == low) ≡ false
    → expire (suc k) t low p s ≡ some s
unfolding expire
expire-later k t low p s later = rw later refl

module _ (t : Timer) (x d : ℕ) (xs ns : List ℕ) where
  abbrev low : ℕ
  low = add32 t.tick_low 1

  abbrev out : Store
  out = unlinked t.head x t.store

  abbrev pushed : Store
  pushed = push_back d x out

  out-SameOutside : SameOutside (t.head ∷ []) t.store out
  out-SameOutside = record {
    same_next = λ q h. ground (arith, h);
    same_prev = λ q h. refl;
    same_third = λ q h. refl;
  }

  -- The push writes the next pointers of nodes of the queue and of the new node.
  pushed-next : IsList out d ns → (q : ℕ) → has q (x ∷ d ∷ ns) ≡ false → pushed.next q ≡ out.next q
  unfolding push_back
  pushed-next l q h =
      let i = Chain-last out.next out.prev d ns d l.chain in
      ground (arith, h, has_same q (out.prev d) (d ∷ ns) i)

  pushed-third : (q : ℕ) → (q == d) ≡ false → pushed.third q ≡ t.store.third q
  unfolding push_back
  pushed-third q h = ground (arith, h)

  pushed-node : IsList out d ns → has x (d ∷ ns) ≡ false → pushed.next x ≡ d
  unfolding push_back
  pushed-node l new =
      let i = Chain-last out.next out.prev d ns d l.chain in
      ground (arith, has_same x (out.prev d) (d ∷ ns) i new)

-- The tick count after the tick, 64 bits of it.
abbrev pub ticked_high : Timer → ℕ
ticked_high t = if add32 t.tick_low 1 == 0 then add32 t.tick_high 1 else t.tick_high

timer_int_handler-store :
    (fuel : ℕ) (t : Timer) (p : ℕ) (s : Store)
    → t.store.next t.head ≡ p
    → expire fuel (t) (add32 t.tick_low 1) p t.store ≡ some s
    → timer_int_handler fuel t
      ≡ some (record t { store = s; tick_low = add32 t.tick_low 1; tick_high = ticked_high t })
unfolding timer_int_handler
timer_int_handler-store fuel t p s e run = rw (e, run) refl

-- While the time-outs wait in the order of the ticks left: if the first one is due at the tick and
-- has a notice queue, a list whose nodes are neither the head nor time-outs that wait, with room
-- for one more node and with a new size other than the number of the tick, then the handler
-- returns after one round of its loop. The time-out is at the end of its notice queue and no
-- longer waits; all others still wait in their order for the times they had, also those that were
-- due.
pub timer_int_handler-due :
    (t : Timer) (x d : ℕ) (xs ns : List ℕ)
    → IsPending t (x ∷ xs)
    → t.store.third x ≡ add32 t.tick_low 1
    → t.notice_queue x ≡ d
    → d ≢ 0
    → IsList t.store d ns
    → ((q : ℕ) → has q (t.head ∷ x ∷ xs) ≡ true → has q (d ∷ ns) ≡ false)
    → suc (length ns) < 2 ^ 32
    → suc (length ns) ≢ add32 t.tick_low 1
    → (t' : Timer) × (timer_int_handler 2 t ≡ some t')
      × (t'.tick_low ≡ add32 t.tick_low 1)
      × IsList t'.store d (ns ++ x ∷ [])
      × Links t'.store.next t'.head xs t'.sentinal
      × ((q : ℕ) → has q xs ≡ true → t'.store.third q ≡ t.store.third q)
timer_int_handler-due t x d xs ns w due queue some_queue l apart room size =
    let new = apart x (ground arith) in
    let l' : IsList (out t x d xs ns) d ns =
      IsList-frame (out-SameOutside t x d xs ns)
        (λ q i. ground (arith, i, apart t.head (ground arith), has_same t.head q (d ∷ ns))) l in
    let u = pushed t x d xs ns in
    let next = pushed-next t x d xs ns l' in
    let far : (q : ℕ) → has q (t.head ∷ xs) ≡ true → has q (x ∷ d ∷ ns) ≡ false =
      λ q i. ground (arith, i, apart q, w.distinct.0, w.distinct.1, has_same x q xs) in
    let done : IsList u d (ns ++ x ∷ []) = push_back-IsList x l' new room in
    let run : expire 2 t (low t x d xs ns) x t.store ≡ some u =
      expire-first 1 t (low t x d xs ns) x t.store (ground (arith, due))
        (ground (arith, queue, some_queue)) (ground (arith, queue, new))
      ∙ ap
          (λ e.
            let v = push_back e x (unlinked t.head x t.store) in
            expire 1 t (add32 t.tick_low 1) (v.next x) v)
          queue
      ∙ ap (λ n. expire 1 t (add32 t.tick_low 1) n u) (pushed-node t x d xs ns l' new)
      ∙ expire-later 0 t (add32 t.tick_low 1) d u
          (ground (arith, done.sized, length-append ns (x ∷ []), size)) in
    (
      record t { store = u; tick_low = add32 t.tick_low 1; tick_high = ticked_high t },
      timer_int_handler-store 2 t x u w.linked.0 run,
      refl,
      done,
      Links-skip t.store.next u.next t.head x xs t.sentinal
          (next t.head (far t.head (ground arith)) ∙ ground arith)
          (λ q i.
            next q (far q (ground (arith, i)))
            ∙ ground (arith, i, w.distinct.0, has_same t.head q xs))
          w.linked.1,
      λ q i. pushed-third t x d xs ns q (ground (arith, far q, i)),
    )

IsSorted-earlier :
    (f g : ℕ → ℕ) (xs : List ℕ)
    → ((q : ℕ) → has q xs ≡ true → g q + 1 ≡ f q)
    → IsSorted f xs
    → IsSorted g xs
IsSorted-earlier f g [] h s = refl
IsSorted-earlier f g (x ∷ []) h s = refl
IsSorted-earlier f g (x ∷ y ∷ xs) h s = (
  omega (arith, h x (ground arith), h y (ground arith), s.0),
  IsSorted-earlier f g (y ∷ xs) (λ q i. h q (ground (arith, i))) s.1,
)

sub32-tick : (a b : ℕ) → b < 2 ^ 32 → 1 ≤ sub32 a b → sub32 a (add32 b 1) + 1 ≡ sub32 a b
sub32-tick a b word some_left = ground arith

-- While the time-outs wait in the order of the ticks left: if the first node of the list, which is
-- the sentinal when none waits, is not due at the tick, and every time-out has at least one tick
-- left, then the handler returns at once, the same time-outs wait in the order of the ticks left,
-- and each has one tick less left.
pub timer_int_handler-IsPending :
    (t : Timer) (xs : List ℕ)
    → IsPending t xs
    → t.store.third (t.store.next t.head) ≢ add32 t.tick_low 1
    → ((q : ℕ) → has q xs ≡ true → 1 ≤ left t q)
    → (t' : Timer) × (timer_int_handler 1 t ≡ some t')
      × IsPending t' xs
      × ((q : ℕ) → has q xs ≡ true → left t' q + 1 ≡ left t q)
timer_int_handler-IsPending t xs w none_due some_left =
    let p = t.store.next t.head in
    let low = add32 t.tick_low 1 in
    let t' = record t { tick_low = low; tick_high = ticked_high t } in
    let fewer : (q : ℕ) → has q xs ≡ true → left t' q + 1 ≡ left t q =
      λ q i. sub32-tick (t.store.third q) t.tick_low w.word (some_left q i) in
    (
      t',
      timer_int_handler-store 1 t p t.store refl
          (expire-later 0 t low p t.store (ne→false (t.store.third p) low none_due)),
      record {
        linked = w.linked;
        distinct = w.distinct;
        apart = w.apart;
        sorted = IsSorted-earlier (left t) (left t') xs fewer w.sorted;
        word = omega arith;
      },
      fewer,
    )
