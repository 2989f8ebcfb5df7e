-- ===== src/LinkedList/Lockfree.antt =====
-- `ckLinkedListPushBack_lockfree` and `ckLinkedListPopFront_lockfree`, one memory access of shared
-- data to a step, so that they can be interleaved. A compare-and-swap is one step.
use clubcos.LinkedList.{push_back, pop_front}
use clubcos.LinkedList.IsList.{IsList}
use clubcos.Prelude.{
  ℕ, zero, suc, ◌≡◌, refl, ◌∙◌, ◌≢◌, true, false, Option, none, some, List, [], ◌∷◌, arith, ◌==◌,
  if◌then◌else◌, add32, sub32, Store, upd,
}

-- Where a push stands; `swap` and `fix` carry the local variable `tail`.
pub data PushPc : Type 0 where
  count link read finished : PushPc
  back swap fix : ℕ → PushPc

unfoldable pub push_step : ℕ → ℕ → PushPc → Store → PushPc × Store
push_step d p count s = (link, record s { third = upd s.third d (add32 (s.third d) 1) })
push_step d p link s = (read, record s { next = upd s.next p d })
push_step d p read s = (back (s.prev d), s)
push_step d p (back last) s = (swap last, record s { prev = upd s.prev p last })
push_step d p (swap last) s =
    if s.prev d == last then (fix last, record s { prev = upd s.prev d p }) else (read, s)
push_step d p (fix last) s = (finished, record s { next = upd s.next last p })
push_step d p finished s = (finished, s)

-- The function run with nothing between its steps; `none` means that it has not returned.
unfoldable pub push_run : ℕ → ℕ → ℕ → PushPc → Store → Option Store
push_run zero d p finished s = some s
push_run zero d p _ s = none
push_run (suc k) d p pc s = let (pc', s') = push_step d p pc s in push_run k d p pc' s'

unfoldable pub push_back_lockfree : ℕ → ℕ → Store → Option Store
push_back_lockfree d p s = push_run 6 d p count s

-- Where a pop stands, with the local variables `ptr`, `next` and `dnext`.
pub data PopPc : Type 0 where
  first : PopPc
  after : ℕ → PopPc
  unlink read_head uncount : ℕ → ℕ → PopPc
  set_head : ℕ → ℕ → ℕ → PopPc
  returned : Option ℕ → PopPc

unfoldable pub pop_step : ℕ → PopPc → Store → PopPc × Store
pop_step d first s = (if s.next d == d then returned none else after (s.next d), s)
pop_step d (after p) s = (unlink p (s.next p), s)
pop_step d (unlink p n) s =
    if s.prev n == p then (read_head p n, record s { prev = upd s.prev n d }) else (after p, s)
pop_step d (read_head p n) s = (set_head p n (s.next d), s)
pop_step d (set_head p n m) s =
    (uncount p n, if s.next d == m then record s { next = upd s.next d n } else s)
pop_step d (uncount p n) s =
    (returned (some p), record s { third = upd s.third d (sub32 (s.third d) 1) })
pop_step d (returned r) s = (returned r, s)

unfoldable pub pop_run : ℕ → ℕ → PopPc → Store → Option (Option ℕ × Store)
pop_run zero d (returned r) s = some (r, s)
pop_run zero d _ s = none
pop_run (suc k) d pc s = let (pc', s') = pop_step d pc s in pop_run k d pc' s'

unfoldable pub pop_front_lockfree : ℕ → Store → Option (Option ℕ × Store)
pop_front_lockfree d s = pop_run 6 d first s

second :
    {s : Store} {d x : ℕ} (xs : List ℕ)
    → IsList s d (x ∷ xs)
    → (s.prev (s.next (s.next d)) == s.next d) ≡ true
second [] l = ground (arith, l.chain.0, l.chain.2)
second (y ∷ xs) l = ground (arith, l.chain.0, l.chain.2)

-- A compare-and-swap that finds what it expects.
push_run-swap :
    (k d p last : ℕ) (s : Store)
    → (s.prev d == last) ≡ true
    → push_run (suc k) d p (swap last) s
      ≡ push_run k d p (fix last) (record s { prev = upd s.prev d p })
unfolding push_run push_step
push_run-swap k d p last s e = rw e refl

pop_run-first :
    (k d : ℕ) (s : Store)
    → (s.next d == d) ≡ false
    → pop_run (suc k) d first s ≡ pop_run k d (after (s.next d)) s
unfolding pop_run pop_step
pop_run-first k d s e = rw e refl

pop_run-unlink :
    (k d p n : ℕ) (s : Store)
    → (s.prev n == p) ≡ true
    → pop_run (suc k) d (unlink p n) s
      ≡ pop_run k d (read_head p n) (record s { prev = upd s.prev n d })
unfolding pop_run pop_step
pop_run-unlink k d p n s e = rw e refl

pop_run-set_head :
    (k d p n : ℕ) (s : Store)
    → pop_run (suc k) d (set_head p n (s.next d)) s
      ≡ pop_run k d (uncount p n) (record s { next = upd s.next d n })
unfolding pop_run pop_step
pop_run-set_head k d p n s = let e : (s.next d == s.next d) ≡ true = ground arith in rw e refl

-- With nothing between its steps, `ckLinkedListPushBack_lockfree` of a node other than the dummy
-- returns, after one round of its loop, and does what `ckLinkedListPushBack` does.
pub push_back_lockfree-eq :
    (d p : ℕ) (s : Store) → p ≢ d → push_back_lockfree d p s ≡ some (push_back d p s)
unfolding push_back_lockfree push_run push_step push_back
push_back_lockfree-eq d p s h = push_run-swap 1 d p (s.prev d) _ (ground arith)

-- With nothing between its steps, `ckLinkedListPopFront_lockfree` on a well-formed list returns,
-- and does what `ckLinkedListPopFront` does.
pub pop_front_lockfree-eq :
    {s : Store} {d : ℕ} (xs : List ℕ)
    → IsList s d xs
    → pop_front_lockfree d s ≡ some (pop_front d s)
unfolding pop_front_lockfree pop_run pop_step pop_front
pop_front_lockfree-eq {s} {d} [] l = ground (arith, l.chain.0)
pop_front_lockfree-eq {s} {d} (x ∷ xs) l =
    let e : (s.next d == d) ≡ false = ground (arith, l.chain.0, l.distinct.0) in
    let n : ℕ = s.next (s.next d) in
    let t : Store = record s { prev = upd s.prev n d } in
    pop_run-first 5 d s e
    ∙ pop_run-unlink 3 d (s.next d) n s (second xs l)
    ∙ pop_run-set_head 1 d (s.next d) n t
    ∙ rw e refl
