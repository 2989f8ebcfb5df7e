-- ===== src/Queue/Refine.antt =====
-- A valid circular queue cannot be told from the bounded list of the values that it holds.
use clubcos.Prelude.{
  ℕ, zero, suc, ◌+◌, ◌-◌, ◌≤◌, ◌<◌, ◌≡◌, refl, ap, inl, inr, Bool, true, false, not, ◌||◌, List, [],
  ◌∷◌, ◌++◌, arith, ltb, leb, ◌==◌, if◌then◌else◌, Bool-cases, length, set, get_or, get_or-set_self,
  get_or-set_ne,
}
use clubcos.Queue.Fifo
use clubcos.Queue.Fifo.{Op, put_op, get_op, remove_op}
use clubcos.Queue.{Queue, put, remove, get, run, advance}
use clubcos.Queue.Inv.{IsValid, count, put-IsValid, remove-IsValid, get-IsValid}

module _ (n : ℕ) where
  -- the `k` values from index `h` on, going round at `n`
  abbrev pub window : List ℕ → ℕ → ℕ → List ℕ
  window buf h zero = []
  window buf h (suc k) = get_or buf h 0 ∷ window buf (advance n h) k

  -- the index `k` places after `h`
  abbrev place : ℕ → ℕ → ℕ
  place h k = if leb n (h + k) then h + k - n else h + k

  length-window : (buf : List ℕ) (h k : ℕ) → length (window buf h k) ≡ k
  length-window buf h zero = refl
  length-window buf h (suc k) = ap suc (length-window buf (advance n h) k)

  place-advance : (h k : ℕ) → h < n → suc k < n → place (advance n h) k ≡ place h (suc k)
  place-advance h k p q = ground arith

  place-ne : (h k : ℕ) → h < n → suc k < n → place h (suc k) ≡ h → ⊥
  place-ne h k p q = ground arith

  -- A write just behind a window extends it.
  window-set :
      (buf : List ℕ) (x h k : ℕ)
      → n ≤ length buf
      → h < n
      → k < n
      → window (set buf (place h k) x) h (suc k) ≡ window buf h k ++ x ∷ []
  window-set buf x h zero s p q = ground (arith, get_or-set_self buf h x 0)
  window-set buf x h (suc k) s p q = ground (
    arith,
    get_or-set_ne buf (place h (suc k)) h x 0 (place-ne h k p q),
    window-set buf x (advance n h) k,
    place-advance h k p q,
  )

abbrev pub contents : Queue → List ℕ
contents q = window q.size q.buf q.first (count q)

-- Where the next value goes, and how many values there are after an operation.
last-place : {q : Queue} → IsValid q → count q < q.size → q.last ≡ place q.size q.first (count q)
last-place v h = ground arith

count-le : {q : Queue} → IsValid q → count q ≤ q.size
count-le v = ground arith

not-full : {q : Queue} → IsValid q → ltb (count q) q.size ≡ (q.is_empty || not (q.first == q.last))
not-full v = ground arith

count-advance-last :
    {q : Queue} (b : List ℕ)
    → IsValid q
    → count q < q.size
    → count (record q { buf = b; last = advance q.size q.last; is_empty = false }) ≡ suc (count q)
count-advance-last b v h = ground arith

count-remove : {q : Queue} → IsValid q → q.is_empty ≡ false → count q ≡ suc (count (remove q).1)
unfolding remove
count-remove v e = ground arith

-- `ckCircularQueue32Put` answers as the bounded list does, and leaves the queue holding its list.
pub put_refines :
    {q : Queue} (x : ℕ)
    → IsValid q
    → ((put q x).0, contents (put q x).1) ≡ Fifo.push q.size (contents q) x
unfolding put Fifo.push
put_refines {q} x v = ground (
  arith,
  length-window q.size q.buf q.first (count q),
  not-full v,
  last-place v,
  window-set q.size q.buf x q.first (count q),
  count-advance-last (set q.buf q.last x) v,
)

pub remove_refines :
    {q : Queue} → IsValid q → ((remove q).0, contents (remove q).1) ≡ Fifo.drop_front (contents q)
unfolding remove Fifo.drop_front
remove_refines {q} v = elim (Bool-cases q.is_empty) [
  | inl e ↦ rw e (ground arith)
  | inr e ↦ rw (count-remove v e, e) refl
]

contents-remove :
    {q : Queue}
    → IsValid q
    → q.is_empty ≡ false
    → contents q ≡ get_or q.buf q.first 0 ∷ contents (remove q).1
unfolding remove
contents-remove {q} v e = rw (count-remove v e, e) refl

get-false :
    (q : Queue) → q.is_empty ≡ false → get q false ≡ (get_or q.buf q.first 0, true, (remove q).1)
unfolding get
get-false q e = ground (arith)

pub get_refines :
    {q : Queue} (peek : Bool)
    → IsValid q
    → ((get q peek).0, (get q peek).1, contents (get q peek).2) ≡ Fifo.front (contents q) peek
unfolding get Fifo.front
get_refines {q} true v = elim (Bool-cases q.is_empty) [
  | inl e ↦ rw e (ground arith)
  | inr e ↦ ground (arith, contents-remove v)
]
get_refines {q} false v = elim (Bool-cases q.is_empty) [
  | inl e ↦ rw e (ground arith)
  | inr e ↦ rw (get-false q e, contents-remove v e) refl
]

pub size-put : (q : Queue) (x : ℕ) → (put q x).1.size ≡ q.size
unfolding put
size-put q x = ground arith

size-remove : (q : Queue) → (remove q).1.size ≡ q.size
unfolding remove
size-remove q = ground arith

pub size-get : (q : Queue) (p : Bool) → (get q p).2.size ≡ q.size
unfolding get
size-get q p = ground (arith, size-remove q)

-- From a valid circular queue, any sequence of puts, gets, peeks and removes answers what the
-- bounded list of its contents answers, where the bound is the size of the queue.
pub run_refines :
    (ops : List Op) {q : Queue} → IsValid q → run q ops ≡ Fifo.run q.size (contents q) ops
unfolding run Fifo.run
run_refines [] v = refl
run_refines (put_op x ∷ ops) v = rw (run_refines ops (put-IsValid x v), ← put_refines x v, size-put)
run_refines (get_op p ∷ ops) v = rw (run_refines ops (get-IsValid p v), ← get_refines p v, size-get)
run_refines (remove_op ∷ ops) v =
    rw (run_refines ops (remove-IsValid v), ← remove_refines v, size-remove)
