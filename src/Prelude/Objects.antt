-- ===== src/Prelude/Objects.antt =====
-- The kernel's linked objects in memory. A pointer is a number; the words of the object at a
-- pointer are functions of it, so that objects at different pointers never overlap.
-- `LinkedListNode` is `pNext`, `pPrev`; `LinkedList` is such a node with `size` behind it; `TimeOut`
-- begins with a union of a node and `pNextTimeOut`, with `timeout` behind it. So `pNext` and
-- `pNextTimeOut` are one word, and so are `size` and `timeout`.
use Prim.Native.Nat.{ℕ}
use clubcos.Prelude.Tests.{◌==◌, if◌then◌else◌}

pub record Store : Type 0 where
  pub next : ℕ → ℕ
  pub prev : ℕ → ℕ
  pub third : ℕ → ℕ

-- A write of one word.
abbrev pub upd {ℓ} : {A : Type ℓ} → (ℕ → A) → ℕ → A → ℕ → A
upd f p v q = if p == q then v else f q
