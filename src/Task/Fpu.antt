-- ===== src/Task/Fpu.antt =====
-- The registers of the floating-point unit that the tasks of src/task.c share, and the exception
-- that hands them on. What the instructions of the unit store and load is one number here; `initial`
-- is what FNINIT leaves.
use clubcos.Prelude.{
  ℕ, ◌≡◌, refl, sym, ap, ◌∙◌, inl, inr, Bool, true, false, Option, none, some, arith, ◌==◌,
  if◌then◌else◌, ==_iff, Bool-cases, upd,
}

pub record FpuState : Type 0 where
  pub registers : ℕ
  pub fpu_context : ℕ → ℕ
  pub fpu_used : ℕ → Bool
  pub now : ℕ
  pub last_task_used_fpu : Option ℕ
  pub task_switched : Bool

abbrev pub is_task : ℕ → Option ℕ → Bool
is_task t none = false
is_task t (some l) = l == t

-- `ckFpuFxsave` of the task that has used the unit last.
abbrev pub saved_contexts : Option ℕ → FpuState → ℕ → ℕ
saved_contexts none s = s.fpu_context
saved_contexts (some l) s = upd s.fpu_context l s.registers

unfoldable pub except_int_handler_07 : ℕ → FpuState → FpuState
except_int_handler_07 initial s =
    let contexts = saved_contexts s.last_task_used_fpu s in
    let given = record s {
      task_switched = false;
      fpu_context = contexts;
      last_task_used_fpu = some s.now;
    } in
    if is_task s.now s.last_task_used_fpu
    then record s { task_switched = false }
    else if s.fpu_used s.now
    then record given { registers = contexts s.now }
    else record given { registers = initial; fpu_used = upd s.fpu_used s.now true }

-- What a task has in the unit, wherever it is kept.
unfoldable pub own_registers : ℕ → FpuState → ℕ → ℕ
own_registers initial s t =
    if is_task t s.last_task_used_fpu
    then s.registers
    else if s.fpu_used t
    then s.fpu_context t
    else initial

pub record IsLazy (s : FpuState) : Type 0 where
  pub last_used : (t : ℕ) → is_task t s.last_task_used_fpu ≡ true → s.fpu_used t ≡ true

saved-last :
    (o : Option ℕ) (s : FpuState) (t : ℕ) → is_task t o ≡ true → saved_contexts o s t ≡ s.registers
saved-last none s t h = absurd (ground (arith, h))
saved-last (some l) s t h = ground (arith, h)

saved-other :
    (o : Option ℕ) (s : FpuState) (t : ℕ)
    → is_task t o ≡ false
    → saved_contexts o s t ≡ s.fpu_context t
saved-other none s t h = refl
saved-other (some l) s t h = ground (arith, h)

saved-own :
    (initial : ℕ) (s : FpuState) (t : ℕ)
    → IsLazy s
    → (if s.fpu_used t then saved_contexts s.last_task_used_fpu s t else initial)
      ≡ own_registers initial s t
unfolding own_registers
saved-own initial s t p = elim (Bool-cases (is_task t s.last_task_used_fpu)) [
  | inl last ↦ rw (last, p.last_used t last) (saved-last s.last_task_used_fpu s t last)
  | inr other ↦ rw (other, saved-other s.last_task_used_fpu s t other) refl
]

own-last :
    (initial : ℕ) (s : FpuState) (t : ℕ)
    → is_task t s.last_task_used_fpu ≡ true
    → own_registers initial s t ≡ s.registers
unfolding own_registers
own-last initial s t e = rw e refl

handler-own :
    (initial : ℕ) (s : FpuState) (t : ℕ)
    → IsLazy s
    → own_registers initial (except_int_handler_07 initial s) t ≡ own_registers initial s t
unfolding own_registers except_int_handler_07
handler-own initial s t p = elim (Bool-cases (is_task s.now s.last_task_used_fpu)) [
  | inl same ↦ rw same refl
  | inr new ↦ elim (Bool-cases (s.now == t)) [
    | inl here ↦
        let at : s.now ≡ t = (==_iff s.now t).0 here in
        let last : is_task t s.last_task_used_fpu ≡ false =
          ap (λ q. is_task q s.last_task_used_fpu) (sym at) ∙ new in
        let kept = saved-other s.last_task_used_fpu s s.now new ∙ ap s.fpu_context at in
        elim (Bool-cases (s.fpu_used s.now)) [
          | inl used ↦
              let used_t : s.fpu_used t ≡ true = ap s.fpu_used (sym at) ∙ used in
              rw (new, used, here, last, used_t) kept
          | inr fresh ↦
              let fresh_t : s.fpu_used t ≡ false = ap s.fpu_used (sym at) ∙ fresh in
              rw (new, fresh, here, last, fresh_t) refl
        ]
    | inr other ↦ elim (Bool-cases (s.fpu_used s.now)) [
      | inl used ↦ rw (new, used, other) (saved-own initial s t p)
      | inr fresh ↦ rw (new, fresh, other) (saved-own initial s t p)
    ]
  ]
]

handler-now :
    (initial : ℕ) (s : FpuState)
    → (is_task s.now (except_int_handler_07 initial s).last_task_used_fpu ≡ true)
      × ((except_int_handler_07 initial s).now ≡ s.now)
unfolding except_int_handler_07
handler-now initial s =
    let self : (s.now == s.now) ≡ true = (==_iff s.now s.now).1 refl in
    elim (Bool-cases (is_task s.now s.last_task_used_fpu)) [
      | inl same ↦ rw same (same, refl)
      | inr new ↦ elim (Bool-cases (s.fpu_used s.now)) [
        | inl used ↦ rw (new, used) (self, refl)
        | inr fresh ↦ rw (new, fresh) (self, refl)
      ]
    ]

handler-IsLazy : (initial : ℕ) (s : FpuState) → IsLazy s → IsLazy (except_int_handler_07 initial s)
unfolding except_int_handler_07
handler-IsLazy initial s p = elim (Bool-cases (is_task s.now s.last_task_used_fpu)) [
  | inl same ↦ rw same (record { last_used = p.last_used })
  | inr new ↦ elim (Bool-cases (s.fpu_used s.now)) [
    | inl used ↦
        rw (new, used)
          (record { last_used = λ t e. ap s.fpu_used (sym ((==_iff s.now t).0 e)) ∙ used })
    | inr fresh ↦ rw (new, fresh) (record { last_used = λ t e. ground (arith, e) })
  ]
]

-- If the task that has used the floating-point unit last is marked as a user of it, then it is so
-- after the exception too, the registers of the unit are those of the current task, or the initial
-- ones if it has never used the unit, and what every task has in the unit, in the registers or in
-- its context, is what it had before.
pub except_int_handler_07-IsLazy :
    (initial : ℕ) (s : FpuState)
    → IsLazy s
    → IsLazy (except_int_handler_07 initial s)
      × ((except_int_handler_07 initial s).registers ≡ own_registers initial s s.now)
      × ((t : ℕ)
          → own_registers initial (except_int_handler_07 initial s) t ≡ own_registers initial s t)
except_int_handler_07-IsLazy initial s p =
    let (mine, same) = handler-now initial s in
    (
      handler-IsLazy initial s p,
      sym (own-last initial (except_int_handler_07 initial s) s.now mine)
          ∙ handler-own initial s s.now p,
      λ t. handler-own initial s t p,
    )
