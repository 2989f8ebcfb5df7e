-- ===== src/Keys/Stream.antt =====
-- The scan codes of a sequence of key strokes, read by `csAssembleScanCodeToKeyCode` of src/keys.c.
use clubcos.Keys.{Assembler, key_code, assemble, keycode_pause, keycode_flag_unpush}
use clubcos.Prelude.{
  ℕ, ◌+◌, ◌<◌, ◌≡◌, refl, ap, ◌∙◌, Bool, true, false, not, ◌&&◌, ◌||◌, Option, none, some, List, [],
  ◌∷◌, ◌++◌, map, arith, ltb, ◌==◌, if◌then◌else◌, all_below, all_below_sound,
}

-- A key goes down or up; the pause key has no two events. Its two further bytes may be any.
pub data Stroke : Type 0 where
  plain extended : Bool → ℕ → Stroke
  pause_key : ℕ → ℕ → Stroke

abbrev pub byte_of : Bool → ℕ → ℕ
byte_of down n = if down then n else n + 0x80

-- What the keyboard sends.
abbrev pub encode : Stroke → List ℕ
encode (plain down n) = byte_of down n ∷ []
encode (extended down n) = 0xe0 ∷ byte_of down n ∷ []
encode (pause_key a b) = 0xe1 ∷ a ∷ b ∷ []

-- The numbers are those of keys: seven bits, and not a prefix when the key is let go.
abbrev pub is_stroke : Stroke → Bool
is_stroke (plain down n) = ltb n 0x80 && (down || not ((n == 0x60) || (n == 0x61)))
is_stroke (extended down n) = ltb n 0x80
is_stroke (pause_key a b) = true

abbrev unpush : Bool → ℕ → ℕ
unpush down code = if down then code else code + keycode_flag_unpush

-- Extended keys follow the others in the table from 0x59 on.
abbrev pub code_of : Stroke → ℕ
code_of (plain down n) = unpush down n
code_of (extended down n) = unpush down (n + 0x3d)
code_of (pause_key a b) = keycode_pause

unfoldable pub assemble_all : List ℕ → Assembler → List ℕ × Assembler
assemble_all [] a = ([], a)
assemble_all (x ∷ xs) a =
    let (code, a') = assemble x a in
    let (codes, a'') = assemble_all xs a' in (elim code [ none ↦ codes | some c ↦ c ∷ codes ], a'')

abbrev pub encode_all : List Stroke → List ℕ
encode_all [] = []
encode_all (k ∷ ks) = encode k ++ encode_all ks

abbrev pub are_strokes : List Stroke → Bool
are_strokes [] = true
are_strokes (k ∷ ks) = is_stroke k && are_strokes ks

abbrev pub idle : Assembler
idle = record { extern_code = false; pause = false; skip_for_pause = 0 }

code_check : ℕ → Bool
unfolding key_code
code_check n =
    (key_code n false false == n)
    && (key_code (n + 0x80) false false == n + 0x100)
    && (key_code n true false == n + 0x3d)
    && (key_code (n + 0x80) true false == n + 0x13d)

code_table : all_below 0x80 code_check ≡ true
unfolding all_below code_check
code_table = refl

key_code_lem :
    (n : ℕ)
    → n < 0x80
    → (key_code n false false ≡ n)
      × (key_code (n + 0x80) false false ≡ n + 0x100)
      × (key_code n true false ≡ n + 0x3d)
      × (key_code (n + 0x80) true false ≡ n + 0x13d)
unfolding code_check
key_code_lem n lt = ground (arith, all_below_sound 0x80 code_check n code_table lt)

assemble-plain :
    (x : ℕ)
    → (x == 0xe1) ≡ false
    → (x == 0xe0) ≡ false
    → assemble x idle ≡ (some (key_code x false false), idle)
unfolding assemble
assemble-plain x e f = rw (e, f) refl

complete :
    (x : ℕ) (rest : List ℕ) (c : ℕ)
    → assemble x idle ≡ (some c, idle)
    → assemble_all (x ∷ rest) idle ≡ (c ∷ (assemble_all rest idle).0, (assemble_all rest idle).1)
unfolding assemble_all
complete x rest c e =
    ap
      (λ (r : Option ℕ × Assembler). (
        elim r.0 [ none ↦ (assemble_all rest r.1).0 | some d ↦ d ∷ (assemble_all rest r.1).0 ],
        (assemble_all rest r.1).1,
      ))
      e

assemble-encode :
    (k : Stroke) (rest : List ℕ)
    → is_stroke k ≡ true
    → assemble_all (encode k ++ rest) idle
      ≡ (code_of k ∷ (assemble_all rest idle).0, (assemble_all rest idle).1)
unfolding assemble_all assemble
assemble-encode (plain true n) rest h = complete n rest _ (
    assemble-plain n (ground (arith, h)) (ground (arith, h))
    ∙ rw ((key_code_lem n (ground (arith, h))).0) refl)
assemble-encode (plain false n) rest h = complete (n + 0x80) rest _ (
    assemble-plain (n + 0x80) (ground (arith, h)) (ground (arith, h))
    ∙ rw ((key_code_lem n (ground (arith, h))).1) refl)
assemble-encode (extended true n) rest h = rw ((key_code_lem n (ground (arith, h))).2) refl
assemble-encode (extended false n) rest h =
    let e : n + 0x3d + 0x100 ≡ n + 0x13d = omega arith in
    rw ((key_code_lem n (ground (arith, h))).3, e) refl
assemble-encode (pause_key a b) rest h = refl

-- From its idle state, `csAssembleScanCodeToKeyCode` turns the scan codes of any sequence of
-- strokes (plain and extended keys going down and up, and the three bytes of the pause key) into
-- exactly their key codes, in order, and is idle again. The strokes have seven-bit numbers, and no
-- plain key that is let go has the number 0x60 or 0x61, whose codes are prefixes.
pub assemble_all-encode_all :
    (ks : List Stroke)
    → are_strokes ks ≡ true
    → assemble_all (encode_all ks) idle ≡ (map code_of ks, idle)
unfolding assemble_all
assemble_all-encode_all [] h = refl
assemble_all-encode_all (k ∷ ks) h =
    assemble-encode k (encode_all ks) (ground (arith, h))
    ∙ rw (assemble_all-encode_all ks (ground (arith, h))) refl
