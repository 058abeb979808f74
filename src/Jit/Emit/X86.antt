-- ===== src/Jit/Emit/X86.antt =====
-- The x86 instructions that the emitters use: their bytes, what reads them back from memory, and what they do to the
-- registers and the stack. It is written from the instructions' meaning, apart from the emitters.
use mr_iss.Jit.Emit.{le32}
use mr_iss.Base.{
  ℕ, ◌+◌, ◌*◌, ◌^◌, ◌<◌, ◌≡◌, ◌&&◌, Option, none, some, List, [], ◌∷◌, arith, ◌==◌, if◌then◌else◌,
  switch, length, get_or, u8, ◌>>>◌,
}

-- The registers that a constant is loaded into, and those that are saved.
pub data Slot : Type 0 where
  esi edx ecx r8d r9d eax : Slot

pub data Saved : Type 0 where
  rbp r12 rbx : Saved

-- `grow` and `shrink` move rsp by 16 bytes, `store` writes the slot at rsp, and `call` has a distance.
pub data Insn : Type 0 where
  mov_rdi_rbx mov_rbx_rdi mov_rbp_rsp grow shrink ret : Insn
  load : Slot → ℕ → Insn
  push pop : Saved → Insn
  store call : ℕ → Insn

abbrev pub encode : Insn → List ℕ
encode mov_rdi_rbx = 0x48 ∷ 0x89 ∷ 0xdf ∷ []
encode mov_rbx_rdi = 0x48 ∷ 0x89 ∷ 0xfb ∷ []
encode mov_rbp_rsp = 0x48 ∷ 0x89 ∷ 0xe5 ∷ []
encode grow = 0x48 ∷ 0x83 ∷ 0xec ∷ 0x10 ∷ []
encode shrink = 0x48 ∷ 0x83 ∷ 0xc4 ∷ 0x10 ∷ []
encode ret = 0xc3 ∷ []
encode (load esi v) = 0xbe ∷ le32 v
encode (load edx v) = 0xba ∷ le32 v
encode (load ecx v) = 0xb9 ∷ le32 v
encode (load eax v) = 0xb8 ∷ le32 v
encode (load r8d v) = 0x41 ∷ 0xb8 ∷ le32 v
encode (load r9d v) = 0x41 ∷ 0xb9 ∷ le32 v
encode (push rbp) = 0x55 ∷ []
encode (push rbx) = 0x53 ∷ []
encode (push r12) = 0x41 ∷ 0x54 ∷ []
encode (pop rbp) = 0x5d ∷ []
encode (pop rbx) = 0x5b ∷ []
encode (pop r12) = 0x41 ∷ 0x5c ∷ []
encode (store v) = 0x48 ∷ 0xc7 ∷ 0x04 ∷ 0x24 ∷ le32 v
encode (call rel) = 0xe8 ∷ le32 rel

-- A little-endian word of memory.
abbrev word_at : (ℕ → ℕ) → ℕ → ℕ → ℕ
word_at f a k =
    f (a + k) + 2 ^ 8 * f (a + (k + 1)) + 2 ^ 16 * f (a + (k + 2)) + 2 ^ 24 * f (a + (k + 3))

decode_48 : (ℕ → ℕ) → ℕ → Option Insn
decode_48 f a =
    if f (a + 1) == 0x89
    then switch (f (a + 2))
        ((0xdf, some mov_rdi_rbx) ∷ (0xfb, some mov_rbx_rdi) ∷ (0xe5, some mov_rbp_rsp) ∷ []) none
    else if f (a + 1) == 0x83 && f (a + 3) == 0x10
    then switch (f (a + 2)) ((0xec, some grow) ∷ (0xc4, some shrink) ∷ []) none
    else if (f (a + 1) == 0xc7 && f (a + 2) == 0x04) && f (a + 3) == 0x24
    then some (store (word_at f a 4))
    else none

decode_41 : (ℕ → ℕ) → ℕ → Option Insn
decode_41 f a =
    switch (f (a + 1))
      ((0xb8, some (load r8d (word_at f a 2)))
        ∷ (0xb9, some (load r9d (word_at f a 2)))
        ∷ (0x54, some (push r12))
        ∷ (0x5c, some (pop r12))
        ∷ [])
      none

-- The instruction at an address.
pub decode : (ℕ → ℕ) → ℕ → Option Insn
unfolding decode_48 decode_41
decode f a =
    switch (f (a + 0))
      ((0x48, decode_48 f a)
        ∷ (0x41, decode_41 f a)
        ∷ (0xbe, some (load esi (word_at f a 1)))
        ∷ (0xba, some (load edx (word_at f a 1)))
        ∷ (0xb9, some (load ecx (word_at f a 1)))
        ∷ (0xb8, some (load eax (word_at f a 1)))
        ∷ (0x55, some (push rbp))
        ∷ (0x53, some (push rbx))
        ∷ (0x5d, some (pop rbp))
        ∷ (0x5b, some (pop rbx))
        ∷ (0xe8, some (call (word_at f a 1)))
        ∷ (0xc3, some ret)
        ∷ [])
      none

-- The bytes stand in memory from an address on.
abbrev pub Holds : (ℕ → ℕ) → ℕ → List ℕ → Type 0
Holds f a bs = (i : ℕ) → i < length bs → f (a + i) ≡ get_or bs i 0

-- A constant is one of 32 bits.
abbrev pub Fits : Insn → Type 0
Fits (load s v) = v < 2 ^ 32
Fits (store v) = v < 2 ^ 32
Fits (call rel) = rel < 2 ^ 32
Fits i = Unit

word_at-le32 :
    (f : ℕ → ℕ) (a k v : ℕ)
    → v < 2 ^ 32
    → f (a + k) ≡ u8 v
    → f (a + (k + 1)) ≡ u8 (v >>> 8)
    → f (a + (k + 2)) ≡ u8 (v >>> 16)
    → f (a + (k + 3)) ≡ u8 (v >>> 24)
    → word_at f a k ≡ v
word_at-le32 f a k v w p q r s = omega arith

-- The constant of an instruction whose opcode has one byte, two and four.
after_1 : (f : ℕ → ℕ) (a b v : ℕ) → v < 2 ^ 32 → Holds f a (b ∷ le32 v) → word_at f a 1 ≡ v
after_1 f a b v k h =
    word_at-le32 f a 1 v k (h 1 (omega arith)) (h 2 (omega arith)) (h 3 (omega arith))
      (h 4 (omega arith))

after_2 : (f : ℕ → ℕ) (a b c v : ℕ) → v < 2 ^ 32 → Holds f a (b ∷ c ∷ le32 v) → word_at f a 2 ≡ v
after_2 f a b c v k h =
    word_at-le32 f a 2 v k (h 2 (omega arith)) (h 3 (omega arith)) (h 4 (omega arith))
      (h 5 (omega arith))

after_4 :
    (f : ℕ → ℕ) (a b c d e v : ℕ)
    → v < 2 ^ 32
    → Holds f a (b ∷ c ∷ d ∷ e ∷ le32 v)
    → word_at f a 4 ≡ v
after_4 f a b c d e v k h =
    word_at-le32 f a 4 v k (h 4 (omega arith)) (h 5 (omega arith)) (h 6 (omega arith))
      (h 7 (omega arith))

-- An instruction reads back from the bytes that stand for it.
pub decode-encode :
    (f : ℕ → ℕ) (a : ℕ) (i : Insn) → Fits i → Holds f a (encode i) → decode f a ≡ some i
unfolding decode decode_48 decode_41
decode-encode f a mov_rdi_rbx k h = rw (h 0 (omega arith), h 1 (omega arith), h 2 (omega arith))
decode-encode f a mov_rbx_rdi k h = rw (h 0 (omega arith), h 1 (omega arith), h 2 (omega arith))
decode-encode f a mov_rbp_rsp k h = rw (h 0 (omega arith), h 1 (omega arith), h 2 (omega arith))
decode-encode f a grow k h =
    rw (h 0 (omega arith), h 1 (omega arith), h 2 (omega arith), h 3 (omega arith))
decode-encode f a shrink k h =
    rw (h 0 (omega arith), h 1 (omega arith), h 2 (omega arith), h 3 (omega arith))
decode-encode f a ret k h = rw (h 0 (omega arith))
decode-encode f a (load esi v) k h = rw (h 0 (omega arith), after_1 f a 0xbe v k h)
decode-encode f a (load edx v) k h = rw (h 0 (omega arith), after_1 f a 0xba v k h)
decode-encode f a (load ecx v) k h = rw (h 0 (omega arith), after_1 f a 0xb9 v k h)
decode-encode f a (load eax v) k h = rw (h 0 (omega arith), after_1 f a 0xb8 v k h)
decode-encode f a (load r8d v) k h =
    rw (h 0 (omega arith), h 1 (omega arith), after_2 f a 0x41 0xb8 v k h)
decode-encode f a (load r9d v) k h =
    rw (h 0 (omega arith), h 1 (omega arith), after_2 f a 0x41 0xb9 v k h)
decode-encode f a (push rbp) k h = rw (h 0 (omega arith))
decode-encode f a (push rbx) k h = rw (h 0 (omega arith))
decode-encode f a (push r12) k h = rw (h 0 (omega arith), h 1 (omega arith))
decode-encode f a (pop rbp) k h = rw (h 0 (omega arith))
decode-encode f a (pop rbx) k h = rw (h 0 (omega arith))
decode-encode f a (pop r12) k h = rw (h 0 (omega arith), h 1 (omega arith))
decode-encode f a (store v) k h = rw (
  h 0 (omega arith),
  h 1 (omega arith),
  h 2 (omega arith),
  h 3 (omega arith),
  after_4 f a 0x48 0xc7 0x04 0x24 v k h,
)
decode-encode f a (call rel) k h = rw (h 0 (omega arith), after_1 f a 0xe8 rel k h)
