-- ===== src/Jit/Emit/Laws.antt =====
-- The call of a routine by its emitter (blockgen.cc): what the machine does over the emitted bytes.
use mr_iss.Jit.Emit.{
  Gen, Site, plain, int, int_int, int_int_int, int_int_int_int, int_int_int_int_int,
  int_int_int_int_int_int, int_int_s16, int_int_u16, int_s16_int, int_u16_int, u32_int_int, of_u8,
  of_u32, emit, get_rel_addr, generate,
}
use mr_iss.Jit.Emit.X86.{
  Insn, esi, edx, ecx, r8d, r9d, mov_rdi_rbx, grow, shrink, load, store, call,
}
use mr_iss.Jit.Emit.Machine.{Call, Machine, sign_extend}
use mr_iss.Jit.Emit.Code.{assemble, effects}
use mr_iss.Base.{
  ℕ, ◌+◌, ◌^◌, ◌≤◌, ◌<◌, ◌≡◌, refl, inl, inr, List, [], ◌∷◌, arith, ltb, Bool-cases, length, All,
  u8, u16, u32, u64,
}

-- The routine of a call site, and its arguments as 32-bit words.
abbrev pub routine : Site → ℕ
routine (plain addr) = addr
routine (int addr a) = addr
routine (int_int addr a b) = addr
routine (int_int_int addr a b c) = addr
routine (int_int_int_int addr a b c d) = addr
routine (int_int_int_int_int addr a b c d e) = addr
routine (int_int_int_int_int_int addr a b c d e f) = addr
routine (int_int_s16 addr a b c) = addr
routine (int_int_u16 addr a b c) = addr
routine (int_s16_int addr a b c) = addr
routine (int_u16_int addr a b c) = addr
routine (u32_int_int addr a b c) = addr
routine (of_u8 addr a) = addr
routine (of_u32 addr a) = addr

abbrev pub values : Site → List ℕ
values (plain addr) = []
values (int addr a) = a ∷ []
values (int_int addr a b) = a ∷ b ∷ []
values (int_int_int addr a b c) = a ∷ b ∷ c ∷ []
values (int_int_int_int addr a b c d) = a ∷ b ∷ c ∷ d ∷ []
values (int_int_int_int_int addr a b c d e) = a ∷ b ∷ c ∷ d ∷ e ∷ []
values (int_int_int_int_int_int addr a b c d e f) = a ∷ b ∷ c ∷ d ∷ e ∷ f ∷ []
values (int_int_s16 addr a b c) = a ∷ b ∷ u16 c ∷ []
values (int_int_u16 addr a b c) = a ∷ b ∷ u16 c ∷ []
values (int_s16_int addr a b c) = a ∷ u16 b ∷ c ∷ []
values (int_u16_int addr a b c) = a ∷ u16 b ∷ c ∷ []
values (u32_int_int addr a b c) = a ∷ b ∷ c ∷ []
values (of_u8 addr a) = u8 a ∷ []
values (of_u32 addr a) = u32 a ∷ []

-- The instructions of a call with these arguments, and the bytes before the call itself.
abbrev pub body : ℕ → List ℕ → List Insn
body rel [] = mov_rdi_rbx ∷ call rel ∷ []
body rel (a ∷ []) = mov_rdi_rbx ∷ load esi a ∷ call rel ∷ []
body rel (a ∷ b ∷ []) = mov_rdi_rbx ∷ load esi a ∷ load edx b ∷ call rel ∷ []
body rel (a ∷ b ∷ c ∷ []) = mov_rdi_rbx ∷ load esi a ∷ load edx b ∷ load ecx c ∷ call rel ∷ []
body rel (a ∷ b ∷ c ∷ d ∷ []) =
    mov_rdi_rbx ∷ load esi a ∷ load edx b ∷ load ecx c ∷ load r8d d ∷ call rel ∷ []
body rel (a ∷ b ∷ c ∷ d ∷ e ∷ []) =
    mov_rdi_rbx ∷ load esi a ∷ load edx b ∷ load ecx c ∷ load r8d d ∷ load r9d e ∷ call rel ∷ []
body rel (a ∷ b ∷ c ∷ d ∷ e ∷ f ∷ _) =
    grow
    ∷ store f
    ∷ mov_rdi_rbx
    ∷ load esi a
    ∷ load edx b
    ∷ load ecx c
    ∷ load r8d d
    ∷ load r9d e
    ∷ call rel
    ∷ shrink
    ∷ []

abbrev pub offset : List ℕ → ℕ
offset [] = 3
offset (a ∷ []) = 8
offset (a ∷ b ∷ []) = 13
offset (a ∷ b ∷ c ∷ []) = 18
offset (a ∷ b ∷ c ∷ d ∷ []) = 24
offset (a ∷ b ∷ c ∷ d ∷ e ∷ []) = 30
offset (a ∷ b ∷ c ∷ d ∷ e ∷ f ∷ _) = 42

abbrev pub site_code : ℕ → Site → List ℕ
site_code place s =
    assemble (body (get_rel_addr (place + offset (values s)) (routine s)) (values s))

-- Each emitter emits those instructions.
pub generate-emit : (g : Gen) (s : Site) → generate g s ≡ emit g (site_code g.place s)
unfolding generate
generate-emit g (plain addr) = refl
generate-emit g (int addr a) = refl
generate-emit g (int_int addr a b) = refl
generate-emit g (int_int_int addr a b c) = refl
generate-emit g (int_int_int_int addr a b c d) = refl
generate-emit g (int_int_int_int_int addr a b c d e) = refl
generate-emit g (int_int_int_int_int_int addr a b c d e f) = refl
generate-emit g (int_int_s16 addr a b c) = refl
generate-emit g (int_int_u16 addr a b c) = refl
generate-emit g (int_s16_int addr a b c) = refl
generate-emit g (int_u16_int addr a b c) = refl
generate-emit g (u32_int_int addr a b c) = refl
generate-emit g (of_u8 addr a) = refl
generate-emit g (of_u32 addr a) = refl

-- The routine is in reach of a call with a 32-bit distance.
abbrev pub InReach : ℕ → ℕ → Type 0
InReach here addr = (addr < 2 ^ 64) × (here + 5 ≤ addr + 2 ^ 31) × (addr < here + 5 + 2 ^ 31)

pub reaches :
    (here addr : ℕ)
    → InReach here addr
    → u64 (here + 5 + sign_extend (get_rel_addr here addr)) ≡ addr
reaches here addr (h, k, l) = elim (Bool-cases (ltb (get_rel_addr here addr) (2 ^ 31))) [
  | inl e ↦ rw e (ground arith)
  | inr e ↦ rw e (ground arith)
]

-- The registers that a callee keeps, and the stack, are the same.
pub record Kept (m n : Machine) : Type 0 where
  pub rbx : n.rbx ≡ m.rbx
  pub rbp : n.rbp ≡ m.rbp
  pub r12 : n.r12 ≡ m.r12
  pub stack : n.stack ≡ m.stack

abbrev Begins : List ℕ → List ℕ → Type 0
Begins xs [] = Unit
Begins [] (v ∷ vs) = ⊥
Begins (x ∷ xs) (v ∷ vs) = (x ≡ v) × Begins xs vs

-- A call of this routine for this interpreter, with these words as its first arguments.
abbrev pub Makes : ℕ → List ℕ → ℕ → Call → Type 0
Makes addr vs interp c = (c.target ≡ addr) × (c.this ≡ interp) × Begins c.args vs

-- The calls are the old ones and a new one.
abbrev pub Newest : (Call → Type 0) → List Call → List Call → Type 0
Newest P [] old = ⊥
Newest P (c ∷ cs) old = P c × (cs ≡ old)

unsigned : (v : ℕ) → v < 2 ^ 32 → u32 (sign_extend v) ≡ v
unsigned v h = ground arith

moved :
    (x y rel addr : ℕ)
    → x ≡ y
    → u64 (y + 5 + sign_extend rel) ≡ addr
    → u64 (x + 5 + sign_extend rel) ≡ addr
moved x y rel addr p e = rw p e

module _ (junk : List Call → ℕ → ℕ) where
  abbrev Called : ℕ → List ℕ → ℕ → Machine → Type 0
  Called rel vs addr m =
      let n = effects junk (body rel vs) m in
      Kept m n
      × (n.rip ≡ m.rip + length (assemble (body rel vs)))
      × Newest (Makes addr vs m.rbx) n.calls m.calls

  kept :
      {m n : Machine} → n.rbx ≡ m.rbx → n.rbp ≡ m.rbp → n.r12 ≡ m.r12 → n.stack ≡ m.stack → Kept m n
  kept a b c d = record { rbx = a; rbp = b; r12 = c; stack = d }

  pub body-Called :
      (rel addr : ℕ) (vs : List ℕ) (m : Machine)
      → length vs ≤ 6
      → All (λ v. v < 2 ^ 32) vs
      → u64 (m.rip + offset vs + 5 + sign_extend rel) ≡ addr
      → Called rel vs addr m
  body-Called rel addr [] m k h q = (kept refl refl refl refl, omega arith, ((q, refl, tt), refl))
  body-Called rel addr (a ∷ []) m k h q = (
    kept refl refl refl refl,
    omega arith,
    ((moved _ (m.rip + 8) rel addr (omega arith) q, refl, (refl, tt)), refl),
  )
  body-Called rel addr (a ∷ b ∷ []) m k h q = (
    kept refl refl refl refl,
    omega arith,
    ((moved _ (m.rip + 13) rel addr (omega arith) q, refl, (refl, (refl, tt))), refl),
  )
  body-Called rel addr (a ∷ b ∷ c ∷ []) m k h q = (
    kept refl refl refl refl,
    omega arith,
    ((moved _ (m.rip + 18) rel addr (omega arith) q, refl, (refl, (refl, (refl, tt)))), refl),
  )
  body-Called rel addr (a ∷ b ∷ c ∷ d ∷ []) m k h q = (
    kept refl refl refl refl,
    omega arith,
    (
      (moved _ (m.rip + 24) rel addr (omega arith) q, refl, (refl, (refl, (refl, (refl, tt))))),
      refl,
    ),
  )
  body-Called rel addr (a ∷ b ∷ c ∷ d ∷ e ∷ []) m k h q = (
    kept refl refl refl refl,
    omega arith,
    (
      (
        moved _ (m.rip + 30) rel addr (omega arith) q,
        refl,
        (refl, (refl, (refl, (refl, (refl, tt))))),
      ),
      refl,
    ),
  )
  body-Called rel addr (a ∷ b ∷ c ∷ d ∷ e ∷ f ∷ []) m k h q = (
    kept refl refl refl refl,
    omega arith,
    (
      (
        moved _ (m.rip + 42) rel addr (omega arith) q,
        refl,
        (refl, (refl, (refl, (refl, (refl, (unsigned f h.1.1.1.1.1.0, tt)))))),
      ),
      refl,
    ),
  )
  body-Called rel addr (a ∷ b ∷ c ∷ d ∷ e ∷ f ∷ g ∷ vs) m k h q = absurd (omega arith)
