-- ===== src/Jit/Emit.antt =====
-- The emitters of blockgen.cc: the x86 code of a call of an instruction's routine, and of a block's start and end.
-- `place` is where the bytes go, `len` the room that is left. The traces are left out.
pub mod X86
pub mod Machine
pub mod Code
pub mod Room
pub mod Sites
pub mod Block
pub mod Laws
use mr_iss.Base.{
  ℕ, ◌+◌, ◌-◌, Bool, true, List, [], ◌∷◌, ◌++◌, ltb, ◌==◌, if◌then◌else◌, length, u8, u16, u32,
  ◌>>>◌, sub32,
}

-- `code` is the host's memory by address, of which the code buffer is a part.
pub record Gen : Type 0 where
  pub code : ℕ → ℕ
  pub place : ℕ
  pub len : ℕ
  pub oom_abort : Bool

pub write : (ℕ → ℕ) → ℕ → List ℕ → ℕ → ℕ
write m a [] = m
write m a (b ∷ bs) = write (λ x. if x == a then b else m x) (a + 1) bs

-- `CODE_NEEDS` and `CODE_FINAL`.
pub code_final : Gen → ℕ → Gen
code_final g used =
    if ltb g.len used
    then record g { oom_abort = true }
    else record g { place = g.place + used; len = g.len - used }

-- A run of `INST8` and `INST32` at the place, and its `CODE_FINAL`. The bytes are written before the room is tested.
pub emit : Gen → List ℕ → Gen
unfolding code_final write
emit g bs = code_final (record g { code = write g.code g.place bs }) (length bs)

-- `INST32`.
abbrev pub le32 : ℕ → List ℕ
le32 v = u8 v ∷ u8 (v >>> 8) ∷ u8 (v >>> 16) ∷ u8 (v >>> 24) ∷ []

-- The difference of the pointers, as the low 32 bits of an `int`.
abbrev pub get_rel_addr : ℕ → ℕ → ℕ
get_rel_addr here dest = sub32 (sub32 (u32 dest) (u32 here)) 5

-- The moves that load the arguments: `this` into rdi, then esi, edx, ecx, r8d and r9d.
abbrev this_arg : List ℕ
this_arg = 0x48 ∷ 0x89 ∷ 0xdf ∷ []

abbrev arg_1 : ℕ → List ℕ
arg_1 v = 0xbe ∷ le32 v

abbrev arg_2 : ℕ → List ℕ
arg_2 v = 0xba ∷ le32 v

abbrev arg_3 : ℕ → List ℕ
arg_3 v = 0xb9 ∷ le32 v

abbrev arg_4 : ℕ → List ℕ
arg_4 v = 0x41 ∷ 0xb8 ∷ le32 v

abbrev arg_5 : ℕ → List ℕ
arg_5 v = 0x41 ∷ 0xb9 ∷ le32 v

-- `callq`, `l` bytes after the place.
abbrev call_at : Gen → ℕ → ℕ → List ℕ
call_at g l addr = 0xe8 ∷ le32 (get_rel_addr (g.place + l) addr)

unfoldable generate_call : Gen → ℕ → Gen
unfolding emit
generate_call g addr = emit g (this_arg ++ call_at g 3 addr)

unfoldable generate_call_int : Gen → ℕ → ℕ → Gen
unfolding emit
generate_call_int g addr a1 = emit g (this_arg ++ (arg_1 a1 ++ call_at g 8 addr))

unfoldable generate_call_int_int : Gen → ℕ → ℕ → ℕ → Gen
unfolding emit
generate_call_int_int g addr a1 a2 =
    emit g (this_arg ++ (arg_1 a1 ++ (arg_2 a2 ++ call_at g 13 addr)))

unfoldable generate_call_int_int_int : Gen → ℕ → ℕ → ℕ → ℕ → Gen
unfolding emit
generate_call_int_int_int g addr a1 a2 a3 =
    emit g (this_arg ++ (arg_1 a1 ++ (arg_2 a2 ++ (arg_3 a3 ++ call_at g 18 addr))))

unfoldable generate_call_int_int_int_int : Gen → ℕ → ℕ → ℕ → ℕ → ℕ → Gen
unfolding emit
generate_call_int_int_int_int g addr a1 a2 a3 a4 =
    emit g (this_arg ++ (arg_1 a1 ++ (arg_2 a2 ++ (arg_3 a3 ++ (arg_4 a4 ++ call_at g 24 addr)))))

unfoldable generate_call_int_int_int_int_int : Gen → ℕ → ℕ → ℕ → ℕ → ℕ → ℕ → Gen
unfolding emit
generate_call_int_int_int_int_int g addr a1 a2 a3 a4 a5 = emit g (
    this_arg
    ++ (arg_1 a1 ++ (arg_2 a2 ++ (arg_3 a3 ++ (arg_4 a4 ++ (arg_5 a5 ++ call_at g 30 addr))))))

-- The sixth argument goes to the stack, under which 16 bytes are taken for the call.
unfoldable generate_call_int_int_int_int_int_int : Gen → ℕ → ℕ → ℕ → ℕ → ℕ → ℕ → ℕ → Gen
unfolding emit
generate_call_int_int_int_int_int_int g addr a1 a2 a3 a4 a5 a6 = emit g (
    le32 0x10ec_8348
    ++ (le32 0x2404_c748
        ++ (le32 a6
            ++ (this_arg
                ++ (arg_1 a1
                    ++ (arg_2 a2
                        ++ (arg_3 a3
                            ++ (arg_4 a4
                                ++ (arg_5 a5 ++ (call_at g 42 addr ++ le32 0x10c4_8348))))))))))

-- The calls that the generated switch makes, one constructor for each emitter.
pub data Site : Type 0 where
  plain : ℕ → Site
  int : ℕ → ℕ → Site
  int_int : ℕ → ℕ → ℕ → Site
  int_int_int : ℕ → ℕ → ℕ → ℕ → Site
  int_int_int_int : ℕ → ℕ → ℕ → ℕ → ℕ → Site
  int_int_int_int_int : ℕ → ℕ → ℕ → ℕ → ℕ → ℕ → Site
  int_int_int_int_int_int : ℕ → ℕ → ℕ → ℕ → ℕ → ℕ → ℕ → Site
  int_int_s16 : ℕ → ℕ → ℕ → ℕ → Site
  int_int_u16 : ℕ → ℕ → ℕ → ℕ → Site
  int_s16_int : ℕ → ℕ → ℕ → ℕ → Site
  int_u16_int : ℕ → ℕ → ℕ → ℕ → Site
  u32_int_int : ℕ → ℕ → ℕ → ℕ → Site
  of_u8 : ℕ → ℕ → Site
  of_u32 : ℕ → ℕ → Site

-- A 16-bit argument is passed in the low half of its register.
pub generate : Gen → Site → Gen
unfolding generate_call generate_call_int generate_call_int_int generate_call_int_int_int
    generate_call_int_int_int_int generate_call_int_int_int_int_int
    generate_call_int_int_int_int_int_int
generate g (plain addr) = generate_call g addr
generate g (int addr a) = generate_call_int g addr a
generate g (int_int addr a b) = generate_call_int_int g addr a b
generate g (int_int_int addr a b c) = generate_call_int_int_int g addr a b c
generate g (int_int_int_int addr a b c d) = generate_call_int_int_int_int g addr a b c d
generate g (int_int_int_int_int addr a b c d e) = generate_call_int_int_int_int_int g addr a b c d e
generate g (int_int_int_int_int_int addr a b c d e f) =
    generate_call_int_int_int_int_int_int g addr a b c d e f
generate g (int_int_s16 addr a b c) = generate_call_int_int_int g addr a b (u16 c)
generate g (int_int_u16 addr a b c) = generate_call_int_int_int g addr a b (u16 c)
generate g (int_s16_int addr a b c) = generate_call_int_int_int g addr a (u16 b) c
generate g (int_u16_int addr a b c) = generate_call_int_int_int g addr a (u16 b) c
generate g (u32_int_int addr a b c) = generate_call_int_int_int g addr a b c
generate g (of_u8 addr a) = generate_call_int g addr (u8 a)
generate g (of_u32 addr a) = generate_call_int g addr (u32 a)

-- rbp, r12 and rbx are saved and the interpreter is put in rbx.
unfoldable pub start_block : Gen → Gen
unfolding emit
start_block g = emit g (0x55 ∷ 0x48 ∷ 0x89 ∷ 0xe5 ∷ 0x41 ∷ 0x54 ∷ 0x53 ∷ 0x48 ∷ 0x89 ∷ 0xfb ∷ [])

-- The number of instructions is put in eax and the registers come back.
unfoldable pub finalise_block : Gen → ℕ → Gen
unfolding emit
finalise_block g cur_blk_nr_instrs =
    emit g (0xb8 ∷ le32 cur_blk_nr_instrs ++ (0x5b ∷ 0x41 ∷ 0x5c ∷ 0x5d ∷ 0xc3 ∷ []))
