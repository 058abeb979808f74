-- ===== src/Interp/Branch.antt =====
-- PPCInterpreter_Branch.cc. A displacement is the decoder's field, not yet sign-extended.
pub mod Laws
use mr_iss.Base.{
  ℕ, ◌+◌, bit_and, Bool, ◌&&◌, ◌||◌, leb, ◌==◌, if◌then◌else◌, truthy, bool_eq, u16, u32, ◌<<<◌,
  sub32, clear32,
}
use mr_iss.Cpu.State.{Cpu, inc_pc}
use mr_iss.Interp.Macros.{sra}
use mr_iss.Interp.State.{Interp, sim_quit, op_unk, with_cpu, get_crb}

abbrev link : Cpu → Bool → Cpu
link c lk = if lk then record c { lr = u32 (c.pc + 4) } else c

abbrev jump : Cpu → Bool → ℕ → Cpu
jump c branch dest = if branch then record c { pc = dest } else inc_pc c

-- `(int32_t)(LI << 6) >> 6`, and `(int32_t)(int16_t)BD`.
abbrev sxt26 : ℕ → ℕ
sxt26 li = sra (u32 (li <<< 6)) 6

abbrev pub sxt16 : ℕ → ℕ
sxt16 x = if leb 0x8000 (u16 x) then 0xffff_0000 + u16 x else u16 x

-- A branch to itself asks the run to stop, and is taken all the same.
pub op_b : Interp → ℕ → Bool → Bool → Interp
unfolding sim_quit sra
op_b p li aa lk =
    let c = p.core.cpu in
    let offset = sxt26 li in
    let dest = if aa then offset else u32 (c.pc + offset) in
    let q = if dest == c.pc then sim_quit p else p in with_cpu q (record (link c lk) { pc = dest })

-- The condition and the counter of a conditional branch.
pub count_down : Cpu → ℕ → Cpu
count_down c bo = if truthy (bit_and bo 0x04) then c else record c { ctr = sub32 c.ctr 1 }

pub branch_taken : Cpu → ℕ → ℕ → Bool
unfolding get_crb
branch_taken c bo bi =
    let condition = truthy (bit_and bo 0x10) || bool_eq (get_crb c bi) (truthy (bit_and bo 0x08)) in
    if truthy (bit_and bo 0x04)
    then condition
    else condition && bool_eq (sub32 c.ctr 1 == 0) (truthy (bit_and bo 0x02))

pub op_bc : Cpu → ℕ → ℕ → ℕ → Bool → Bool → Cpu
unfolding count_down branch_taken inc_pc
op_bc c bo bi bd aa lk =
    let offset = sxt16 bd in
    let dest = if aa then offset else u32 (c.pc + offset) in
    jump (link (count_down c bo) lk) (branch_taken c bo bi) dest

pub op_bclr : Cpu → ℕ → ℕ → Bool → Cpu
unfolding count_down branch_taken inc_pc
op_bclr c bo bi lk =
    let dest = clear32 c.lr 3 in jump (link (count_down c bo) lk) (branch_taken c bo bi) dest

-- The form that would count down is not valid.
unfoldable op_bcctr : Interp → ℕ → ℕ → Bool → Interp
unfolding op_unk branch_taken inc_pc
op_bcctr p bo bi lk =
    let c = p.core.cpu in
    if truthy (bit_and bo 0x04)
    then with_cpu p (jump (link c lk) (branch_taken c bo bi) (clear32 c.ctr 3))
    else op_unk p
