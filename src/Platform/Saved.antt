-- ===== src/Platform/Saved.antt =====
-- The file that the simulator leaves at its end: sim_state.cc, and its memory banks as platform.cc names them. The file is
-- the sequence of its writes, and after them what it held there before, since it is opened without O_TRUNC. What `read` of a register gives is written out; the file's name is the host's.
pub mod Names
pub mod Ram
use mr_iss.Mmu.State.{Mmu}
use mr_iss.Mmu.Regs.{
  get_ibat_upper, get_ibat_lower, get_dbat_upper, get_dbat_lower, get_segment_reg,
}
use mr_iss.Cpu.State.{Cpu, get_tb}
use mr_iss.Host.Management.{codes}
use mr_iss.Base.{
  ℕ, zero, suc, ◌+◌, ◌-◌, ◌/◌, ◌%◌, bit_or, Bool, true, false, List, [], ◌∷◌, ◌++◌, if◌then◌else◌,
  truthy, to_int, u32, ◌>>=◌, Outcome, done,
}

-- A write: a header of a chunk (`ss_chunk_t`), or a block of memory as its words of 64 bits.
pub data Item : Type 0 where
  header : List ℕ → ℕ → ℕ → Item
  block : (ℕ → ℕ) → Item

abbrev first : ℕ → List ℕ → List ℕ
first zero bytes = []
first (suc n) [] = 0 ∷ first n []
first (suc n) (b ∷ bs) = b ∷ first n bs

-- `strncpy` of eight bytes.
abbrev pub name8 : List ℕ → List ℕ
name8 name = first 8 name

-- `SAVE_REG_CHUNK`.
abbrev pub reg_chunk : List ℕ → ℕ → Item
reg_chunk name value = header (name8 name) 8 value

-- `%d` and `%02d` of a number below 100.
abbrev digit_of : ℕ → ℕ
digit_of n = 0x30 + n % 10

abbrev pub two_digits : ℕ → List ℕ
two_digits n = digit_of (n / 10) ∷ digit_of n ∷ []

-- The loop over the general registers, `left` of them from `i` on.
abbrev pub gpr_chunks : ℕ → ℕ → Cpu → List Item
gpr_chunks zero i c = []
gpr_chunks (suc left) i c =
    reg_chunk (codes "GPR" ++ two_digits i) (c.gprs i) ∷ gpr_chunks left (suc i) c

abbrev core_chunks : Cpu → List Item
core_chunks c =
    reg_chunk (codes "PC") c.pc
    ∷ reg_chunk (codes "CTR") c.ctr
    ∷ reg_chunk (codes "LR") c.lr
    ∷ reg_chunk (codes "XER") c.xer
    ∷ reg_chunk (codes "CR") c.cr
    ∷ reg_chunk (codes "MSR") c.msr
    ∷ reg_chunk (codes "HID0") c.hid0
    ∷ reg_chunk (codes "HID1") c.hid1
    ∷ reg_chunk (codes "SPRG0") c.sprg0
    ∷ reg_chunk (codes "SPRG1") c.sprg1
    ∷ reg_chunk (codes "SPRG2") c.sprg2
    ∷ reg_chunk (codes "SPRG3") c.sprg3
    ∷ reg_chunk (codes "SRR0") c.srr0
    ∷ reg_chunk (codes "SRR1") c.srr1
    ∷ reg_chunk (codes "DAR") c.dar
    ∷ reg_chunk (codes "DSISR") c.dsisr
    ∷ reg_chunk (codes "DEC") c.dec
    ∷ reg_chunk (codes "TB") (get_tb c)
    ∷ reg_chunk (codes "SDR1") c.sdr1
    ∷ []

abbrev sr_chunks : ℕ → ℕ → Mmu → Outcome (List Item)
sr_chunks zero i m = done []
sr_chunks (suc left) i m = get_segment_reg m i >>= λ v.
    sr_chunks left (suc i) m >>= λ rest. done (reg_chunk (codes "SR" ++ two_digits i) v ∷ rest)

abbrev bat_chunks : ℕ → ℕ → Mmu → Outcome (List Item)
bat_chunks zero i m = done []
bat_chunks (suc left) i m = get_ibat_upper m i >>= λ iu. get_ibat_lower m i >>= λ il.
    get_dbat_upper m i >>= λ du. get_dbat_lower m i >>= λ dl. bat_chunks left (suc i) m >>= λ rest.
    done (
      reg_chunk (codes "IBAT" ++ (digit_of i ∷ codes "U")) iu
      ∷ reg_chunk (codes "IBAT" ++ (digit_of i ∷ codes "L")) il
      ∷ reg_chunk (codes "DBAT" ++ (digit_of i ∷ codes "U")) du
      ∷ reg_chunk (codes "DBAT" ++ (digit_of i ∷ codes "L")) dl
      ∷ rest)

-- The registers but for the general ones.
pub other_regs : Cpu → Mmu → Outcome (List Item)
unfolding get_segment_reg get_ibat_upper get_ibat_lower get_dbat_upper get_dbat_lower get_tb
other_regs c m = sr_chunks 16 0 m >>= λ srs. bat_chunks 4 0 m >>= λ bats.
    done (core_chunks c ++ (srs ++ (bats ++ (reg_chunk (codes "IRQ") (to_int c.irq_flag) ∷ []))))

-- The registers' part.
pub saved_regs : Cpu → Mmu → Outcome (List Item)
unfolding other_regs
saved_regs c m = other_regs c m >>= λ rest. done (gpr_chunks 32 0 c ++ rest)

-- `meminfo_t`, with the bank's memory by words of 64 bits.
pub record Bank : Type 0 where
  pub ram_pa_base : ℕ
  pub ram_size : ℕ
  pub words : ℕ → ℕ

-- `STS_MEM_CHUNK_SZ`, in bytes.
abbrev pub chunk_sz : ℕ
chunk_sz = 0x20_0000

-- All words of a chunk, joined by `|`.
pub joined : ℕ → (ℕ → ℕ) → ℕ
joined zero w = 0
joined (suc n) w = bit_or (joined n w) (w n)

-- A chunk of `n` words, to be loaded at `addr`: one of zeros is left out.
pub put_chunk : ℕ → ℕ → (ℕ → ℕ) → List Item → List Item
unfolding joined
put_chunk n addr w rest =
    if truthy (joined n w)
    then header (name8 (codes "MEMBLK")) (8 + chunk_sz) addr ∷ block w ∷ rest
    else rest

-- The loop over a bank from byte `i` on, for `left` chunks.
pub bank_chunks : ℕ → ℕ → Bank → List Item
bank_chunks zero i bank = []
bank_chunks (suc left) i bank =
    put_chunk (chunk_sz / 8) (u32 (bank.ram_pa_base + i)) (λ j. bank.words (i / 8 + j))
      (bank_chunks left (i + chunk_sz) bank)

-- The chunks of a bank: as many as `i < ram_size` allows.
abbrev pub chunk_count : Bank → ℕ
chunk_count bank = (bank.ram_size + (chunk_sz - 1)) / chunk_sz

pub saved_banks : List Bank → List Item
unfolding bank_chunks
saved_banks [] = []
saved_banks (b ∷ bs) = bank_chunks (chunk_count b) 0 b ++ saved_banks bs

-- The writes up to the first that fails, and whether none did. `works` is the host's answer to each.
pub write_all : (ℕ → Bool) → ℕ → List Item → List Item × Bool
write_all works n [] = ([], true)
write_all works n (i ∷ is) =
    let rest = write_all works (suc n) is in if works n then (i ∷ rest.0, rest.1) else ([], false)

-- The bytes of the writes.
abbrev pub size : List Item → ℕ
size [] = 0
size (header n len d ∷ is) = 24 + size is
size (block w ∷ is) = chunk_sz + size is

abbrev pub drop : ℕ → List ℕ → List ℕ
drop zero bytes = bytes
drop (suc n) [] = []
drop (suc n) (b ∷ bs) = drop n bs

-- The file: what was written from its start on, and the bytes that it still has after that.
pub record File : Type 0 where
  pub items : List Item
  pub tail : List ℕ

pub over : List ℕ → List Item × Bool → File × Bool
over old (is, whole) = (record { items = is; tail = drop (size is) old }, whole)

-- `state_save_open` with a file that opens and has the bytes `old`: what the file has then, and whether it is left open.
pub state_save_open : (ℕ → Bool) → List ℕ → Cpu → Mmu → List Bank → Outcome (File × Bool)
unfolding saved_regs saved_banks write_all over
state_save_open works old c m banks =
    saved_regs c m >>= λ regs. done (over old (write_all works 0 (regs ++ saved_banks banks)))
