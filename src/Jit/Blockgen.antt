-- ===== src/Jit/Blockgen.antt =====
-- The generator of blocks (blockgen.cc): `decodeInstrGenerateCall` and `createBlock`. The switch of the first is made by
-- the build; it is the parameter `decode`, which gives the call to plant and the switch's answer, or nothing where no
-- case applies. The loop check, which `false &&` leaves out, the listing of the code and the counters are not modelled.
pub mod Laws
pub mod Create
pub mod Retry
pub mod Found
pub mod Inside
use mr_iss.Base.{
  ℕ, zero, suc, ◌+◌, ◌-◌, bit_and, Bool, true, false, ◌||◌, Option, none, some, ◌==◌, if◌then◌else◌,
  truthy, u32, ◌>>=◌, Outcome, done, fatal,
}
use mr_iss.Memory.{Memory}
use mr_iss.Mmu.State.{Fault}
use mr_iss.Mmu.Walk.{Sys}
use mr_iss.Mmu.Translate.{Access, granted, denied, looping}
use mr_iss.Mmu.Access.{translate, load_inst32}
use mr_iss.Cpu.State.{Cpu, is_privileged}
use mr_iss.Jit.Blockstore.{
  Block, Blockstore, headerlen, reset_blockstore, alloc_block, amend_block_size,
}
use mr_iss.Jit.Emit.{Gen, Site, of_u32, generate, start_block, finalise_block}

-- The store with the host's memory, in which the code buffer starts at an address that does not change.
pub record Jit : Type 0 where
  pub store : Blockstore
  pub code : ℕ → ℕ

-- How the loop of a block ends: with the block's instructions counted, or for want of room.
pub data Ended {ℓ} (S : Type ℓ) : Type ℓ where
  finished : Gen → ℕ → S → Ended S
  out_of_room : Gen → S → Ended S

-- The answer of `createBlock`; `starved` is a `goto retry` with no fuel left.
pub data Created : Type 0 where
  faulted : Created
  created : Block → Created
  starved : Created

-- An instruction is there where its load has no fault.
abbrev pub got : Fault → Option ℕ → Option ℕ
got Fault.none inst = inst
got _ inst = none

-- After an instruction: the counter moves on, and a page's end ends the block too.
abbrev pub must_end : ℕ → ℕ → Bool
must_end ends pc = truthy ends || bit_and pc 0xfff == 0

module _ (decode : ℕ → Option (Site × ℕ)) (op_unk : ℕ) where
  -- The call to plant for an instruction, and how the instruction ends a block: not (0), as a branch (1) or otherwise.
  unfoldable pub planted : ℕ → Site × ℕ
  planted inst = elim (decode inst) [ some r ↦ r | none ↦ (of_u32 op_unk inst, 2) ]

  pub decode_instr_generate_call : Gen → ℕ → Gen × ℕ
  unfolding planted
  decode_instr_generate_call g inst = (generate g (planted inst).0, (planted inst).1)

module _ (buffer : ℕ) where
  -- The generator at the start of a new block's code.
  pub opened : Jit → Block → ℕ → Gen
  opened jit b len = start_block (record {
    code = jit.code;
    place = buffer + (b.place + headerlen);
    len = len;
    oom_abort = false;
  })

-- What follows the loop.
pub close_block : Blockstore → Block → ℕ → Gen → ℕ → Block × Jit
close_block store b len g nr =
    let f = finalise_block g nr in
    (
      record b { codelen = len - f.len },
      record { store = amend_block_size store b (len - f.len); code = f.code },
    )

module _ (mem : Memory) (decode : ℕ → Option (Site × ℕ)) (op_unk : ℕ) where
  -- The loop of `createBlock` with `limit` rounds left, from an instruction that was loaded.
  pub generate_block : ℕ → Gen → Sys mem → Bool → ℕ → ℕ → ℕ → Outcome (Ended (Sys mem))
  unfolding load_inst32 decode_instr_generate_call
  generate_block zero g sys priv pc inst nr = done (finished g nr sys)
  generate_block (suc limit) g sys priv pc inst nr =
      let r = decode_instr_generate_call decode op_unk g inst in
      let next = u32 (pc + 4) in
      let rest : Outcome (Ended (Sys mem)) = load_inst32 mem sys next priv >>= λ l.
      elim (got l.0 l.1) [
        | some inst' ↦ generate_block limit r.0 l.2 priv next inst' (nr + 1)
        | none ↦ done (finished r.0 (nr + 1) l.2)
      ] in
      if r.0.oom_abort
      then done (out_of_room r.0 sys)
      else if must_end r.1 next
      then done (finished r.0 (nr + 1) sys)
      else rest

module _ (mem : Memory) (decode : ℕ → Option (Site × ℕ)) (op_unk buffer : ℕ) where
  -- After the loop: `again` is the `goto retry`, with the store emptied.
  pub ended :
      (Jit → Sys mem → Outcome (Created × Jit × Sys mem))
      → Blockstore
      → Block
      → ℕ
      → Ended (Sys mem)
      → Outcome (Created × Jit × Sys mem)
  unfolding close_block
  ended again store b len (finished g nr s) =
      let (c, jit) = close_block store b len g nr in done (created c, jit, s)
  ended again store b len (out_of_room g s) =
      again (record { store = reset_blockstore store; code = g.code }) s

  pub fill_block :
      (Jit → Sys mem → Outcome (Created × Jit × Sys mem))
      → Jit
      → Cpu
      → ℕ
      → ℕ
      → Sys mem
      → Outcome (Created × Jit × Sys mem)
  unfolding generate_block opened ended
  fill_block again jit cpu pc_pa inst s =
      let (b, len, store) = alloc_block jit.store cpu.pc pc_pa cpu.msr in
      generate_block mem decode op_unk 1000 (opened buffer jit b len) s (is_privileged cpu) cpu.pc
        inst 0
      >>= ended again store b len

  -- With what the counter translates to.
  pub translated :
      (Jit → Sys mem → Outcome (Created × Jit × Sys mem))
      → Jit
      → Cpu
      → ℕ
      → Access × Sys mem
      → Outcome (Created × Jit × Sys mem)
  unfolding fill_block
  translated again jit cpu inst (denied f, s) = done (faulted, jit, s)
  translated again jit cpu inst (looping, s) = fatal
  translated again jit cpu inst (granted pa, s) = fill_block again jit cpu (u32 pa) inst s

  -- With the first instruction, if it was loaded.
  pub first_loaded :
      (Jit → Sys mem → Outcome (Created × Jit × Sys mem))
      → Jit
      → Cpu
      → Option ℕ
      → Sys mem
      → Outcome (Created × Jit × Sys mem)
  unfolding translated
  first_loaded again jit cpu none s = done (faulted, jit, s)
  first_loaded again jit cpu (some inst) s =
      translate mem s (record { addr = cpu.pc; ind = true; rnw = true; priv = is_privileged cpu })
      >>= translated again jit cpu inst

  -- `createBlock` from its `retry` label.
  pub attempt :
      (Jit → Sys mem → Outcome (Created × Jit × Sys mem))
      → Jit
      → Sys mem
      → Cpu
      → Outcome (Created × Jit × Sys mem)
  unfolding first_loaded load_inst32
  attempt again jit sys cpu = load_inst32 mem sys cpu.pc (is_privileged cpu) >>= λ l.
      first_loaded again jit cpu (got l.0 l.1) l.2

  -- With fuel for that many attempts.
  pub create_block : ℕ → Jit → Sys mem → Cpu → Outcome (Created × Jit × Sys mem)
  unfolding attempt
  create_block zero jit sys cpu = done (starved, jit, sys)
  create_block (suc fuel) jit sys cpu = attempt (λ j s. create_block fuel j s cpu) jit sys cpu
