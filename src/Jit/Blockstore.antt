-- ===== src/Jit/Blockstore.antt =====
-- The store of generated blocks (blockstore.cc, blockstore.h). A chain of blocks by `next` is a list: a block's `next`
-- is set once, at its insertion. A block is known by its place in the code buffer.
pub mod Laws
pub mod Room
use mr_iss.Base.{
  ℕ, ◌+◌, ◌-◌, ◌*◌, ◌/◌, bit_and, bit_xor, Bool, true, ◌&&◌, Option, none, some, List, [], ◌∷◌, ltb,
  ◌==◌, if◌then◌else◌, u32, ◌>>>◌, sub32, ◌>>=◌, Outcome, done, fatal,
}
use mr_iss.Memory.{Memory}
use mr_iss.Mmu.State.{Fault}
use mr_iss.Mmu.Walk.{Sys}
use mr_iss.Mmu.Translate.{granted, denied, looping}
use mr_iss.Mmu.Access.{translate}
use mr_iss.Cpu.State.{Cpu, is_privileged}
use mr_iss.Mmu.Translate.{Access}

pub record Block : Type 0 where
  pub place : ℕ
  pub pc : ℕ
  pub pc_pa : ℕ
  pub msr : ℕ
  pub codelen : ℕ

-- `last` is `block_buffer_last - block_buffer`.
pub record Blockstore : Type 0 where
  pub last : ℕ
  pub last_block : Block
  pub gencount : ℕ
  pub hashmap : ℕ → List Block

abbrev pub code_size : ℕ
code_size = 0x40_0000

abbrev pub fumes : ℕ
fumes = 1024

abbrev grace : ℕ
grace = 100

-- `ALIGN_TO(x, 64)`, and a block's header, whose `sizeof` of 24 is aligned.
abbrev pub align64 : ℕ → ℕ
align64 x = (x + 63) / 64 * 64

abbrev pub headerlen : ℕ
headerlen = 64

-- The block that never matches, which lies outside the code buffer.
abbrev pub dummy_block : Block
dummy_block = record {
  place = code_size;
  pc = 0xffff_ffff;
  pc_pa = 0;
  msr = 0xffff_ffff;
  codelen = 0;
}

pub hash_idx : ℕ → ℕ → ℕ
hash_idx va msr = bit_and (bit_xor (bit_xor (va >>> 2) (va >>> 13)) msr) 0x7fff

pub bs_hm_insert : Blockstore → ℕ → ℕ → Block → Blockstore
unfolding hash_idx
bs_hm_insert s pc_pa msr block =
    let i = hash_idx pc_pa msr in
    record s { hashmap = λ j. if j == i then block ∷ s.hashmap i else s.hashmap j }

-- `b->pc_pa == pc_pa && b->msr == msr`.
abbrev pub matches : ℕ → ℕ → Block → Bool
matches pc_pa msr b = b.pc_pa == pc_pa && b.msr == msr

-- The loop of `bs_hm_lookup` along a chain.
pub find_block : (Block → Bool) → List Block → Option Block
find_block p [] = none
find_block p (b ∷ bs) = if p b then some b else find_block p bs

-- A block that is found is remembered as the last one.
pub remember : Blockstore → Option Block → Option Block × Blockstore
remember s none = (none, s)
remember s (some b) = (some b, record s { last_block = b })

pub bs_hm_lookup : Blockstore → ℕ → ℕ → Option Block × Blockstore
unfolding remember find_block hash_idx
bs_hm_lookup s pc_pa msr =
    remember s (find_block (matches pc_pa msr) (s.hashmap (hash_idx pc_pa msr)))

pub reset_blockstore : Blockstore → Blockstore
reset_blockstore s = record s { last = 0; last_block = dummy_block; hashmap = λ _. [] }

-- The store with room for a block: it is emptied when it is nearly full.
pub with_room : Blockstore → Blockstore
unfolding reset_blockstore
with_room s = if ltb (code_size - fumes) s.last then reset_blockstore s else s

-- The block at `block_buffer_last`. It is new where no block of the store has that place: `amendBlockSize` or a
-- reset has followed the allocation before, as the comment on `allocBlock` demands and createBlock does; without,
-- the source overwrites the block that is there, which is outside this model.
pub place_block : Blockstore → ℕ → ℕ → ℕ → Block × ℕ × Blockstore
unfolding bs_hm_insert
place_block t pc pc_pa msr =
    let b : Block = record { place = t.last; pc = pc; pc_pa = pc_pa; msr = msr; codelen = 0 } in
    (b, sub32 (sub32 (code_size - grace) t.last) headerlen, bs_hm_insert t pc_pa msr b)

-- `allocBlock`: the block, the bytes that are left for its code, and the store.
pub alloc_block : Blockstore → ℕ → ℕ → ℕ → Block × ℕ × Blockstore
unfolding with_room place_block
alloc_block s pc pc_pa msr = place_block (with_room s) pc pc_pa msr

-- The block at the place of `b` with another length.
abbrev resized : Block → ℕ → Block → Block
resized b real_size c = if c.place == b.place then record c { codelen = real_size } else c

pub resize_chain : Block → ℕ → List Block → List Block
resize_chain b real_size [] = []
resize_chain b real_size (c ∷ cs) = resized b real_size c ∷ resize_chain b real_size cs

pub amend_block_size : Blockstore → Block → ℕ → Blockstore
unfolding resize_chain
amend_block_size s b real_size = record s {
  last = align64 (s.last + headerlen + real_size);
  last_block = resized b real_size s.last_block;
  hashmap = λ i. resize_chain b real_size (s.hashmap i);
}

module _ (mem : Memory) where
  -- With the physical address that the counter translates to, or the fault.
  unfoldable pub slow_answer :
      Blockstore → Cpu → Access × Sys mem → Outcome (Option Block × Fault × Blockstore × Sys mem)
  unfolding bs_hm_lookup
  slow_answer s c (granted pa, sys) =
      let found = bs_hm_lookup s (u32 pa) c.msr in done (found.0, Fault.none, found.1, sys)
  slow_answer s c (denied f, sys) = done (none, f, s, sys)
  slow_answer s c (looping, sys) = fatal

  -- `findBlock_slow`: by the physical address.
  unfoldable pub find_block_slow :
      Blockstore → Sys mem → Cpu → Outcome (Option Block × Fault × Blockstore × Sys mem)
  unfolding is_privileged slow_answer
  find_block_slow s sys c =
      translate mem sys (record { addr = c.pc; ind = true; rnw = true; priv = is_privileged c })
      >>= slow_answer s c

  -- `findBlock`: the last block again, if the mapping's generation, the counter and the state are its own.
  -- The fault is left as it is then.
  unfoldable pub find_block_fast :
      Blockstore → Sys mem → Cpu → Fault → Outcome (Option Block × Fault × Blockstore × Sys mem)
  unfolding find_block_slow
  find_block_fast s sys c fault =
      if (sys.mmu.generation_count == s.gencount && s.last_block.pc == c.pc)
        && s.last_block.msr == c.msr
      then done (some s.last_block, fault, s, sys)
      else find_block_slow s sys c
