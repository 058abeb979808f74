-- ===== src/Tests/Codegen.antt =====
-- A block generated from a program of one instruction over and over.
use mr_iss.Cpu.State.{reset}
use mr_iss.Jit.Blockstore.{dummy_block, code_size}
use mr_iss.Jit.Emit.{Site, int_int_int_int_int_int}
use mr_iss.Jit.Emit.Sites.{IsCallable}
use mr_iss.Jit.Blockgen.{Jit, create_block}
use mr_iss.Jit.Blockgen.Laws.{site}
use mr_iss.Jit.Blockgen.Create.{Compiled}
use mr_iss.Jit.Blockgen.Retry.{IsAnswer, create_block-Compiled_twice}
use mr_iss.Jit.Runloop.{Sim, round}
use mr_iss.Jit.Runloop.Laws.{Turned, round-Turned}
use mr_iss.Jit.Blockstore.{Block}
use mr_iss.Base.{Outcome, done}
use mr_iss.Jit.Blockgen.Inside.{Outside, create_block-Outside}
use mr_iss.Tests.Mmu.{words, words-Answers, machine}
use mr_iss.Base.{ℕ, ◌%◌, Option, some, [], arith, Yields, Allows}
use mr_iss.Jit.Blockgen.{planted}

-- The switch: each word plants a call with six arguments, and an odd one ends the block.
abbrev plan : ℕ → Option (Site × ℕ)
plan inst = some (int_int_int_int_int_int 0x50_0040 (inst % 32) 1 2 3 4 (inst % 2), inst % 2)

abbrev buffer : ℕ
buffer = 0x10_0000

plan-IsCallable : (i : ℕ) → IsCallable buffer code_size (site words plan 0x50_0080 i)
unfolding planted
plan-IsCallable i = record {
  within = omega arith;
  above = omega arith;
  below = omega arith;
  words =
      (omega arith, (omega arith, (omega arith, (omega arith, (omega arith, (omega arith, tt))))));
}

abbrev empty : Jit
empty = record {
  store = record { last = 0; last_block = dummy_block; gencount = 0; hashmap = λ i. [] };
  code = λ a. 0;
}

create_block-Outside_example :
    Allows
      (Outside words plan 0x50_0080 buffer empty.code)
      (create_block words plan 0x50_0080 buffer 2 empty machine reset)
create_block-Outside_example =
    create_block-Outside words plan 0x50_0080 buffer 2 empty machine reset

create_block-Compiled_twice_example :
    Yields
      (λ r. IsAnswer r.0 × Compiled words plan 0x50_0080 buffer reset r)
      (create_block words plan 0x50_0080 buffer 2 empty machine reset)
create_block-Compiled_twice_example =
    create_block-Compiled_twice words words-Answers plan 0x50_0080 buffer plan-IsCallable 0 empty
      machine reset

-- A processor that runs no instruction: each block returns 1.
abbrev one_tick : Block → Sim words → Outcome (Option ℕ × Sim words)
one_tick b s = done (some 1, record s { cpu = reset })

abbrev started : Sim words
started = record { cpu = reset; sys = machine; jit = empty }

round-Turned_example :
    Yields
      (Turned words words-Answers plan 0x50_0080 buffer one_tick 0 started)
      (round words plan 0x50_0080 buffer one_tick 0 2 started)
unfolding reset
round-Turned_example =
    round-Turned words words-Answers plan 0x50_0080 buffer one_tick 0 (λ b from. omega arith) 0
      started (omega arith)
