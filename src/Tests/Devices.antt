-- ===== src/Tests/Devices.antt =====
-- The interrupt controller with a processor.
use mr_iss.Base.{◌+◌, true, ◌<◌, ◌^◌, ◌==◌, if◌then◌else◌, ◌≡◌, refl, [], ◌∷◌, Yields, arith}
use mr_iss.Mmu.State
use mr_iss.Cpu.State.{assert_irq, cpu_tick, reset}
use mr_iss.Cpu.Exceptions.{Core, irq}
use mr_iss.Cpu.Exceptions.Laws.{AtHandler}
use mr_iss.Cpu.Loop.{ticked, after_execute}
use mr_iss.Devices.Intc.Delivery.{Drives, rounds, trigger_irq-AtHandler}
use mr_iss.Bits.Digits.{digit}
use mr_iss.Devices.Intc.{Intc, init, set_cpu_state, get_active, trigger_irq}
use mr_iss.Devices.Intc.Laws.{Follows, Op, perform_all, perform_all-Follows}

abbrev board : Intc
board = set_cpu_state init reset

-- Lines 3 and 9 are raised and enabled.
abbrev busy : Intc
busy = record init { regs = λ r. 0x208 }

board-Follows : Follows board
unfolding init set_cpu_state get_active reset
board-Follows = record { triggered = refl; line = refl }

perform_all-Follows_example :
    Yields Follows (perform_all board (Op.write 8 0x20 ∷ Op.trigger 5 ∷ Op.write 0xc 0x20 ∷ []))
perform_all-Follows_example =
    perform_all-Follows board (Op.write 8 0x20 ∷ Op.trigger 5 ∷ Op.write 0xc 0x20 ∷ [])
      board-Follows

-- Line 5 is enabled.
abbrev listening : Intc
listening = record board { regs = λ r. if r == 2 then 0x20 else 0 }

listening-Follows : Follows listening
unfolding init set_cpu_state get_active reset
listening-Follows = record { triggered = refl; line = refl }

-- Interrupts are off when the line is raised.
abbrev interrupted : Core
interrupted = record {
  cpu = record reset { msr = 0; irq_flag = true; pc = 0x2000 };
  mmu = State.init;
}

interrupted-Drives : Drives (trigger_irq listening 5) interrupted
unfolding init set_cpu_state trigger_irq reset assert_irq
interrupted-Drives = (record reset { irq_flag = true }, refl, refl)

-- An instruction that does nothing, and one that turns interrupts on.
abbrev nop : Core → Core
nop k = record { cpu = record k.cpu { pc = k.cpu.pc + 4 }; mmu = k.mmu }

abbrev interrupts_on : Core → Core
interrupts_on k = record { cpu = record k.cpu { msr = 0x8000; pc = k.cpu.pc + 4 }; mmu = k.mmu }

abbrev at_end : Core
at_end = interrupts_on (rounds (nop ∷ []) interrupted)

low_pc : at_end.cpu.pc < 2 ^ 32
unfolding reset after_execute cpu_tick
low_pc = omega arith

line_5 : digit (listening.regs 2) 5 ≡ 1
unfolding init set_cpu_state
line_5 = refl

trigger_irq-AtHandler_example : AtHandler (ticked at_end) irq (after_execute at_end)
trigger_irq-AtHandler_example =
    trigger_irq-AtHandler listening interrupted 5 (nop ∷ []) interrupts_on listening-Follows
      (omega arith) line_5 interrupted-Drives ((λ k. refl), tt) (λ k. refl) refl low_pc
