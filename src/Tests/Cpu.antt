-- ===== src/Tests/Cpu.antt =====
-- Exceptions taken by a processor in a program.
use mr_iss.Base.{◌≡◌, arith, refl, false, Yields}
use mr_iss.Mmu.State.{Fault}
use mr_iss.Mmu.State
use mr_iss.Cpu.State.{reset, is_irq_pending, is_decrementer_pending}
use mr_iss.Cpu.Loop.{ticked, after_execute, Delivered, after_execute-Delivered}
use mr_iss.Cpu.Exceptions.{
  Core, decrementer, take_exception, raise_mem_exception, return_from_interrupt,
}
use mr_iss.Cpu.Exceptions.Laws.{
  AtHandler, InStep, DarHolds, exception_of, take_exception-AtHandler, return-take_exception,
  raise_mem_exception-Delivers,
}

-- Unprivileged, with both translations and interrupts on.
abbrev running : Core
running = record { cpu = record reset { pc = 0x1000_0f08; msr = 0xc032 }; mmu = State.init }

take_exception-AtHandler_example :
    AtHandler running decrementer (take_exception running decrementer 0xc032)
unfolding reset
take_exception-AtHandler_example = take_exception-AtHandler running decrementer 0xc032 (omega arith)

return-take_exception_example :
    let end = return_from_interrupt (take_exception running decrementer running.cpu.msr) in
    (end.cpu.pc ≡ running.cpu.pc) × (end.cpu.msr ≡ running.cpu.msr) × InStep end
unfolding reset
return-take_exception_example = return-take_exception running decrementer (omega arith) refl

raise_mem_exception-Delivers_example :
    Yields
      (λ end. AtHandler running (exception_of false Fault.perms) end × DarHolds false 0x2000 end)
      (raise_mem_exception running false false 0x2000 Fault.perms 0x9421_fff0)
unfolding reset
raise_mem_exception-Delivers_example =
    raise_mem_exception-Delivers running false false 0x2000 Fault.perms 0x9421_fff0 (omega arith) tt

after_execute-Delivered_example :
    Delivered (ticked running) (after_execute running)
    × (is_irq_pending (after_execute running).cpu ≡ false)
    × (is_decrementer_pending (after_execute running).cpu ≡ false)
unfolding reset
after_execute-Delivered_example = after_execute-Delivered running (omega arith)
