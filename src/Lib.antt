-- ===== src/Lib.antt =====
-- MR-ISS, a simulator of a 32-bit PowerPC system.
--
-- The simulated processor keeps its registers in PPCCPUState and fetches and accesses memory through
-- PPCMMU. The MMU translates an effective address by a micro-TLB, the block address registers, or a
-- walk of the hashed page table, and reaches memory by the bus or by a host address that the bus gave
-- it. A fault comes back as a value, which the interpreter turns into an exception of the processor.
-- The interpreter's instructions are functions on the processor's state. The interrupt controller
-- drives the processor's interrupt input.
--
--   Base         numbers, words, lists, and `Outcome`: a call that returns or a `FATAL`/failed `ASSERT`
--   Bits         laws of `&`, `|`, `^`, `~` and shifts
--   Memory       the bus and the host memory, as an interface
--   Mmu/State    the types of PPCMMU.h; `check_perms` is checkPerms
--   Mmu/Utlb     PPCMMU_utlb_dm.h: `utlb_lookup`, `utlb_insert`, `iutlb_inv`, `dutlb_inv`
--   Mmu/Regs     the register accessors of PPCMMU.cc
--   Mmu/Bat      matchBAT of PPCMMU.cc
--   Mmu/Walk     translateEA of PPCMMU.cc: `translate_ea`
--   Mmu/Translate  translateAddr of PPCMMU.h
--   Mmu/Access   loadInst32, load32 to load8 and store32 to store8 of PPCMMU.cc
--   Cpu/State    PPCCPUState.h: its registers, `cpu_tick`, the pending tests
--   Cpu/Exceptions  PPCCPUState.cc
--   Cpu/Loop     the interpreter's loop of main.cc, around execute
--   Interp/Macros   inst_utility.h, mkmask and does_trap
--   Interp/State    the state and the helpers of PPCInterpreter.h
--   Interp/Alu      PPCInterpreter_Arithmetic.cc and PPCInterpreter_Logical.cc
--   Interp/Memory, Interp/Strings   PPCInterpreter_Memory.cc
--   Interp/CondReg, Interp/Branch, Interp/Trap, Interp/Special
--                   the PPCInterpreter_*.cc of that name; of Special, Spr has the moves of special
--                   registers (numbers in arch_defns.h) and System the rest
--   Interp/Execute  `execute` of PPCInterpreter.h, over the decoder, and the loop of main.cc
--   Devices/Intc    DevXpsIntc.cc and DevXpsIntc.h
--   Devices/Bus     Bus.h, over a type of devices
--   Devices/Sbd     DevSBD.cc and DevSBD.h, over a host's files and memory
--   Devices/SdCard  DevSDCard.cc and DevSDCard.h: Crc, Data, Command, over a file; Protocol,
--                   its protocol apart from the code
--   Devices/Sd      DevSD.cc and DevSD.h, the controller of that card: `check_for_work`
--   Devices/Uart, Devices/SimpleUart  the .cc and .h of that name, over a serial line
--   Devices/Spi     DevSPI.cc and DevSPI.h, over a device
--   Devices/SpiGpio SPIDevGPIO.cc and SPIDevGPIO.h, such a device, over the host's pins
--   Devices/Ram     DevRAM.h
--   Devices/Gpio    DevGPIO.cc and DevGPIO.h
--   Devices/Lcdc    DevLCDC.cc and DevLCDC.h: the registers; Lines and Frame, the picture
--   Jit/Blockstore  blockstore.cc and blockstore.h
--   Jit/Emit        the emitters of blockgen.cc; X86 and Machine are the instructions they use
--   Jit/Blockgen    createBlock of blockgen.cc, over the switch that the build generates
--   Jit/Runloop     runloop.cc, over what runs the code of a block
--   Platform        platform.h and platform.cc: the map of each platform, what it attaches and the image it loads
--   Platform/Saved  sim_state.cc and sim_state.h
--   Host/Management the lines and the commands of management.cc, over what its socket gives
--   Host/Serial     SerialTCP.cc and SerialPTY.cc, over what poll, accept and read give
--   Tests           the theorems at concrete states
--
-- State is passed explicitly. Numbers are unbounded, with the wrap-around of each C type written out;
-- C's signed comparison is written with both signs flipped (`bias`). translateAddr jumps back to its
-- walk: `translate_addr` has fuel for that many jumps, and the accesses give it one, which is enough
-- because a walk for a write leaves no entry that asks for another. createBlock starts again when it
-- runs out of room, in a store that it has emptied: `create_block` has fuel for its attempts, and two
-- are enough. The JIT's loop goes back to its search where no block was made: `next_block` has fuel for
-- its passes, and two are enough, and so has `fetch` of the interpreter. Other loops are recursion on the number of registers, words or slots
-- that are left.
--
-- The build's defaults are modelled: UPDATE_RC and MEM_OP_ALIGNMENT on, no flat memory, not HOSTED,
-- a little-endian host, and the interpreter, but for the modules of Jit.
-- Not modelled: the debug, dummy and pipe devices,
-- whose accesses print or are fatal; the options of Config.cc; the generated decoder; OS.cc of the
-- hosted build; PPCMMU_utlb_assoc.h, which nothing includes; and the host's own I/O. Traces and counters
-- are left out. What is behind the bus is the parameter `Memory`; a theorem that needs its accesses to
-- return says so by `Answers`.
pub mod Base
pub mod Bits
pub mod Memory
pub mod Mmu
pub mod Cpu
pub mod Devices
pub mod Interp
pub mod Jit
pub mod Host
mod Tests
pub mod Platform
