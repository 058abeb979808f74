-- ===== src/Mmu/Access.antt =====
-- The memory accessors of PPCMMU.cc: `loadInst32`, `load32/16/8` and `store32/16/8`, in the default
-- build (MEM_OP_ALIGNMENT is 1, FLAT_MEM and DUMMY_MEM_ACCESS are 0). The event counters are left out.
pub mod Laws
pub mod Fetch
pub mod Real
use mr_iss.Base.{
  ℕ, bit_and, Bool, true, false, not, ◌&&◌, Option, none, some, ltb, ◌==◌, if◌then◌else◌, truthy,
  u32, ◌>>=◌, Outcome, done, fatal,
}
use mr_iss.Memory.{Memory}
use mr_iss.Mmu.State.{Fault}
use mr_iss.Mmu.Utlb.{io_bit}
use mr_iss.Mmu.Walk.{Sys, Request}
use mr_iss.Mmu.Translate.{Access, granted, denied, looping, translate_addr}

-- `IS_DIRECT`.
unfoldable is_direct : ℕ → Bool
is_direct pa = not (truthy (bit_and pa io_bit))

-- A word access that is refused after it is done: not aligned, and past the next 8-byte boundary.
pub word_faults : ℕ → Bool
word_faults pa = truthy (bit_and pa 3) && ltb 4 (bit_and pa 7)

pub half_faults : ℕ → Bool
half_faults pa = truthy (bit_and pa 1) && bit_and pa 7 == 7

abbrev pub align_fault : Bool → Fault
align_fault b = if b then Fault.align else Fault.none

module _ (mem : Memory) where
  open mem use {
    World, read32, read16, read8, write32, write16, write8, host_load32, host_load16, host_load8,
    host_store32, host_store16, host_store8, htonl, htons,
  }

  -- `translateAddr`, with fuel for the one jump back that it may need.
  pub translate : Sys mem → Request → Outcome (Access × Sys mem)
  translate s q = translate_addr mem 1 s q

  -- The access at a translated address: in host memory, or by the bus, whose addresses are 32 bits.
  unfoldable read_at32 : Sys mem → ℕ → Outcome (ℕ × Sys mem)
  unfolding is_direct
  read_at32 s pa =
      if is_direct pa
      then done (htonl (host_load32 s.bus pa), s)
      else read32 s.bus (u32 pa) >>= λ r. done (htonl r.0, record s { bus = r.1 })

  unfoldable read_at16 : Sys mem → ℕ → Outcome (ℕ × Sys mem)
  unfolding is_direct
  read_at16 s pa =
      if is_direct pa
      then done (htons (host_load16 s.bus pa), s)
      else read16 s.bus (u32 pa) >>= λ r. done (htons r.0, record s { bus = r.1 })

  unfoldable read_at8 : Sys mem → ℕ → Outcome (ℕ × Sys mem)
  unfolding is_direct
  read_at8 s pa =
      if is_direct pa
      then done (host_load8 s.bus pa, s)
      else read8 s.bus (u32 pa) >>= λ r. done (r.0, record s { bus = r.1 })

  pub write_at32 : Sys mem → ℕ → ℕ → Outcome (Sys mem)
  unfolding is_direct
  write_at32 s pa val =
      if is_direct pa
      then done (record s { bus = host_store32 s.bus pa (htonl val) })
      else write32 s.bus (u32 pa) (htonl val) >>= λ w. done (record s { bus = w })

  unfoldable write_at16 : Sys mem → ℕ → ℕ → Outcome (Sys mem)
  unfolding is_direct
  write_at16 s pa val =
      if is_direct pa
      then done (record s { bus = host_store16 s.bus pa (htons val) })
      else write16 s.bus (u32 pa) (htons val) >>= λ w. done (record s { bus = w })

  unfoldable write_at8 : Sys mem → ℕ → ℕ → Outcome (Sys mem)
  unfolding is_direct
  write_at8 s pa val =
      if is_direct pa
      then done (record s { bus = host_store8 s.bus pa val })
      else write8 s.bus (u32 pa) val >>= λ w. done (record s { bus = w })

  -- A load's fault, what it left in `*dest` if anything, and the state.
  abbrev Loaded : Type 0
  Loaded = Fault × Option ℕ × Sys mem

  -- The common course of the loads: translate, read, and report an alignment fault after the read.
  unfoldable load_with :
      (Sys mem → ℕ → Outcome (ℕ × Sys mem)) → (ℕ → Bool) → Access × Sys mem → Outcome Loaded
  load_with read faults (granted pa, s) =
      read s pa >>= λ r. done (align_fault (faults pa), some r.0, r.1)
  load_with read faults (denied f, s) = done (f, none, s)
  load_with read faults (looping, s) = fatal

  unfoldable pub load_inst32 : Sys mem → ℕ → Bool → Outcome Loaded
  unfolding translate load_with read_at32
  load_inst32 s addr priv =
      translate s (record { addr = addr; ind = true; rnw = true; priv = priv })
      >>= load_with read_at32 (λ _. false)

  unfoldable pub load32 : Sys mem → ℕ → Bool → Outcome Loaded
  unfolding translate load_with read_at32 word_faults
  load32 s addr priv =
      translate s (record { addr = addr; ind = false; rnw = true; priv = priv })
      >>= load_with read_at32 word_faults

  unfoldable load16 : Sys mem → ℕ → Bool → Outcome Loaded
  unfolding translate load_with read_at16 half_faults
  load16 s addr priv =
      translate s (record { addr = addr; ind = false; rnw = true; priv = priv })
      >>= load_with read_at16 half_faults

  unfoldable load8 : Sys mem → ℕ → Bool → Outcome Loaded
  unfolding translate load_with read_at8
  load8 s addr priv =
      translate s (record { addr = addr; ind = false; rnw = true; priv = priv })
      >>= load_with read_at8 (λ _. false)

  pub store_with :
      (Sys mem → ℕ → ℕ → Outcome (Sys mem))
      → (ℕ → Bool)
      → ℕ
      → Access × Sys mem
      → Outcome (Fault × Sys mem)
  store_with write faults val (granted pa, s) =
      write s pa val >>= λ s'. done (align_fault (faults pa), s')
  store_with write faults val (denied f, s) = done (f, s)
  store_with write faults val (looping, s) = fatal

  unfoldable pub store32 : Sys mem → ℕ → ℕ → Bool → Outcome (Fault × Sys mem)
  unfolding translate store_with write_at32 word_faults
  store32 s addr val priv =
      translate s (record { addr = addr; ind = false; rnw = false; priv = priv })
      >>= store_with write_at32 word_faults val

  unfoldable store16 : Sys mem → ℕ → ℕ → Bool → Outcome (Fault × Sys mem)
  unfolding translate store_with write_at16 half_faults
  store16 s addr val priv =
      translate s (record { addr = addr; ind = false; rnw = false; priv = priv })
      >>= store_with write_at16 half_faults val

  unfoldable store8 : Sys mem → ℕ → ℕ → Bool → Outcome (Fault × Sys mem)
  unfolding translate store_with write_at8
  store8 s addr val priv =
      translate s (record { addr = addr; ind = false; rnw = false; priv = priv })
      >>= store_with write_at8 (λ _. false) val
