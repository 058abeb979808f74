-- ===== src/Tests/Platform.antt =====
-- The platforms' maps: the console of the third one, over devices that are numbers.
use mr_iss.Base.{ℕ, ◌≡◌, refl, some, Yields, arith, fatal}
use mr_iss.Devices.Bus.{DeviceOps, get_dev, no_dev}
use mr_iss.Devices.Ram.{Ram}
use mr_iss.Platform.{mr3, uart, places, base_of, size_of, platform_init}
use mr_iss.Platform.Map.{platform_init-reaches}
use mr_iss.Base.{List, replicate, get_or, none, true, false, [], ◌∷◌, ◌==◌, if◌then◌else◌}
use mr_iss.Mmu.State
use mr_iss.Cpu.State.{reset}
use mr_iss.Platform.Saved.{Bank, state_save_open}
use mr_iss.Platform.Saved.Names.{IsSaved, Covers, state_save_open-IsSaved, state_save_open-Covers}

-- A device keeps the base that it is told.
abbrev bases : DeviceOps ℕ
bases = record {
  read32 = λ d addr. fatal;
  read16 = λ d addr. fatal;
  read8 = λ d addr. fatal;
  write32 = λ d addr value. fatal;
  write16 = λ d addr value. fatal;
  write8 = λ d addr value. fatal;
  set_props = λ d base size. base;
  direct_map = λ d addr. none;
}

-- Before its `init`.
abbrev no_ram : Ram
no_ram = record {
  is_rom = false;
  mapped = false;
  bytes = λ o. 0;
  base_address = 0;
  address_span = 0;
}

platform_init-reaches_example :
    Yields
      (λ s.
        Yields
          (λ r. (r.0 ≡ 2) × ((get_or r.1.devs r.0 no_dev).dev ≡ some 0x8200_0000))
          (get_dev (record s.0 { last_dev = 0 }) 0x8200_0004))
      (platform_init bases (λ part. 0) mr3 0xfff0_0100 (some (1 ∷ 2 ∷ [], some 2)) no_ram no_ram)
unfolding places base_of size_of
platform_init-reaches_example =
    platform_init-reaches bases (λ part. 0) mr3 0xfff0_0100 (1 ∷ 2 ∷ []) 2 no_ram no_ram 2 0
      0x8200_0004 (record { part = uart; base = 0x8200_0000; size = 0x200 })
      (omega arith, omega arith) (omega arith) refl (omega arith, omega arith)

-- 3 MiB from 16 MiB on, with one word that is not 0.
abbrev bank : Bank
bank = record {
  ram_pa_base = 0x100_0000;
  ram_size = 0x30_0000;
  words = λ a. if a == 5 then 7 else 0;
}

-- A file of a hundred bytes is there before.
abbrev hundred : List ℕ
hundred = replicate 100 7

hundred-Covers :
    Yields (Covers hundred) (state_save_open (λ j. true) hundred reset State.init (bank ∷ []))
hundred-Covers =
    state_save_open-Covers (λ j. true) hundred reset State.init (bank ∷ []) (λ j. refl)
      (omega arith)

state_save_open-IsSaved_example :
    Yields
      (λ r. IsSaved reset bank 0x20_0000 r.0 × (r.1 ≡ true))
      (state_save_open (λ j. true) hundred reset State.init (bank ∷ []))
state_save_open-IsSaved_example =
    state_save_open-IsSaved (λ j. true) hundred reset State.init bank 0x20_0000 (λ j. refl) refl
      (omega arith) hundred-Covers
