-- ===== src/Tests/Bus.antt =====
-- The bus with two devices, and the block device with an image of eight blocks.
use mr_iss.Base.{ℕ, zero, suc, ◌+◌, ◌≡◌, refl, true, some, [], ◌∷◌, arith, done}
use mr_iss.Devices.Bus.{BusDev, Bus, covers, find_dev_for_addr, found, get_dev}
use mr_iss.Devices.Bus.Laws.{Disjoint, none_covers, get_dev-find}
use mr_iss.Devices.Sbd.{Host, Sbd, init, open_image, transfer}
use mr_iss.Devices.Sbd.Laws.{IsReady, Maps, transfer-inside}

abbrev ram : BusDev ℕ
ram = record { addr = 0; size = 0x1000; dev = some 1 }

abbrev uart : BusDev ℕ
uart = record { addr = 0x8000; size = 0x20; dev = some 2 }

abbrev bus : Bus ℕ
bus = record { devs = ram ∷ uart ∷ []; last_dev = 0 }

bus-Disjoint : Disjoint bus.devs
unfolding covers
bus-Disjoint zero zero addr h k = refl
bus-Disjoint zero (suc zero) addr h k = ground arith
bus-Disjoint zero (suc (suc j)) addr h k = ground (arith, none_covers ℕ addr)
bus-Disjoint (suc zero) zero addr h k = ground arith
bus-Disjoint (suc zero) (suc zero) addr h k = refl
bus-Disjoint (suc zero) (suc (suc j)) addr h k = ground (arith, none_covers ℕ addr)
bus-Disjoint (suc (suc i)) j addr h k = ground (arith, none_covers ℕ addr)

get_dev-find_example : get_dev bus 0x8004 ≡ found bus (find_dev_for_addr bus 0x8004)
get_dev-find_example = get_dev-find bus 0x8004 bus-Disjoint

-- A host that counts the bytes moved.
abbrev counter : Host
counter = record {
  World = ℕ;
  direct_map = λ w addr. some addr;
  pread = λ w ha len off. w + len;
  pwrite = λ w ha len off. w + len;
}

counter-Maps : Maps counter
counter-Maps = record { at = λ w addr. addr; maps = λ w addr. refl }

abbrev disk : Sbd
disk = record (open_image init (some 4096)) { has_bus = true }

disk-IsReady : IsReady disk
unfolding open_image init
disk-IsReady = record { idle = refl; blocks = refl }

transfer-inside_example : transfer counter counter.pread disk 0 2 3 0x1000 ≡ done 1536
unfolding open_image
transfer-inside_example =
    transfer-inside counter counter-Maps counter.pread disk 0 2 3 0x1000 refl (omega arith)
      (omega arith)
