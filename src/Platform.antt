-- ===== src/Platform.antt =====
-- The platforms (platform.h, platform.cc): which device stands where on the bus, and on which interrupt line. Of
-- the devices' own set-up, the RAMs' is modelled, with the image that is loaded into one of them; loading and attaching
-- touch nothing in common, so that their order does not show.
pub mod Map
pub mod Saved
use mr_iss.Base.{
  ℕ, zero, suc, ◌+◌, ◌-◌, ◌*◌, leb, if◌then◌else◌, fatal, Option, none, some, List, [], ◌∷◌, ◌++◌,
  ◌>>=◌, Outcome, done,
}
use mr_iss.Devices.Bus.{DeviceOps, Bus, init, attach}
use mr_iss.Devices.Ram
use mr_iss.Devices.Ram.{Ram, load_at_offset}

-- The values of `PLATFORM`.
pub data Platform : Type 0 where
  mr1 mr2 mr3 : Platform

pub data Part : Type 0 where
  ram boot_ram uart kbd mse intc lcdc gpio i2s sdh spi0 spi1 : Part
  sbd : ℕ → Part

-- What `attach` is given.
pub record Place : Type 0 where
  pub part : Part
  pub base : ℕ
  pub size : ℕ

abbrev io_base : ℕ
io_base = 0x8200_0000

-- The base addresses and the sizes of platform.h, for the parts that a platform has. The block devices share a size.
unfoldable pub base_of : Platform → Part → ℕ
base_of mr1 ram = 0
base_of mr1 uart = 0x8000_0000
base_of mr1 intc = 0x8001_0000
base_of mr1 (sbd i) = 0x8002_0000 + i * 0x100
base_of mr2 ram = 0
base_of mr2 uart = 0x8000_0000
base_of mr2 lcdc = 0x8001_0000
base_of mr3 ram = 0
base_of mr3 boot_ram = 0xfff0_0000
base_of mr3 uart = io_base + 0
base_of mr3 kbd = io_base + 0x1_0000
base_of mr3 mse = io_base + 0x2_0000
base_of mr3 lcdc = io_base + 0x4_0000
base_of mr3 gpio = io_base + 0x6_0000
base_of mr3 intc = io_base + 0x7_0000
base_of mr3 spi0 = io_base + 0x8_0000
base_of mr3 spi1 = io_base + 0x9_0000
base_of mr3 i2s = io_base + 0xa_0000
base_of mr3 sdh = io_base + 0xb_0000
base_of mr3 (sbd i) = io_base + 0xf_0000 + i * 0x100
base_of _ _ = 0

unfoldable pub size_of : Platform → Part → ℕ
size_of mr1 ram = 512 * 0x10_0000
size_of mr2 ram = 512 * 0x400
size_of mr3 ram = 32 * 0x10_0000
size_of platform boot_ram = 64 * 0x400
size_of platform (sbd i) = 0x20
size_of platform _ = 0x200

abbrev at : Platform → Part → Place
at platform part = record {
  part = part;
  base = base_of platform part;
  size = size_of platform part;
}

-- The loop over the block devices, `left` of them from `i` on.
abbrev sbds : ℕ → ℕ → List Part
sbds zero i = []
sbds (suc left) i = sbd i ∷ sbds left (suc i)

-- The parts in the order of their calls of `attach`.
pub parts : Platform → List Part
parts mr1 = ram ∷ uart ∷ intc ∷ sbds 4 0
parts mr2 = ram ∷ uart ∷ lcdc ∷ []
parts mr3 =
    ram
    ∷ boot_ram
    ∷ uart
    ∷ kbd
    ∷ mse
    ∷ intc
    ∷ lcdc
    ∷ gpio
    ∷ i2s
    ∷ sdh
    ∷ (sbds 4 0 ++ (spi0 ∷ spi1 ∷ []))

abbrev map_places : Platform → List Part → List Place
map_places platform [] = []
map_places platform (p ∷ ps) = at platform p ∷ map_places platform ps

-- What the calls of `attach` are given.
unfoldable pub places : Platform → List Place
unfolding parts base_of size_of
places platform = map_places platform (parts platform)

-- The line that `setIntc` gives a device.
pub irq_of : Platform → Part → Option ℕ
irq_of mr1 uart = some 0
irq_of mr1 (sbd i) = some (1 + i * 1)
irq_of mr3 uart = some 0
irq_of mr3 kbd = some 1
irq_of mr3 mse = some 2
irq_of mr3 sdh = some 3
irq_of mr3 (sbd i) = some (24 + i * 1)
irq_of _ _ = none

-- `loadAtOffset` of either RAM, at an address that is not beneath its base.
abbrev pub into_main : ℕ → Option (List ℕ × Option ℕ) → Ram → Ram → Outcome (Ram × Ram)
into_main offset image main boot = load_at_offset main image offset >>= λ r. done (r, boot)

abbrev pub into_boot : ℕ → Option (List ℕ × Option ℕ) → Ram → Ram → Outcome (Ram × Ram)
into_boot offset image main boot = load_at_offset boot image offset >>= λ r. done (main, r)

-- The image goes to the main RAM, or on the third platform to the boot RAM if the address reaches it. There, an
-- address beneath both is passed over.
pub load_image : Platform → ℕ → Option (List ℕ × Option ℕ) → Ram → Ram → Outcome (Ram × Ram)
unfolding base_of
load_image mr1 load_addr image main boot =
    if leb (base_of mr1 ram) load_addr
    then into_main (load_addr - base_of mr1 ram) image main boot
    else fatal
load_image mr2 load_addr image main boot =
    if leb (base_of mr2 ram) load_addr
    then into_main (load_addr - base_of mr2 ram) image main boot
    else fatal
load_image mr3 load_addr image main boot =
    if leb (base_of mr3 boot_ram) load_addr
    then into_boot (load_addr - base_of mr3 boot_ram) image main boot
    else if leb (base_of mr3 ram) load_addr
    then into_main (load_addr - base_of mr3 ram) image main boot
    else done (main, boot)

module _ {D : Type 0} (ops : DeviceOps D) (device_of : Part → D) where
  pub attach_all : Bus D → List Place → Outcome (Bus D)
  unfolding attach
  attach_all b [] = done b
  attach_all b (p ∷ ps) = attach ops b (device_of p.part) p.base p.size >>= λ b'. attach_all b' ps

  -- With `CFG(load_addr)`, what the host gives for `CFG(rom_path)`, and the two RAMs.
  pub platform_init :
      Platform → ℕ → Option (List ℕ × Option ℕ) → Ram → Ram → Outcome (Bus D × Ram × Ram)
  unfolding attach_all places init load_image size_of
  platform_init platform load_addr image main boot =
      load_image platform load_addr image (Ram.init main (size_of platform ram))
        (Ram.init boot (size_of platform boot_ram))
      >>= λ rams. attach_all init (places platform) >>= λ b. done (b, rams.0, rams.1)
