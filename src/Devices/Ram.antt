-- ===== src/Devices/Ram.antt =====
-- RAM and ROM (DevRAM.h), with `ALIGNMENT_HAX`, on a little-endian host. The mapped memory is a function of
-- the offset; what lies past its end is not told apart.
pub mod Laws
use mr_iss.Base.{
  ℕ, zero, suc, ◌+◌, ◌*◌, ◌/◌, ◌%◌, ◌^◌, Bool, true, not, Option, none, some, List, [], ◌∷◌, ltb,
  ◌==◌, if◌then◌else◌, length, sub32, Outcome, done, fatal,
}

-- `mapped` is `mmap_base` set or null.
pub record Ram : Type 0 where
  pub is_rom : Bool
  pub mapped : Bool
  pub bytes : ℕ → ℕ
  pub base_address : ℕ
  pub address_span : ℕ

-- `init`, where `mmap` succeeds.
unfoldable pub init : Ram → ℕ → Ram
init m size = record m { mapped = true; bytes = λ _. 0; base_address = 0; address_span = size }

unfoldable set_props : Ram → ℕ → ℕ → Ram
set_props m addr size = record m { base_address = addr }

pub offset_from_pa : Ram → ℕ → ℕ
offset_from_pa m addr = sub32 addr m.base_address

-- The number of `n` bytes from an offset on, the lowest first.
pub load : (ℕ → ℕ) → ℕ → ℕ → ℕ
load b zero o = 0
load b (suc n) o = b o + load b n (suc o) * 2 ^ 8

-- The `n` bytes of a number put from an offset on.
pub store : (ℕ → ℕ) → ℕ → ℕ → ℕ → (ℕ → ℕ)
store b zero o v = b
store b (suc n) o v = λ j. if j == o then v % 2 ^ 8 else store b n (suc o) (v / 2 ^ 8) j

unfoldable pub read32 : Ram → ℕ → ℕ
unfolding load offset_from_pa
read32 m addr = load m.bytes 4 (offset_from_pa m addr)

unfoldable read16 : Ram → ℕ → ℕ
unfolding load offset_from_pa
read16 m addr = load m.bytes 2 (offset_from_pa m addr)

unfoldable pub read8 : Ram → ℕ → ℕ
unfolding offset_from_pa
read8 m addr = m.bytes (offset_from_pa m addr)

abbrev pub put : Ram → ℕ → ℕ → ℕ → Ram
put m n addr v =
    if not m.is_rom then record m { bytes = store m.bytes n (offset_from_pa m addr) v } else m

unfoldable pub write32 : Ram → ℕ → ℕ → Ram
unfolding store offset_from_pa
write32 m addr v = put m 4 addr v

unfoldable write16 : Ram → ℕ → ℕ → Ram
unfolding store offset_from_pa
write16 m addr v = put m 2 addr v

unfoldable pub write8 : Ram → ℕ → ℕ → Ram
unfolding store offset_from_pa
write8 m addr v = put m 1 addr v

-- The host's address, as an offset into the mapped memory.
unfoldable direct_map : Ram → ℕ → ℕ
unfolding offset_from_pa
direct_map m addr = offset_from_pa m addr

-- Bytes put one after the other.
unfoldable fill : (ℕ → ℕ) → ℕ → List ℕ → (ℕ → ℕ)
fill b o [] = b
fill b o (x ∷ xs) = λ j. if j == o then x else fill b (suc o) xs j

-- `loadAtOffset` of a file: none if it does not open, else its bytes and what `read` returns, none for an
-- error.
unfoldable pub load_at_offset : Ram → Option (List ℕ × Option ℕ) → ℕ → Outcome Ram
unfolding fill
load_at_offset m none offset = fatal
load_at_offset m (some (file, none)) offset = fatal
load_at_offset m (some (file, some r)) offset =
    if not m.mapped
    then fatal
    else if ltb m.address_span (length file + offset)
    then fatal
    else if ltb r (length file)
    then fatal
    else done (record m { bytes = fill m.bytes offset file })
