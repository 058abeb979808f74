-- ===== src/Mmu/Bat.antt =====
-- Block address translation: `matchBAT` (PPCMMU.cc).
pub mod Laws
use mr_iss.Base.{
  ℕ, bit_and, bit_or, bit_xor, Bool, true, false, not, ◌&&◌, ◌||◌, Option, none, some, List, [],
  ◌∷◌, ◌==◌, if◌then◌else◌, u32, ◌<<<◌, not32,
}
use mr_iss.Mmu.State.{Mmu, Bat, Perms}

-- A hit carries `*output_addr`, unless `pp` is 0 and the code left it unwritten.
pub data BatResult : Type 0 where
  miss : BatResult
  hit : Option ℕ → Perms → BatResult

-- `0xfffe0000 << bl_shift`, in 32 bits.
pub bat_mask : Bat → ℕ
bat_mask b = u32 (0xfffe_0000 <<< b.bl_shift)

-- Whether the entry serves this privilege and covers the address.
pub bat_matches : Bat → ℕ → Bool → Bool
unfolding bat_mask
bat_matches b addr priv =
    if (priv && not b.vs) || (not priv && not b.vp)
    then false
    else (b.vp || b.vs) && bit_and (bit_xor addr b.bepi) (bat_mask b) == 0

unfoldable pub bat_translate : Bat → ℕ → BatResult
unfolding bat_mask
bat_translate b addr =
    if b.pp == 0
    then hit none (record { r = false; w = false; clean = false })
    else hit (some (bit_or b.brpn (bit_and addr (not32 (bat_mask b)))))
        (record { r = true; w = b.pp == 2; clean = false })

-- The loop over the entries: the first that matches decides.
unfoldable pub match_bats : List Bat → ℕ → Bool → BatResult
unfolding bat_matches bat_translate
match_bats [] addr priv = miss
match_bats (b ∷ bs) addr priv =
    if bat_matches b addr priv then bat_translate b addr else match_bats bs addr priv

unfoldable pub match_bat : Mmu → ℕ → Bool → Bool → BatResult
match_bat m addr ind priv = match_bats (if ind then m.ibat else m.dbat) addr priv
