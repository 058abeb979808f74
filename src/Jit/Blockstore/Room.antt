-- ===== src/Jit/Blockstore/Room.antt =====
-- The room that `allocBlock` gives (blockstore.cc).
use mr_iss.Jit.Blockstore.{
  Blockstore, code_size, fumes, reset_blockstore, with_room, place_block, alloc_block,
}
use mr_iss.Jit.Blockstore.{Block}
use mr_iss.Base.{some, ℕ, ◌+◌, ◌-◌, ◌≤◌, ◌≡◌, refl, inl, inr, arith, ltb, Bool-cases}
use mr_iss.Jit.Blockstore.{bs_hm_lookup}
use mr_iss.Jit.Blockstore.{remember}
use mr_iss.Base.{none}
use mr_iss.Base.{Option}
use mr_iss.Jit.Blockstore.{find_block}
use mr_iss.Jit.Blockstore.{matches}
use mr_iss.Jit.Blockstore.{hash_idx}

with_room_last : (s : Blockstore) → (with_room s).last + fumes ≤ code_size
unfolding with_room reset_blockstore
with_room_last s = elim (Bool-cases (ltb (code_size - fumes) s.last)) [
  | inl e ↦ rw e (omega arith)
  | inr e ↦ rw e (ground arith)
]

place_block_room :
    (t : Blockstore) (pc pa msr : ℕ)
    → t.last + fumes ≤ code_size
    → let r = place_block t pc pa msr in (r.1 + r.0.place + 164 ≡ code_size) × (r.0.place ≡ t.last)
unfolding place_block
place_block_room t pc pa msr h = (omega arith, refl)

-- The room and the block's place fill the buffer up to the grace and the header, and are not nearly at its end.
pub alloc_block_room :
    (s : Blockstore) (pc pa msr : ℕ)
    → let r = alloc_block s pc pa msr in
      (r.1 + r.0.place + 164 ≡ code_size) × (r.0.place + fumes ≤ code_size)
unfolding alloc_block
alloc_block_room s pc pa msr =
    let (room, at) = place_block_room (with_room s) pc pa msr (with_room_last s) in
    (room, omega (arith, at, with_room_last s))

-- In an empty store the block is the first.
pub alloc_block_reset :
    (s : Blockstore) (pc pa msr : ℕ) → (alloc_block (reset_blockstore s) pc pa msr).0.place ≡ 0
unfolding alloc_block with_room place_block reset_blockstore
alloc_block_reset s pc pa msr = refl

-- A lookup that finds nothing leaves the store.
pub bs_hm_lookup-none :
    (s : Blockstore) (pc_pa msr : ℕ)
    → (bs_hm_lookup s pc_pa msr).0 ≡ none
    → (bs_hm_lookup s pc_pa msr).1 ≡ s
unfolding bs_hm_lookup remember
bs_hm_lookup-none s pc_pa msr h =
    go (find_block (matches pc_pa msr) (s.hashmap (hash_idx pc_pa msr))) h
  where
    go : (o : Option Block) → (remember s o).0 ≡ none → (remember s o).1 ≡ s
    go none h = refl
    go (some b) h = absurd (cc)
