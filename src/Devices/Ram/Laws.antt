-- ===== src/Devices/Ram/Laws.antt =====
-- What is read of the memory after a write.
use mr_iss.Base.{
  ℕ, zero, suc, ◌+◌, ◌*◌, ◌/◌, ◌%◌, ◌^◌, ◌≤◌, ◌<◌, ◌≡◌, refl, ap, ◌∙◌, ◌⊎◌, inl, inr, true, false,
  arith, ==_of_ne, ==_self, Bool-cases,
}
use mr_iss.Devices.Ram.{Ram, load, store, read32, write32, offset_from_pa}

store-below : (b : ℕ → ℕ) (n o v j : ℕ) → j < o → store b n o v j ≡ b j
unfolding store
store-below b zero o v j h = refl
store-below b (suc n) o v j h = ground (arith, store-below b n (suc o) (v / 2 ^ 8) j (omega arith))

store-above : (b : ℕ → ℕ) (n o v j : ℕ) → o + n ≤ j → store b n o v j ≡ b j
unfolding store
store-above b zero o v j h = refl
store-above b (suc n) o v j h = ground (arith, store-above b n (suc o) (v / 2 ^ 8) j (omega arith))

-- A load of bytes that agree.
load_cong :
    (b c : ℕ → ℕ) (n o : ℕ) → ((j : ℕ) → o ≤ j → j < o + n → b j ≡ c j) → load b n o ≡ load c n o
unfolding load
load_cong b c zero o h = refl
load_cong b c (suc n) o h =
    ap (λ x. x + load b n (suc o) * 2 ^ 8) (h o (omega arith) (omega arith))
    ∙ ap (λ x. c o + x * 2 ^ 8) (load_cong b c n (suc o) (λ j l k. h j (omega arith) (omega arith)))

mod_step : (n v : ℕ) → n < 4 → v % 2 ^ 8 + v / 2 ^ 8 % 2 ^ (8 * n) * 2 ^ 8 ≡ v % 2 ^ (8 * suc n)
mod_step zero v h = omega arith
mod_step (suc zero) v h = omega arith
mod_step (suc (suc zero)) v h = omega arith
mod_step (suc (suc (suc zero))) v h = omega arith
mod_step (suc (suc (suc (suc n)))) v h = absurd (omega arith)

mod_one : (v : ℕ) → 0 ≡ v % 1
mod_one v = omega arith

store_head : (b : ℕ → ℕ) (n o v : ℕ) → store b (suc n) o v o ≡ v % 2 ^ 8
unfolding store
store_head b n o v = rw (==_self o) refl

store_tail :
    (b : ℕ → ℕ) (n o v j : ℕ) → suc o ≤ j → store b (suc n) o v j ≡ store b n (suc o) (v / 2 ^ 8) j
unfolding store
store_tail b n o v j h = rw (==_of_ne j o (λ e. absurd (omega arith))) refl

load-store : (b : ℕ → ℕ) (n o v : ℕ) → n ≤ 4 → load (store b n o v) n o ≡ v % 2 ^ (8 * n)
unfolding load
load-store b zero o v h = mod_one v
load-store b (suc n) o v h =
    ap (λ x. x + load (store b (suc n) o v) n (suc o) * 2 ^ 8) (store_head b n o v)
    ∙ ap (λ x. v % 2 ^ 8 + x * 2 ^ 8)
        (load_cong (store b (suc n) o v) (store b n (suc o) (v / 2 ^ 8)) n (suc o)
            (λ j l k. store_tail b n o v j l)
          ∙ load-store b n (suc o) (v / 2 ^ 8) (omega arith))
    ∙ mod_step n v (omega arith)

-- Bytes apart from those that are put are loaded as they were.
load-store_apart :
    (b : ℕ → ℕ) (n k o p v : ℕ) → (p + k ≤ o) ⊎ (o + n ≤ p) → load (store b n o v) k p ≡ load b k p
load-store_apart b n k o p v (inl h) =
    load_cong (store b n o v) b k p (λ j l m. store-below b n o v j (omega arith))
load-store_apart b n k o p v (inr h) =
    load_cong (store b n o v) b k p (λ j l m. store-above b n o v j (omega arith))

-- A word written to RAM reads back as it was written, as a word, and from any address whose four bytes lie apart from
-- it a word reads as before; a write to ROM changes nothing.
pub read32-write32 :
    (m : Ram) (addr other v : ℕ)
    → v < 2 ^ 32
    → (m.is_rom ≡ false → read32 (write32 m addr v) addr ≡ v)
      × ((offset_from_pa m other + 4 ≤ offset_from_pa m addr)
            ⊎ (offset_from_pa m addr + 4 ≤ offset_from_pa m other)
          → read32 (write32 m addr v) other ≡ read32 m other)
      × (m.is_rom ≡ true → write32 m addr v ≡ m)
unfolding read32 write32
read32-write32 m addr other v h =
    let o = offset_from_pa m addr in
    (
      λ e. rw e (load-store m.bytes 4 o v (omega arith) ∙ omega arith),
      λ apart. elim (Bool-cases m.is_rom) [
        | inl e ↦ rw e refl
        | inr e ↦ rw e (load-store_apart m.bytes 4 4 o (offset_from_pa m other) v apart)
      ],
      λ e. rw e refl,
    )
