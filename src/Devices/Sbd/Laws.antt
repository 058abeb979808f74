-- ===== src/Devices/Sbd/Laws.antt =====
-- The block device's register protocol, and the extent of its transfers.
use mr_iss.Base.{
  ℕ, ◌+◌, ◌*◌, ◌^◌, ◌<◌, ◌≡◌, refl, true, not, ◌&&◌, ◌||◌, some, arith, ltb, leb, ◌==◌,
  if◌then◌else◌, Yields, Yields-bind, done, Yields-test,
}
use mr_iss.Devices.Sbd.{
  reg_irq, Host, Sbd, put, reg_cmd, reg_blks, reg_blk_start, reg_len, reg_pa, cmd_idle, reg_of,
  off_end, get_addr_dma, transfer, moved, command, write32,
}

-- Between two accesses: no command is under way, and the size register holds the image's size.
pub record IsReady (d : Sbd) : Type 0 where
  pub idle : d.regs reg_cmd ≡ cmd_idle
  pub blocks : d.regs reg_blks ≡ d.nr_blocks

-- A host whose bus maps every address that a transfer may name.
pub record Maps (host : Host) : Type 0 where
  pub at : host.World → ℕ → ℕ
  pub maps : (w : host.World) (addr : ℕ) → host.direct_map w addr ≡ some (at w addr)

module _ (host : Host) (m : Maps host) where
  open host use {World}

  -- A transfer with a sum below 2^32 on an image below 4 GiB happens exactly when it is of one block at
  -- least and lies inside the image, and it then moves just its blocks; else nothing is moved.
  pub transfer-inside :
      (move : World → ℕ → ℕ → ℕ → World) (d : Sbd) (w : World) (block_start num pa : ℕ)
      → d.has_bus ≡ true
      → d.nr_blocks < 2 ^ 23
      → block_start + num < 2 ^ 32
      → transfer host move d w block_start num pa
        ≡ done (
            if d.opened && ltb 0 num && leb (block_start + num) d.nr_blocks
            then move w (m.at w pa) (num * 512) (block_start * 512)
            else w)
  unfolding transfer get_addr_dma off_end
  transfer-inside move d w block_start num pa hb hn hs = rw (hb, m.maps w pa) (ground arith)

  transfer_returns :
      (move : World → ℕ → ℕ → ℕ → World) (d : Sbd) (w : World) (block_start num pa : ℕ)
      → d.has_bus ≡ true
      → Yields (λ _. Unit) (transfer host move d w block_start num pa)
  unfolding transfer get_addr_dma
  transfer_returns move d w block_start num pa hb =
      rw (hb, m.maps w pa)
        (Yields-test (λ _. Unit) (num == 0 || not d.opened) _ _ (λ _. tt) (λ _. tt))

  moved_returns :
      (d : Sbd) (w : World) (value : ℕ)
      → d.has_bus ≡ true
      → Yields (λ _. Unit) (moved host d w value)
  unfolding moved
  moved_returns d w value hb =
      Yields-test (λ _. Unit) (value == 1) _ _ (λ _. transfer_returns host.pread d w _ _ _ hb)
        (λ _.
          Yields-test (λ _. Unit) (value == 3) _ _ (λ _. transfer_returns host.pwrite d w _ _ _ hb)
            (λ _. tt))

  put-IsReady :
      (d : Sbd) (r value : ℕ)
      → IsReady d
      → (r == reg_irq || r == reg_pa || r == reg_len || r == reg_blk_start) ≡ true
      → IsReady (put d r value)
  put-IsReady d r value h e = record {
    idle = ground (arith, h.idle);
    blocks = ground (arith, h.blocks);
  }

  -- Every write to the registers returns, and leaves the device ready for the next command with its
  -- size as it was.
  pub write32-IsReady :
      (d : Sbd) (w : World) (addr value : ℕ)
      → d.has_bus ≡ true
      → IsReady d
      → Yields (λ r. IsReady r.0 × (r.0.nr_blocks ≡ d.nr_blocks)) (write32 host d w addr value)
  unfolding write32 command
  write32-IsReady d w addr value hb h =
      let r = reg_of addr in
      let P : Sbd × World → Type 0 = λ x. IsReady x.0 × (x.0.nr_blocks ≡ d.nr_blocks) in
      Yields-test P (r == reg_irq || r == reg_pa || r == reg_len || r == reg_blk_start) _ _
        (λ e. (put-IsReady d r value h e, refl))
        (λ _.
          Yields-test P (r == reg_cmd) _ _
            (λ _.
              Yields-test P (d.regs reg_cmd == cmd_idle) _ _
                (λ _.
                  Yields-bind (λ _. Unit) P (moved host d w value) _ (moved_returns d w value hb)
                    (λ w' _. (record { idle = refl; blocks = h.blocks }, refl)))
                (λ _. (h, refl)))
            (λ _. (h, refl)))
