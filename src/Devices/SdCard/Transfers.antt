-- ===== src/Devices/SdCard/Transfers.antt =====
-- The transfers of the card.
use mr_iss.Base.{
  ℕ, ◌*◌, ◌≡◌, refl, sym, subst, ◌≢◌, ◌↔◌, inl, inr, Bool, true, false, not, Option, none, some,
  List, arith, ◌==◌, if◌then◌else◌, if_all, ==_iff, Bool-cases, u32, Yields,
}
use mr_iss.Devices.SdCard.{Disk, Card, in_state, rcmd, sd_data, sd_tran, cmd17}
use mr_iss.Devices.SdCard.Command.{command, Ended, finish_file, read_data, write_data, read, write}

module _ (disk : Disk) where
  open disk use {World, pread, pwrite, store}

  -- Where a transfer leaves the card: in the transfer state if it was a transfer, else as it was.
  abbrev pub EndsIn : Card → World → Ended disk → Type 0
  EndsIn c w r =
      ((c.state ≡ sd_data) → r.2 ≡ in_state c sd_tran)
      × ((c.state ≢ sd_data) → r ≡ (false, 0, c, w))

  ends_file :
      (c : Card) (size err : ℕ) (r : Option ℕ × World)
      → (finish_file disk c size err r).2 ≡ in_state c sd_tran
  unfolding finish_file
  ends_file c size err (none, w) = refl
  ends_file c size err (some k, w) =
      if_all (λ (e : Ended disk). e.2 ≡ in_state c sd_tran) (k == size) _ _ refl refl

  abbrev IsTran : Card → Ended disk → Type 0
  IsTran c r = r.2 ≡ in_state c sd_tran

  -- The branch of a transfer is taken in the data state alone.
  either :
      (c : Card) (w : World) (r : Ended disk)
      → IsTran c r
      → EndsIn c w (if not (c.state == sd_data) then (false, 0, c, w) else r)
  either c w r t =
      let (to, from) = ==_iff c.state sd_data in
      elim (Bool-cases (c.state == sd_data)) [
        | inl e ↦ (λ _. rw e t, λ ne. absurd (ne (to e)))
        | inr e ↦ (λ d. absurd (ground (arith, e, from d)), λ _. rw e refl)
      ]

  read_data-IsTran :
      (c : Card) (w : World) (a size err : ℕ) → IsTran c (read_data disk c w a size err)
  unfolding read_data
  read_data-IsTran c w a size err = ground (
    arith,
    ends_file c 512 err (pread w a 512 c.offset),
    ends_file c size err (pread w a size c.offset),
  )

  write_data-IsTran :
      (c : Card) (w : World) (a size err : ℕ) → IsTran c (write_data disk c w a size err)
  unfolding write_data
  write_data-IsTran c w a size err = ground (
    arith,
    ends_file c 512 err (pwrite w a 512 c.offset),
    ends_file c size err (pwrite w a size c.offset),
  )

  read-EndsIn : (c : Card) (w : World) (a size err : ℕ) → EndsIn c w (read disk c w a size err)
  unfolding read
  read-EndsIn c w a size err = either c w _ (read_data-IsTran c w a size err)

  write-EndsIn : (c : Card) (w : World) (a size err : ℕ) → EndsIn c w (write disk c w a size err)
  unfolding write
  write-EndsIn c w a size err = either c w _ (write_data-IsTran c w a size err)

  -- A read or a write in the data state always ends in the transfer state and changes nothing else of the
  -- card, whatever command came before and whatever the file answers; in any other state it does nothing and
  -- reports no error.
  pub transfers-end :
      (c : Card) (w : World) (a size err : ℕ)
      → EndsIn c w (read disk c w a size err) × EndsIn c w (write disk c w a size err)
  transfers-end c w a size err = (read-EndsIn c w a size err, write-EndsIn c w a size err)

  -- What the command to read one block and the read after it come to.
  abbrev pub ReadsBlock : World → ℕ → ℕ → Bool × Card × List ℕ → Type 0
  ReadsBlock w a arg out =
      let r = read disk out.1 w a 512 0 in
      let answer = pread w a 512 (u32 (arg * 512)) in
      (out.0 ≡ true)
      × (r.3 ≡ answer.1)
      × (r.2.state ≡ sd_tran)
      × ((r.0 ≡ true) ↔ (answer.0 ≡ some 512))
      × ((r.1 ≡ 0) ↔ (answer.0 ≡ some 512))

  file_answer :
      (c : Card) (r : Option ℕ × World)
      → let e = finish_file disk c 512 0 r in
        (e.3 ≡ r.1)
        × (e.2.state ≡ sd_tran)
        × ((e.0 ≡ true) ↔ (r.0 ≡ some 512))
        × ((e.1 ≡ 0) ↔ (r.0 ≡ some 512))
  unfolding finish_file
  file_answer c (none, w) = ground arith
  file_answer c (some k, w) = ground arith

  -- The command and the read with the tests of the card's fields decided.
  reads_from :
      (c : Card) (w : World) (a arg : ℕ) (regs : List ℕ)
      → Yields
          (ReadsBlock w a arg)
          (command (record c { opened = true; acmd_pending = false }) (rcmd cmd17) arg regs)
  unfolding command read
  reads_from c w a arg regs =
      let offset = u32 (arg * 512) in
      let after = record c {
        opened = true;
        acmd_pending = false;
        state = sd_data;
        last_cmd = rcmd cmd17;
        last_arg = arg;
        last_acmd = false;
        offset = offset;
      } in
      let f = file_answer after (pread w a 512 offset) in (refl, f.0, f.1, f.2, f.3)

  -- On a card with a file and no application command pending, the command to read one block and then a
  -- read are good, with no error flag, exactly when the file gives 512 bytes from 512 times the block's
  -- number, modulo 2^32, and in any case the card is in the transfer state.
  pub command-read :
      (c : Card) (w : World) (a arg : ℕ) (regs : List ℕ)
      → c.opened ≡ true
      → c.acmd_pending ≡ false
      → Yields (ReadsBlock w a arg) (command c (rcmd cmd17) arg regs)
  command-read c w a arg regs h k =
      subst
        (λ b. Yields (ReadsBlock w a arg) (command (record c { opened = b }) (rcmd cmd17) arg regs))
        (sym h)
        (subst
          (λ b.
            Yields (ReadsBlock w a arg)
              (command (record c { opened = true; acmd_pending = b }) (rcmd cmd17) arg regs))
          (sym k) (reads_from c w a arg regs))
