-- ===== src/Devices/SdCard/Command.antt =====
-- The card's operations for the host controller (DevSDCard.cc): a command with its response, and the transfers.
use mr_iss.Base.{
  ℕ, zero, suc, bit_and, Bool, true, false, not, ◌&&◌, Option, none, some, List, [], ◌∷◌, ◌==◌,
  if◌then◌else◌, switch, bool_eq, set, ◌>>=◌, Outcome, done, fatal,
}
use mr_iss.Devices.SdCard.{
  Disk, Card, Chosen, in_state, rcmd, sd_data, sd_tran, cmd6, cmd17, cmd18, cmd24, cmd25, acmd51,
  acmd13, get_status, make_response, plain_command, app_command,
}
use mr_iss.Devices.SdCard.Data.{
  make_cid, make_csd, write_scr, write_status, write_switch_status, words,
}

-- The response, over the words that the controller has.
unfoldable pub respond : Card → ℕ → ℕ → ℕ → Option ℕ → List ℕ → Outcome (List ℕ)
unfolding get_status make_response make_cid make_csd words
respond c cmd arg r_type subtype regs =
    let short = λ (payload : ℕ).
      let (lo, hi) = make_response cmd payload in done (set (set regs 0 lo) 1 hi) in
    switch r_type
      ((0xf, short (get_status c))
        ∷ (1, short (get_status c))
        ∷ (
          2,
          elim subtype [
            | none ↦ fatal
            | some n ↦
                switch n
                  ((0, done (words make_cid)) ∷ (1, done (words (make_csd c.image_blocks))) ∷ [])
                  fatal
          ],
        )
        ∷ (3, short 0xc0ff_8000)
        ∷ (6, short 0xbeef_0000)
        ∷ (7, short (bit_and arg 0xfff))
        ∷ [])
      fatal

-- `switch` on the command, by whether an application command is pending.
unfoldable pub choose : Card → ℕ → ℕ → Chosen
unfolding plain_command app_command
choose c cmd arg =
    let d = record c { last_cmd = cmd; last_arg = arg; last_acmd = c.acmd_pending } in
    if c.acmd_pending then app_command d cmd arg else plain_command d cmd arg

-- After the switch: no response for a type that is not positive.
unfoldable pub answer : ℕ → ℕ → List ℕ → Chosen → Outcome (Bool × Card × List ℕ)
unfolding respond
answer cmd arg regs (none, subtype, c) = done (false, c, regs)
answer cmd arg regs (some zero, subtype, c) = done (false, c, regs)
answer cmd arg regs (some (suc t), subtype, c) =
    respond c cmd arg (suc t) subtype regs >>= λ r. done (true, c, r)

-- `command`: whether it was accepted, the card after, and the words of the response.
unfoldable pub command : Card → ℕ → ℕ → List ℕ → Outcome (Bool × Card × List ℕ)
unfolding choose answer
command c cmd arg regs =
    if c.opened then answer cmd arg regs (choose c cmd arg) else done (false, c, regs)

module _ (disk : Disk) where
  open disk use {World, pread, pwrite, store}

  -- Whether the last command was this one.
  abbrev last_was : Card → Bool → ℕ → Bool
  last_was c acmd cmd = bool_eq c.last_acmd acmd && c.last_cmd == rcmd cmd

  -- The end of a transfer: whether it is good, the error flag and the card, back in the transfer state.
  abbrev pub Ended : Type 0
  Ended = Bool × ℕ × Card × World

  abbrev ended : Card → Bool → ℕ → World → Ended
  ended c ok err w = (ok, err, in_state c sd_tran, w)

  -- With the result of `pread` or `pwrite`, which is good when it is the size that was wanted.
  unfoldable pub finish_file : Card → ℕ → ℕ → Option ℕ × World → Ended
  finish_file c size err (none, w) = ended c false 1 w
  finish_file c size err (some r, w) = if r == size then ended c true err w else ended c false 1 w

  -- `read` in the data state: by the command that came before.
  unfoldable pub read_data : Card → World → ℕ → ℕ → ℕ → Ended
  unfolding write_scr write_status write_switch_status finish_file
  read_data c w data_out size err =
      if last_was c true acmd51
      then ended c true err (store w data_out write_scr)
      else if last_was c true acmd13
      then ended c true err (store w data_out (write_status c.width))
      else if last_was c false cmd6
      then ended c true err (store w data_out write_switch_status)
      else if last_was c false cmd17
      then finish_file c 512 err (pread w data_out 512 c.offset)
      else if last_was c false cmd18
      then finish_file c size err (pread w data_out size c.offset)
      else ended c false 1 w

  -- `read` to an address, with the error flag that the caller has.
  unfoldable pub read : Card → World → ℕ → ℕ → ℕ → Ended
  unfolding read_data
  read c w data_out size err =
      if not (c.state == sd_data) then (false, 0, c, w) else read_data c w data_out size err

  -- `write` in the data state.
  unfoldable pub write_data : Card → World → ℕ → ℕ → ℕ → Ended
  unfolding finish_file
  write_data c w data_in size err =
      if last_was c false cmd24
      then finish_file c 512 err (pwrite w data_in 512 c.offset)
      else if last_was c false cmd25
      then finish_file c size err (pwrite w data_in size c.offset)
      else ended c false 1 w

  -- `write` from an address.
  unfoldable pub write : Card → World → ℕ → ℕ → ℕ → Ended
  unfolding write_data
  write c w data_in size err =
      if not (c.state == sd_data) then (false, 0, c, w) else write_data c w data_in size err
