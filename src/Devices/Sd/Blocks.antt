-- ===== src/Devices/Sd/Blocks.antt =====
-- A block that a driver moves by the controller: from the write of its control register to the file of the card
-- (DevSD.cc, DevSDCard.cc).
use mr_iss.Base.{
  ℕ, ◌+◌, ◌/◌, ◌<◌, bit_or, ap, ◌*◌, ◌%◌, ◌^◌, bit_and, ◌≡◌, refl, sym, ap₂, subst, ◌∙◌, inl, inr,
  Bool-cases, Bool, true, false, not, ◌&&◌, ◌||◌, Option, none, some, List, [], ◌∷◌, arith, ◌==◌,
  if◌then◌else◌, truthy, bool_eq, u32, ◌>>=◌, Yields, Yields-bind, Outcome, done, fatal,
}
use mr_iss.Devices.SdCard.{Disk, Card, sd_data, sd_tran}
use mr_iss.Devices.SdCard.Command.{command, read, write, finish_file}
use mr_iss.Bits.Fields.{bit_or_sum, bit_and_low}
use mr_iss.Devices.Sd.{
  reg_cb0, reg_cb1, Sd, reg_ctrl, reg_dma_addr, cmd_pending, tx_pending, rx_pending, write_reg,
}
use mr_iss.Devices.Sd.Work.{
  run_command, receive, work_command, work_tx, check_for_work, write32, after_read, after_write,
  get_addr_dma, command_number, command_argument, after_command, rx_len, tx_len, wants_irq,
}

pends : (a b : Bool) → a ≡ not b → not (bool_eq a b) ≡ true
pends true true h = cc
pends true false h = refl
pends false true h = refl
pends false false h = cc

rests : (a b : Bool) → a ≡ b → not (bool_eq a b) ≡ false
rests true true h = refl
rests true false h = cc
rests false true h = cc
rests false false h = refl

-- READ_SINGLE_BLOCK (17) or WRITE_BLOCK (24).
abbrev pub moves : Bool → ℕ
moves rx = if rx then 17 else 24

-- The card that one of them leaves.
abbrev begun : Card → ℕ → ℕ → Card
begun c num arg = record c {
  opened = true;
  acmd_pending = false;
  state = sd_data;
  last_cmd = num;
  last_arg = arg;
  last_acmd = false;
  offset = u32 (arg * 512);
}

abbrev Begins : Card → ℕ → ℕ → Bool × Card × List ℕ → Type 0
Begins c num arg out = (out.0 ≡ true) × (out.1 ≡ begun c num arg)

command-Begins_from :
    (c : Card) (rx : Bool) (arg : ℕ) (regs : List ℕ)
    → Yields
        (Begins c (moves rx) arg)
        (command (record c { opened = true; acmd_pending = false }) (moves rx) arg regs)
unfolding command
command-Begins_from c true arg regs = (refl, refl)
command-Begins_from c false arg regs = (refl, refl)

command-Begins :
    (c : Card) (rx : Bool) (num arg : ℕ) (regs : List ℕ)
    → c.opened ≡ true
    → c.acmd_pending ≡ false
    → num ≡ moves rx
    → Yields (Begins c (moves rx) arg) (command c num arg regs)
command-Begins c rx num arg regs h k e =
    subst (λ n. Yields (Begins c (moves rx) arg) (command c n arg regs)) (sym e)
      (subst
        (λ b.
          Yields (Begins c (moves rx) arg) (command (record c { opened = b }) (moves rx) arg regs))
        (sym h)
        (subst
          (λ b.
            Yields (Begins c (moves rx) arg)
              (command (record c { opened = true; acmd_pending = b }) (moves rx) arg regs))
          (sym k) (command-Begins_from c rx arg regs)))

-- The control register asks for a command, and for the transfer of that direction alone.
abbrev pub Asks : Bool → ℕ → Sd → Type 0
Asks rx v d =
    (truthy (bit_and v 0x1) ≡ not d.cmd_ack)
    × (truthy (bit_and v 0x10) ≡ (if rx then not d.rx_ack else d.rx_ack))
    × (truthy (bit_and v 0x100) ≡ (if rx then d.tx_ack else not d.tx_ack))

-- A transfer's status: 0 for the 512 bytes, else 1, a timeout.
abbrev pub status_of : Option ℕ → ℕ
status_of none = 1
status_of (some k) = if k == 512 then 0 else 1

-- The block that the command's registers name: 8 bits of the second and 24 of the first.
abbrev pub block_number : Sd → ℕ
block_number d = d.regs reg_cb1 % 2 ^ 8 * 2 ^ 24 + d.regs reg_cb0 / 2 ^ 8

command_argument_lem : (d : Sd) → d.regs reg_cb0 < 2 ^ 32 → command_argument d ≡ block_number d
unfolding command_argument
command_argument_lem d h =
    ap (λ x. bit_or x (d.regs reg_cb0 / 2 ^ 8)) (omega arith)
    ∙ bit_or_sum 24 (d.regs reg_cb1 % 2 ^ 8) (d.regs reg_cb0 / 2 ^ 8) (omega arith)

command_number_lem : (d : Sd) → command_number d ≡ d.regs reg_cb1 / 2 ^ 8 % 2 ^ 6
unfolding command_number
command_number_lem d = bit_and_low 6 (d.regs reg_cb1 / 2 ^ 8)

module _ (disk : Disk) (direct_map : disk.World → ℕ → Option ℕ) where
  open disk use {World, pread, pwrite}

  -- The file's answer at the block of a number, for the memory at `p`.
  abbrev pub file_answer : Bool → ℕ → World → ℕ → Option ℕ × World
  file_answer rx number w p =
      let at = number * 512 % 2 ^ 32 in if rx then pread w p 512 at else pwrite w p 512 at

  -- What is done: the transfer that the file made, a good command, both requests acknowledged and no other, the
  -- status of the transfer, the card ready for the next one, and the interrupt if it is enabled.
  abbrev pub Moved : Bool → Sd → ℕ → World → ℕ → Sd × World × Bool → Type 0
  Moved rx d number w p (e, w', irq) =
      let answer = file_answer rx number w p in
      (w' ≡ answer.1)
      × (e.cmd_status ≡ 0)
      × (e.cmd_ack ≡ not d.cmd_ack)
      × (e.rx_ack ≡ (if rx then not d.rx_ack else d.rx_ack))
      × (e.tx_ack ≡ (if rx then d.tx_ack else not d.tx_ack))
      × (e.rx_status ≡ (if rx then status_of answer.0 else d.rx_status))
      × (e.tx_status ≡ (if rx then d.tx_status else status_of answer.0))
      × (e.card.state ≡ sd_tran)
      × (irq ≡ (
          d.has_intc
          && (((not rx || d.irq_tx_triggered) && d.irq_tx_enabled)
              || ((rx || d.irq_rx_triggered) && d.irq_rx_enabled))))

  -- The controller with its register written, then with the card in the data state, and then its work.
  abbrev written : Sd → ℕ → Sd
  written d v = record d { regs = λ j. if j == reg_ctrl then v else d.regs j }

  abbrev started : Bool → Sd → ℕ → List ℕ → Sd
  started rx d v r =
      after_command (written d v) (true, begun d.card (moves rx) (command_argument d), r)

  abbrev rest_of : Sd × World → Outcome (Sd × World × Bool)
  rest_of r =
      work_tx disk direct_map r.0 r.1 >>= λ s. done (s.0, s.1, wants_irq disk direct_map s.0)

  -- What is left after the file's answer to a read.
  read_end :
      (d : Sd) (v p : ℕ) (r : List ℕ) (w : World) (a : Option ℕ × World)
      → pread w p 512 (command_argument d * 512 % 2 ^ 32) ≡ a
      → truthy (bit_and v 0x100) ≡ d.tx_ack
      → Yields (Moved true d (command_argument d) w p) (
          rest_of (
            after_read disk direct_map
              (started true d v r)
              (finish_file disk (begun d.card 17 (command_argument d)) 512 0 a)))
  unfolding after_read finish_file after_command work_tx tx_pending wants_irq
  read_end d v p r w (none, w') e t =
      rw (rests (truthy (bit_and v 0x100)) d.tx_ack t, e)
        (refl, refl, refl, refl, refl, refl, refl, refl, refl)
  read_end d v p r w (some k, w') e t = elim (Bool-cases (k == 512)) [
    | inl f ↦
        rw (f, rests (truthy (bit_and v 0x100)) d.tx_ack t, e)
          (refl, refl, refl, refl, refl, rw f refl, refl, refl, refl)
    | inr f ↦
        rw (f, rests (truthy (bit_and v 0x100)) d.tx_ack t, e)
          (refl, refl, refl, refl, refl, rw f refl, refl, refl, refl)
  ]

  -- What is left after its answer to a write.
  write_end :
      (d : Sd) (v p : ℕ) (r : List ℕ) (w : World) (a : Option ℕ × World)
      → pwrite w p 512 (command_argument d * 512 % 2 ^ 32) ≡ a
      → let s =
          after_write disk direct_map
            (started false d v r)
            (finish_file disk (begun d.card 24 (command_argument d)) 512 0 a) in
        Moved false d (command_argument d) w p (s.0, s.1, wants_irq disk direct_map s.0)
  unfolding after_write finish_file after_command wants_irq
  write_end d v p r w (none, w') e = rw e (refl, refl, refl, refl, refl, refl, refl, refl, refl)
  write_end d v p r w (some k, w') e = elim (Bool-cases (k == 512)) [
    | inl f ↦ rw (f, e) (refl, refl, refl, refl, refl, refl, rw f refl, refl, refl)
    | inr f ↦ rw (f, e) (refl, refl, refl, refl, refl, refl, rw f refl, refl, refl)
  ]

  module _ (d : Sd) (w : World) (v p : ℕ) (bus : d.has_bus ≡ true)
      (mapped : direct_map w (d.regs reg_dma_addr) ≡ some p) where
    base_of :
        (e : Sd) (a : ℕ)
        → e.has_bus ≡ d.has_bus
        → a ≡ d.regs reg_dma_addr
        → get_addr_dma disk direct_map e w a ≡ done p
    unfolding get_addr_dma
    base_of e a h k = rw (h ∙ bus, k, mapped) refl

    -- Once the command has been run.
    receive-started :
        (r : List ℕ)
        → Asks true v d
        → receive disk direct_map (started true d v r) w
          ≡ done (
              after_read disk direct_map (started true d v r) (
                finish_file disk
                  (begun d.card 17 (command_argument d))
                  512
                  0
                  (pread w p 512 (command_argument d * 512 % 2 ^ 32))))
    unfolding receive read rx_len after_command rx_pending
    receive-started r (cmd, rx, tx) =
        rw
          (
            pends (truthy (bit_and v 0x10)) d.rx_ack rx,
            base_of (started true d v r) ((started true d v r).regs reg_dma_addr) refl refl,
          )
          refl

    work-started :
        (r : List ℕ)
        → Asks false v d
        → (receive disk direct_map (started false d v r) w ≡ done (started false d v r, w))
          × (work_tx disk direct_map (started false d v r) w
              ≡ done (
                  after_write disk direct_map (started false d v r) (
                    finish_file disk
                      (begun d.card 24 (command_argument d))
                      512
                      0
                      (pwrite w p 512 (command_argument d * 512 % 2 ^ 32)))))
    unfolding receive write tx_len after_command rx_pending tx_pending work_tx
    work-started r (cmd, rx, tx) = (
      rw (rests (truthy (bit_and v 0x10)) d.rx_ack rx) refl,
      rw
          (
            pends (truthy (bit_and v 0x100)) d.tx_ack tx,
            base_of (started false d v r) ((started false d v r).regs reg_dma_addr) refl refl,
          )
          refl,
    )

    started-Moved :
        (rx : Bool) (r : List ℕ)
        → Asks rx v d
        → Yields
            (Moved rx d (command_argument d) w p)
            (receive disk direct_map (started rx d v r) w >>= rest_of)
    started-Moved true r asks =
        rw (receive-started r asks)
          (read_end d v p r w (pread w p 512 (command_argument d * 512 % 2 ^ 32)) refl asks.2)
    started-Moved false r asks =
        let (here, there) = work-started r asks in
        rw (here, there)
          (write_end d v p r w (pwrite w p 512 (command_argument d * 512 % 2 ^ 32)) refl)

    Started : Bool → Sd → Type 0
    Started rx e = (r : List ℕ) × (e ≡ started rx d v r)

    run_command-Started :
        (rx : Bool)
        → d.card.opened ≡ true
        → d.card.acmd_pending ≡ false
        → command_number d ≡ moves rx
        → Yields (Started rx) (run_command (written d v))
    unfolding run_command command_number command_argument Started
    run_command-Started rx file quiet number =
        Yields-bind (Begins d.card (moves rx) (command_argument d)) (Started rx)
          (command d.card (command_number d) (command_argument d)
            (d.regs 0 ∷ d.regs 1 ∷ d.regs 2 ∷ d.regs 3 ∷ []))
          (λ r. done (after_command (written d v) r))
          (command-Begins d.card rx (command_number d) (command_argument d)
            (d.regs 0 ∷ d.regs 1 ∷ d.regs 2 ∷ d.regs 3 ∷ []) file quiet number)
          (λ out k. (out.2, ap₂ (λ x y. after_command (written d v) (x, y, out.2)) k.0 k.1))

    from_Started :
        (rx : Bool) (o : Outcome Sd)
        → Asks rx v d
        → Yields (Started rx) o
        → Yields
            (Moved rx d (command_argument d) w p)
            ((o >>= λ e. receive disk direct_map e w) >>= rest_of)
    unfolding Started
    from_Started rx (done e) asks (r, q) =
        subst
          (λ x.
            Yields (Moved rx d (command_argument d) w p) (receive disk direct_map x w >>= rest_of))
          (sym q) (started-Moved rx r asks)
    from_Started rx fatal asks h = absurd h

    -- For a card with a file and no application command pending, where the bus maps the transfer's address, and the
    -- controller's registers of 32 bits hold the command to read or to write one block: a write to the control
    -- register that asks for the command and for the transfer of its direction alone returns, with the one
    -- transfer made, of 512 bytes between that address and 512 times the block's number, modulo 2^32, in the
    -- file; the command is reported good and both requests are acknowledged, the transfer's status is 0 if the
    -- file gave or took 512 bytes and else 1, the other direction's is kept, the card is in the transfer
    -- state, and the interrupt is raised as the enabled completions say.
    pub write32-Moved :
        (rx : Bool)
        → d.card.opened ≡ true
        → d.card.acmd_pending ≡ false
        → d.regs reg_cb0 < 2 ^ 32
        → d.regs reg_cb1 / 2 ^ 8 % 2 ^ 6 ≡ moves rx
        → Asks rx v d
        → Yields (Moved rx d (block_number d) w p) (write32 disk direct_map d w 0x18 v)
    unfolding write32 write_reg check_for_work work_command cmd_pending
    write32-Moved rx file quiet small number asks =
        rw (pends (truthy (bit_and v 0x1)) d.cmd_ack asks.0) (
          subst
            (λ n.
              Yields (Moved rx d n w p)
                ((run_command (written d v) >>= λ e. receive disk direct_map e w) >>= rest_of))
            (command_argument_lem d small)
            (from_Started rx (run_command (written d v)) asks
              (run_command-Started rx file quiet (command_number_lem d ∙ number))))
