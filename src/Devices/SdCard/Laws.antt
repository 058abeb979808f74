-- ===== src/Devices/SdCard/Laws.antt =====
-- The invariant of the card, which every command keeps.
use mr_iss.Base.{
  ℕ, ◌<◌, bit_and, ◌≡◌, refl, ◌⊎◌, inl, inr, Bool, false, none, List, arith, if◌then◌else◌, truthy,
  Yields, done, switch_all, if_all,
}
use mr_iss.Devices.SdCard.{Card, Chosen, plain_command, app_command, app_cases, plain_cases}
use mr_iss.Devices.SdCard.Command.{respond, choose, answer, command}

-- The state is one of the first six, and the bus is one or four bits wide.
abbrev pub IsWellFormed : Card → Type 0
IsWellFormed c = (c.state < 6) × ((c.width ≡ 1) ⊎ (c.width ≡ 4))

-- The card after a command, whose words are `regs`.
abbrev Answers : ℕ → ℕ → List ℕ → Chosen → Type 0
Answers cmd arg regs r =
    Yields (λ (out : Bool × Card × List ℕ). IsWellFormed out.1) (answer cmd arg regs r)

plain_command-Answers :
    (c : Card) (cmd arg : ℕ) (regs : List ℕ)
    → IsWellFormed c
    → Answers cmd arg regs (plain_command c cmd arg)
unfolding plain_command answer respond
plain_command-Answers c cmd arg regs h =
    switch_all (Answers cmd arg regs) cmd (plain_cases c arg) (none, none, c)
      (
        (omega arith, h.1),
        (
          (omega arith, h.1),
          (
            (omega arith, h.1),
            (
              h,
              (
                (omega arith, h.1),
                (
                  (omega arith, h.1),
                  (
                    h,
                    (
                      (omega arith, h.1),
                      (
                        h,
                        (
                          (omega arith, h.1),
                          (
                            (omega arith, h.1),
                            (h, ((omega arith, h.1), ((omega arith, h.1), (h, tt)))),
                          ),
                        ),
                      ),
                    ),
                  ),
                ),
              ),
            ),
          ),
        ),
      )
      h

app_command-Answers :
    (c : Card) (cmd arg : ℕ) (regs : List ℕ)
    → IsWellFormed c
    → Answers cmd arg regs (app_command c cmd arg)
unfolding app_command answer respond
app_command-Answers c cmd arg regs h =
    let d = record c { acmd_pending = false } in
    let wide =
      if_all IsWellFormed (truthy (bit_and arg 1)) d
        (record d { width = if truthy (bit_and arg 2) then 4 else 1 }) h
        (h.0, if_all (λ w. (w ≡ 1) ⊎ (w ≡ 4)) (truthy (bit_and arg 2)) 4 1 (inr refl) (inl refl)) in
    switch_all (Answers cmd arg regs) cmd (app_cases d arg) (none, none, d)
      ((omega arith, h.1), (wide, ((omega arith, h.1), ((omega arith, h.1), tt)))) h

-- Every command, of any number and argument, returns and leaves the card well-formed.
pub command-IsWellFormed :
    (c : Card) (cmd arg : ℕ) (regs : List ℕ)
    → IsWellFormed c
    → Yields (λ out. IsWellFormed out.1) (command c cmd arg regs)
unfolding command choose
command-IsWellFormed c cmd arg regs h =
    let d = record c { last_cmd = cmd; last_arg = arg; last_acmd = c.acmd_pending } in
    if_all (Yields (λ (out : Bool × Card × List ℕ). IsWellFormed out.1)) c.opened _
      (done (false, c, regs))
      (if_all (Answers cmd arg regs) c.acmd_pending (app_command d cmd arg)
        (plain_command d cmd arg) (app_command-Answers d cmd arg regs h)
        (plain_command-Answers d cmd arg regs h))
      h
