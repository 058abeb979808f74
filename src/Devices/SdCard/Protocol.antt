-- ===== src/Devices/SdCard/Protocol.antt =====
-- The commands of the card against the protocol's states (DevSDCard.cc): which commands are answered, and where each
-- leads.
use mr_iss.Base.{
  ℕ, zero, suc, ◌≡◌, refl, ap, ap₂, ◌∙◌, inl, inr, Bool, true, false, not, ◌&&◌, ◌||◌, Option, none,
  some, List, [], ◌∷◌, arith, ◌==◌, if◌then◌else◌, switch, Bool-cases, if_all, switch_all, truthy,
  bit_and, ◌>>=◌, Yields, Yields-weaken, Allows-map, Allows-test, Yields-bind, Yields-and, Allows,
  Allows-then, Allows-always, Outcome, done,
}
use mr_iss.Devices.SdCard.{
  Card, Chosen, plain_command, app_command, plain_cases, app_cases, sd_tran,
}
use mr_iss.Devices.SdCard.Laws.{IsWellFormed, command-IsWellFormed}
use mr_iss.Devices.SdCard.Command.{respond, choose, answer, command}

-- What the protocol knows of a card.
pub record Mode : Type 0 where
  pub state : ℕ
  pub pending : Bool

abbrev pub mode : Card → Mode
mode c = record { state = c.state; pending = c.acmd_pending }

abbrev member : ℕ → List ℕ → Bool
member n [] = false
member n (k ∷ ks) = n == k || member n ks

-- The commands that are answered: GO_IDLE_STATE (0) is not, nor is an unknown one.
abbrev answered : Bool → ℕ → Bool
answered false cmd = member cmd (2 ∷ 3 ∷ 6 ∷ 7 ∷ 8 ∷ 9 ∷ 12 ∷ 13 ∷ 17 ∷ 18 ∷ 23 ∷ 24 ∷ 25 ∷ 55 ∷ [])
answered true cmd = member cmd (6 ∷ 13 ∷ 41 ∷ 51 ∷ [])

-- The state that a command leads to, which is 0 idle, 1 ready, 2 ident, 3 stand-by, 4 transfer or 5 data; another
-- command leaves the state.
abbrev leads_to : Bool → ℕ → ℕ → ℕ
leads_to false cmd s =
    if cmd == 0
    then 0
    else if cmd == 2
    then 2
    else if cmd == 3
    then 3
    else if member cmd (7 ∷ 12 ∷ [])
    then 4
    else if member cmd (6 ∷ 17 ∷ 18 ∷ 24 ∷ 25 ∷ [])
    then 5
    else s
leads_to true cmd s = if cmd == 41 then 1 else if member cmd (13 ∷ 51 ∷ []) then 5 else s

-- APP_CMD (55) makes the next command an application's, for that command alone.
abbrev pub next : Mode → ℕ → Mode
next m cmd = record { state = leads_to m.pending cmd m.state; pending = not m.pending && cmd == 55 }

-- The answers and the mode that a sequence of commands comes to.
abbrev pub protocol : Mode → List (ℕ × ℕ) → List Bool × Mode
protocol m [] = ([], m)
protocol m ((cmd, arg) ∷ rest) =
    let r = protocol (next m cmd) rest in (answered m.pending cmd ∷ r.0, r.1)

-- Commands one after the other, whether each was answered, and the card after.
abbrev pub run_commands : Card → List ℕ → List (ℕ × ℕ) → Outcome (List Bool × Card)
run_commands c regs [] = done ([], c)
run_commands c regs ((cmd, arg) ∷ rest) =
    command c cmd arg regs >>= λ r. run_commands r.1 r.2 rest >>= λ t. done (r.0 ∷ t.0, t.1)

abbrev map_cases {ℓ κ} : {A : Type ℓ} {B : Type κ} → (A → B) → List (ℕ × A) → List (ℕ × B)
map_cases f [] = []
map_cases f ((k, a) ∷ cases) = (k, f a) ∷ map_cases f cases

switch-map {ℓ κ} :
    {A : Type ℓ} {B : Type κ} (f : A → B) (n : ℕ) (cases : List (ℕ × A)) (d : A)
    → f (switch n cases d) ≡ switch n (map_cases f cases) (f d)
switch-map f n [] d = refl
switch-map f n ((k, a) ∷ cases) d = elim (Bool-cases (n == k)) [
  | inl e ↦ rw e refl
  | inr e ↦ rw e (switch-map f n cases d)
]

-- A response of a positive type is an answer.
abbrev replies : Option ℕ → Bool
replies none = false
replies (some zero) = false
replies (some (suc t)) = true

plain_command-mode :
    (c : Card) (cmd arg : ℕ)
    → c.acmd_pending ≡ false
    → (replies (plain_command c cmd arg).0 ≡ answered false cmd)
      × ((plain_command c cmd arg).2.state ≡ leads_to false cmd c.state)
      × ((plain_command c cmd arg).2.acmd_pending ≡ (cmd == 55))
unfolding plain_command
plain_command-mode c cmd arg h = (
  switch-map (λ (r : Chosen). replies r.0) cmd (plain_cases c arg) (none, none, c) ∙ ground arith,
  switch-map (λ (r : Chosen). r.2.state) cmd (plain_cases c arg) (none, none, c) ∙ ground arith,
  switch-map (λ (r : Chosen). r.2.acmd_pending) cmd (plain_cases c arg) (none, none, c)
      ∙ ground arith,
)

app_command-mode :
    (c : Card) (cmd arg : ℕ)
    → (replies (app_command c cmd arg).0 ≡ answered true cmd)
      × ((app_command c cmd arg).2.state ≡ leads_to true cmd c.state)
      × ((app_command c cmd arg).2.acmd_pending ≡ false)
unfolding app_command
app_command-mode c cmd arg =
    let d = record c { acmd_pending = false } in
    (
      switch-map (λ (r : Chosen). replies r.0) cmd (app_cases d arg) (none, none, d) ∙ ground arith,
      switch-map (λ (r : Chosen). r.2.state) cmd (app_cases d arg) (none, none, d) ∙ ground arith,
      switch-map (λ (r : Chosen). r.2.acmd_pending) cmd (app_cases d arg) (none, none, d)
          ∙ ground arith,
    )

-- What a command comes to, for the protocol.
abbrev pub Follows : Mode → ℕ → Bool × Mode → Type 0
Follows m cmd r = (r.0 ≡ answered m.pending cmd) × (r.1 ≡ next m cmd)

-- By whether an application command is pending.
chosen-Follows :
    (b : Bool) (d : Card) (cmd arg : ℕ)
    → d.acmd_pending ≡ b
    → let r : Chosen = if b then app_command d cmd arg else plain_command d cmd arg in
      Follows (record { state = d.state; pending = b }) cmd (replies r.0, mode r.2)
chosen-Follows true d cmd arg e =
    let (a, s, p) = app_command-mode d cmd arg in
    (a, ap₂ (λ x y. record { state = x; pending = y }) s p)
chosen-Follows false d cmd arg e =
    let (a, s, p) = plain_command-mode d cmd arg e in
    (a, ap₂ (λ x y. record { state = x; pending = y }) s p)

choose-Follows :
    (c : Card) (cmd arg : ℕ)
    → let r = choose c cmd arg in Follows (mode c) cmd (replies r.0, mode r.2)
unfolding choose
choose-Follows c cmd arg =
    let d = record c { last_cmd = cmd; last_arg = arg; last_acmd = c.acmd_pending } in
    chosen-Follows c.acmd_pending d cmd arg refl

-- The file stays open.
choose-opened : (c : Card) (cmd arg : ℕ) → (choose c cmd arg).2.opened ≡ c.opened
unfolding choose plain_command app_command
choose-opened c cmd arg =
    let d = record c { last_cmd = cmd; last_arg = arg; last_acmd = c.acmd_pending } in
    let e = record d { acmd_pending = false } in
    let P : Chosen → Type 0 = λ r. r.2.opened ≡ c.opened in
    if_all P c.acmd_pending _ _
      (switch_all P cmd (app_cases e arg) (none, none, e)
        (
          refl,
          (
            if_all (λ (x : Card). x.opened ≡ c.opened) (truthy (bit_and arg 1)) e _ refl refl,
            (refl, (refl, tt)),
          ),
        )
        refl)
      (switch_all P cmd (plain_cases d arg) (none, none, d)
        (
          refl,
          (
            refl,
            (
              refl,
              (
                refl,
                (
                  refl,
                  (
                    refl,
                    (refl, (refl, (refl, (refl, (refl, (refl, (refl, (refl, (refl, tt))))))))),
                  ),
                ),
              ),
            ),
          ),
        )
        refl)

answer-Allows :
    (cmd arg : ℕ) (regs : List ℕ) (r : Chosen)
    → Allows (λ out. (out.0 ≡ replies r.0) × (out.1 ≡ r.2)) (answer cmd arg regs r)
unfolding answer
answer-Allows cmd arg regs (none, subtype, c) = (refl, refl)
answer-Allows cmd arg regs (some zero, subtype, c) = (refl, refl)
answer-Allows cmd arg regs (some (suc t), subtype, c) =
    Allows-then (λ _. Unit {0}) (λ (out : Bool × Card × List ℕ). (out.0 ≡ true) × (out.1 ≡ c))
      (respond c cmd arg (suc t) subtype regs) (λ r. done (true, c, r))
      (Allows-always _ (respond c cmd arg (suc t) subtype regs) (λ _. tt)) (λ r _. (refl, refl))

-- A card with a file, well-formed.
abbrev pub IsReady : Card → Type 0
IsReady c = (c.opened ≡ true) × IsWellFormed c

abbrev Step : Card → ℕ → Bool × Card × List ℕ → Type 0
Step c cmd out = IsReady out.1 × Follows (mode c) cmd (out.0, mode out.1)

command-Allows :
    (c : Card) (cmd arg : ℕ) (regs : List ℕ)
    → c.opened ≡ true
    → Allows
        (λ out. (out.1.opened ≡ true) × Follows (mode c) cmd (out.0, mode out.1))
        (command c cmd arg regs)
unfolding command
command-Allows c cmd arg regs h =
    let (a, m) = choose-Follows c cmd arg in
    Allows-test (λ out. (out.1.opened ≡ true) × Follows (mode c) cmd (out.0, mode out.1)) c.opened
      (answer cmd arg regs (choose c cmd arg)) (done (false, c, regs))
      (λ _.
        Allows-map
          (λ (out : Bool × Card × List ℕ).
            (out.0 ≡ replies (choose c cmd arg).0) × (out.1 ≡ (choose c cmd arg).2))
          (λ out. (out.1.opened ≡ true) × Follows (mode c) cmd (out.0, mode out.1))
          (answer cmd arg regs (choose c cmd arg))
          (λ out k. (
            ap (λ (x : Card). x.opened) k.1 ∙ choose-opened c cmd arg ∙ h,
            (k.0 ∙ a, ap mode k.1 ∙ m),
          ))
          (answer-Allows cmd arg regs (choose c cmd arg)))
      (λ e. absurd (cc))

command-Step :
    (c : Card) (cmd arg : ℕ) (regs : List ℕ)
    → IsReady c
    → Yields (Step c cmd) (command c cmd arg regs)
command-Step c cmd arg regs (h, w) =
    Yields-weaken _ (Step c cmd) (command c cmd arg regs) (λ out k. ((k.1.0, k.0), k.1.1))
      (Yields-and (λ (out : Bool × Card × List ℕ). IsWellFormed out.1)
        (λ out. (out.1.opened ≡ true) × Follows (mode c) cmd (out.0, mode out.1))
        (command c cmd arg regs) (command-IsWellFormed c cmd arg regs w)
        (command-Allows c cmd arg regs h))

-- On a well-formed card with a file, every sequence of commands, of any numbers and arguments, returns, is answered as
-- the protocol says, command by command, and leaves the card in the protocol's state, with an application command
-- pending exactly if the protocol has one pending.
pub run_commands-protocol :
    (c : Card) (regs : List ℕ) (cmds : List (ℕ × ℕ))
    → IsReady c
    → Yields
        (λ out. (out.0 ≡ (protocol (mode c) cmds).0) × (mode out.1 ≡ (protocol (mode c) cmds).1))
        (run_commands c regs cmds)
run_commands-protocol c regs [] h = (refl, refl)
run_commands-protocol c regs ((cmd, arg) ∷ rest) h =
    Yields-bind (Step c cmd) _ (command c cmd arg regs) _ (command-Step c cmd arg regs h) (λ r k.
      Yields-bind
        (λ t. (t.0 ≡ (protocol (mode r.1) rest).0) × (mode t.1 ≡ (protocol (mode r.1) rest).1)) _
        (run_commands r.1 r.2 rest) _ (run_commands-protocol r.1 r.2 rest k.0)
        (λ t g. (
          ap₂ (λ (x : Bool) xs. x ∷ xs) k.1.0 (g.0 ∙ ap (λ m. (protocol m rest).0) k.1.1),
          g.1 ∙ ap (λ m. (protocol m rest).1) k.1.1,
        )))

-- The start-up of a driver.
abbrev pub startup : ℕ → ℕ → ℕ → List (ℕ × ℕ)
startup check volts rca =
    (0, 0) ∷ (8, check) ∷ (55, 0) ∷ (41, volts) ∷ (2, 0) ∷ (3, 0) ∷ (7, rca) ∷ []

-- It ends in the transfer state from any mode.
startup-protocol :
    (m : Mode) (check volts rca : ℕ)
    → (protocol m (startup check volts rca)).1 ≡ record { state = sd_tran; pending = false }
startup-protocol m check volts rca = elim (Bool-cases m.pending) [
  | inl e ↦ rw e refl
  | inr e ↦ rw e refl
]
