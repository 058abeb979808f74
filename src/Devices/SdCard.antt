-- ===== src/Devices/SdCard.antt =====
-- The SD card behind the host controller (DevSDCard.cc, DevSDCard.h). What it prints is left out.
pub mod Crc
pub mod Data
pub mod Command
pub mod Laws
pub mod Protocol
pub mod Transfers
pub mod Responses
use mr_iss.Base.{
  ℕ, ◌*◌, ◌/◌, bit_and, bit_or, Bool, true, false, Option, none, some, List, [], ◌∷◌, if◌then◌else◌,
  switch, truthy, u8, u32, ◌<<<◌, ◌>>>◌,
}
use mr_iss.Devices.SdCard.Crc.{sd_crc7}

-- The host's file, and its memory by address: `pread` and `pwrite` take the address, the size and the
-- offset, and give none for a negative result; `store` puts bytes at an address.
pub record Disk : Type 1 where
  pub World : Type 0
  pub pread : World → ℕ → ℕ → ℕ → Option ℕ × World
  pub pwrite : World → ℕ → ℕ → ℕ → Option ℕ × World
  pub store : World → ℕ → List ℕ → World

-- `opened` is `fd != -1`.
pub record Card : Type 0 where
  pub opened : Bool
  pub image_blocks : ℕ
  pub acmd_pending : Bool
  pub state : ℕ
  pub width : ℕ
  pub last_cmd : ℕ
  pub last_arg : ℕ
  pub last_acmd : Bool
  pub offset : ℕ
  pub block_count : ℕ

abbrev pub cmd0 : ℕ
cmd0 = 0x000

abbrev pub cmd2 : ℕ
cmd2 = 0x202

abbrev pub cmd3 : ℕ
cmd3 = 0x603

abbrev pub cmd6 : ℕ
cmd6 = 0x106

abbrev pub cmd7 : ℕ
cmd7 = 0xf07

abbrev pub cmd8 : ℕ
cmd8 = 0x708

abbrev cmd9 : ℕ
cmd9 = 0x209

abbrev cmd12 : ℕ
cmd12 = 0xf0c

abbrev cmd13 : ℕ
cmd13 = 0x10d

abbrev pub cmd17 : ℕ
cmd17 = 0x111

abbrev pub cmd18 : ℕ
cmd18 = 0x112

abbrev cmd23 : ℕ
cmd23 = 0x117

abbrev pub cmd24 : ℕ
cmd24 = 0x118

abbrev pub cmd25 : ℕ
cmd25 = 0x119

abbrev pub cmd55 : ℕ
cmd55 = 0x137

abbrev pub acmd13 : ℕ
acmd13 = 0x10d

abbrev pub acmd41 : ℕ
acmd41 = 0x329

abbrev pub acmd51 : ℕ
acmd51 = 0x133

abbrev acmd6 : ℕ
acmd6 = 0x106

abbrev pub rcmd : ℕ → ℕ
rcmd x = u8 (bit_and x 0xff)

abbrev rresp : ℕ → ℕ
rresp x = u8 (bit_and (x >>> 8) 0xf)

abbrev sd_idle : ℕ
sd_idle = 0

abbrev sd_ready : ℕ
sd_ready = 1

abbrev sd_ident : ℕ
sd_ident = 2

abbrev sd_stby : ℕ
sd_stby = 3

abbrev pub sd_tran : ℕ
sd_tran = 4

abbrev pub sd_data : ℕ
sd_data = 5

-- The constructor. The fields that it leaves unset are 0 here.
unfoldable pub new_card : Card
new_card = record {
  opened = false;
  image_blocks = 0;
  acmd_pending = false;
  state = sd_idle;
  width = 1;
  last_cmd = 0;
  last_arg = 0;
  last_acmd = false;
  offset = 0;
  block_count = 0;
}

-- `init`. The file: none for no name, else what `open` and `fstat` say, none when it does not open.
unfoldable pub init : Card → Option (Option ℕ) → Bool × Card
init c file =
    let reset = record c {
      state = sd_idle;
      width = 1;
      acmd_pending = false;
      last_cmd = 0;
      last_arg = 0;
      offset = 0;
      block_count = 0;
    } in
    elim file [
      | none ↦ (true, record reset { image_blocks = 0 })
      | some f ↦ elim f [
        | none ↦ (false, record reset { opened = false })
        | some size ↦ (true, record reset { opened = true; image_blocks = u32 (size / 512) })
      ]
    ]

pub get_status : Card → ℕ
get_status c = bit_or (bit_or (c.state <<< 9) (if c.acmd_pending then 0x20 else 0)) 0x100

abbrev pub in_state : Card → ℕ → Card
in_state c s = record c { state = s }

-- The two words of a response of 48 bits.
pub make_response : ℕ → ℕ → ℕ × ℕ
make_response cmd payload =
    let content = bit_or (bit_and cmd 0x3f <<< 32) payload in
    let framed = bit_or (bit_or (content <<< 8) (sd_crc7 content)) 1 in
    (bit_and framed 0xffff_ffff, framed >>> 32)

-- What the switch on a command chooses: the response's type, none where it stays -1, its subtype, and the
-- card after.
abbrev pub Chosen : Type 0
Chosen = Option ℕ × Option ℕ × Card

abbrev reply : ℕ → Card → Chosen
reply cmd c = (some (rresp cmd), none, c)

-- A command that starts a transfer at a block.
abbrev starts : ℕ → Card → ℕ → Chosen
starts cmd c arg = reply cmd (record c { offset = u32 (arg * 512); state = sd_data })

-- The commands of a card with no application command pending. `checkRCA` only prints.
pub plain_cases : Card → ℕ → List (ℕ × Chosen)
plain_cases c arg =
    (rcmd cmd0, reply cmd0 (in_state c sd_idle))
    ∷ (rcmd cmd2, (some (rresp cmd2), some 0, in_state c sd_ident))
    ∷ (rcmd cmd3, reply cmd3 (in_state c sd_stby))
    ∷ (rcmd cmd8, reply cmd8 c)
    ∷ (rcmd cmd6, reply cmd6 (in_state c sd_data))
    ∷ (rcmd cmd7, reply cmd7 (in_state c sd_tran))
    ∷ (rcmd cmd9, (some (rresp cmd9), some 1, c))
    ∷ (rcmd cmd12, reply cmd12 (in_state c sd_tran))
    ∷ (rcmd cmd13, reply cmd13 c)
    ∷ (rcmd cmd17, starts cmd17 c arg)
    ∷ (rcmd cmd18, starts cmd18 c arg)
    ∷ (rcmd cmd23, reply cmd23 (record c { block_count = arg }))
    ∷ (rcmd cmd24, starts cmd24 c arg)
    ∷ (rcmd cmd25, starts cmd25 c arg)
    ∷ (rcmd cmd55, reply cmd55 (record c { acmd_pending = true }))
    ∷ []

pub plain_command : Card → ℕ → ℕ → Chosen
unfolding plain_cases
plain_command c cmd arg = switch cmd (plain_cases c arg) (none, none, c)

-- The application commands.
pub app_cases : Card → ℕ → List (ℕ × Chosen)
app_cases d arg =
    (rcmd acmd41, reply acmd41 (in_state d sd_ready))
    ∷ (
      rcmd acmd6,
      reply acmd6 (
          if truthy (bit_and arg 1)
          then d
          else record d { width = if truthy (bit_and arg 2) then 4 else 1 }),
    )
    ∷ (rcmd acmd51, reply acmd51 (in_state d sd_data))
    ∷ (rcmd acmd13, reply acmd13 (in_state d sd_data))
    ∷ []

pub app_command : Card → ℕ → ℕ → Chosen
unfolding app_cases
app_command c cmd arg =
    let d = record c { acmd_pending = false } in switch cmd (app_cases d arg) (none, none, d)
