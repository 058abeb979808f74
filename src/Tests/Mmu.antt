-- ===== src/Tests/Mmu.antt =====
-- Address translation over a small memory.
use mr_iss.Base.{
  ℕ, ◌+◌, ◌*◌, ◌%◌, ==_self, ◌/◌, ◌≡◌, refl, ◌↔◌, true, false, none, some, arith, ◌==◌,
  if◌then◌else◌, Yields, done,
}
use mr_iss.Memory.{Memory}
use mr_iss.Mmu.State.{Mmu, Bat, init, perms_any}
use mr_iss.Mmu.Utlb.{utlb_lookup, utlb_insert}
use mr_iss.Mmu.Utlb.Laws.{utlb_lookup-insert, same_slot, page, translation}
use mr_iss.Mmu.Bat.{bat_matches}
use mr_iss.Mmu.Bat.Laws.{IsAligned, bat_matches_iff, block_size, serves}
use mr_iss.Mmu.Walk.{Sys, Request}
use mr_iss.Mmu.Walk.Laws.{Answers}
use mr_iss.Mmu.Walk.Groups.{IsTable}
use mr_iss.Mmu.Translate.{translate_addr}
use mr_iss.Mmu.Translate.Laws.{Settles, translate_addr-Settles}
use mr_iss.Mmu.Access.{store32}
use mr_iss.Mmu.Access.Laws.{LoadsBack, Swaps, Stored, store32-Stored}

-- Words by their address, and no host memory.
abbrev pub words : Memory
words = record {
  World = ℕ → ℕ;
  read32 = λ w a. done (w a, w);
  read16 = λ w a. done (w a, w);
  read8 = λ w a. done (w a, w);
  write32 = λ w a v. done (λ j. if j == a then v else w j);
  write16 = λ w a v. done (λ j. if j == a then v else w j);
  write8 = λ w a v. done (λ j. if j == a then v else w j);
  get_direct_map = λ w a. done (none, w);
  host_load32 = λ w a. w a;
  host_load16 = λ w a. w a;
  host_load8 = λ w a. w a;
  host_store32 = λ w a v. w;
  host_store16 = λ w a v. w;
  host_store8 = λ w a v. w;
  htonl = λ v. v;
  htons = λ v. v;
}

pub words-Answers : Answers words
words-Answers = record { reads = λ w a. tt; writes = λ w a v. tt; maps = λ w a. tt }

abbrev pub machine : Sys words
machine = record { mmu = init; bus = λ a. 0 }

abbrev fetch : Request
fetch = record { addr = 0x1234; ind = true; rnw = true; priv = true }

abbrev write : Request
write = record { addr = 0x1234; ind = false; rnw = false; priv = false }

-- 256 KiB at 0x4000_0000, onto 0x8000_0000.
abbrev block : Bat
block = record {
  bepi = 0x4000_0000;
  bl_shift = 1;
  vs = true;
  vp = false;
  brpn = 0x8000_0000;
  wimg = 0;
  pp = 2;
}

block-IsAligned : IsAligned block
block-IsAligned = record {
  shift_le = omega arith;
  bepi_lt = omega arith;
  brpn_lt = omega arith;
  brpn_aligned = refl;
}

abbrev table : Mmu
table = record init { htab_phys = 0x10_0000; htab_mask = 1 }

table-IsTable : IsTable table 1
table-IsTable = record { small = omega arith; mask = refl; aligned = refl }

utlb_lookup-insert_example :
    utlb_lookup (utlb_insert init true true 0x1000 0x5000 none perms_any) true true 0x1234 ≡ (
      if same_slot true true 0x1000 true true 0x1234
      then if page 0x1000 == page 0x1234
        then some (translation 0x5000 none 0x1234, perms_any)
        else none
      else utlb_lookup init true true 0x1234)
utlb_lookup-insert_example =
    utlb_lookup-insert init true true 0x1000 0x5000 none perms_any true true 0x1234

bat_matches_iff_example : (bat_matches block 0x4002_1234 true ≡ true) ↔ (
    (serves block true ≡ true) × (0x4002_1234 / block_size block ≡ block.bepi / block_size block))
bat_matches_iff_example = bat_matches_iff block 0x4002_1234 true block-IsAligned (omega arith)

translate_addr-Settles_example :
    Yields (Settles words words-Answers fetch) (translate_addr words 0 machine fetch)
translate_addr-Settles_example = translate_addr-Settles words words-Answers 0 machine fetch

-- The bytes of a word in the other order.
abbrev swap32 : ℕ → ℕ
swap32 v =
    v % 0x100 * 0x100_0000
    + v / 0x100 % 0x100 * 0x1_0000
    + v / 0x1_0000 % 0x100 * 0x100
    + v / 0x100_0000 % 0x100

-- Host memory alone, mapped at its own addresses, on a little-endian host.
abbrev hosted : Memory
hosted = record words {
  get_direct_map = λ w a. done (some a, w);
  host_store32 = λ w a v. λ j. if j == a then v else w j;
  htonl = swap32;
}

hosted-Answers : Answers hosted
hosted-Answers = record { reads = λ w a. tt; writes = λ w a v. tt; maps = λ w a. tt }

hosted-LoadsBack : LoadsBack hosted
hosted-LoadsBack w p v h = rw (==_self p) refl

hosted-Swaps : Swaps hosted
hosted-Swaps v h = (omega arith, omega arith)

abbrev host_machine : Sys hosted
host_machine = record { mmu = init; bus = λ a. 0 }

store32-Stored_example :
    Yields
      (Stored hosted hosted-Answers host_machine 0x1006 77 true)
      (store32 hosted host_machine 0x1006 77 true)
store32-Stored_example =
    store32-Stored hosted hosted-Answers hosted-LoadsBack hosted-Swaps host_machine 0x1006 77 true
      (omega arith)
