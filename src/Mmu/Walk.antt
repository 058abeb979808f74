-- ===== src/Mmu/Walk.antt =====
-- `PPCMMU::translateEA` (PPCMMU.cc): from an effective address to a physical address and
-- permissions, by real mode, a BAT or the hashed page table, and into the micro-TLB. The build is
-- the Makefile's default, with UPDATE_RC.
pub mod Laws
pub mod Fills
pub mod Pages
pub mod Groups
use mr_iss.Base.{
  ℕ, zero, suc, ◌+◌, ◌*◌, bit_and, bit_or, bit_xor, Bool, not, ◌&&◌, ◌||◌, Option, none, some, ltb,
  ◌==◌, if◌then◌else◌, truthy, get_or, u32, ◌<<<◌, ◌>>>◌, not32, ◌>>=◌, Outcome, done,
}
use mr_iss.Memory.{Memory}
use mr_iss.Mmu.State.{Mmu, Fault, Perms, Segment, perms_any, zero_segment}
use mr_iss.Mmu.Utlb.{utlb_insert}
use mr_iss.Mmu.Bat.{BatResult, miss, hit, match_bat}

-- The MMU with all that lies behind the bus.
pub record Sys (mem : Memory) : Type 0 where
  pub mmu : Mmu
  pub bus : mem.World

-- What `translateEA` returns: true with an address and permissions, or false with a fault.
pub data Lookup : Type 0 where
  mapped : ℕ → Perms → Lookup
  faulted : Fault → Lookup

-- An access: its address, whether it is an instruction fetch, a read, privileged.
pub record Request : Type 0 where
  pub addr : ℕ
  pub ind : Bool
  pub rnw : Bool
  pub priv : Bool

-- `PPC_PTE_V` and `PPC_PTE_H`.
abbrev pte_v : ℕ
pte_v = 0x8000_0000

abbrev pub pte_h : ℕ
pte_h = 0x40

abbrev page_index : ℕ → ℕ
page_index addr = bit_and (addr >>> 12) 0xffff

-- The abbreviated page index.
abbrev pub api_of : ℕ → ℕ
api_of addr = page_index addr >>> 10

unfoldable primary_hash : Segment → ℕ → ℕ
primary_hash sr addr = bit_xor (bit_and sr.vsid 0x7_ffff) (page_index addr)

pub pteg_address : Mmu → ℕ → ℕ
pteg_address m hashfn =
    bit_or m.htab_phys (bit_and (u32 (hashfn <<< 6)) (bit_or (u32 (m.htab_mask <<< 16)) 0xffc0))

-- Valid, in the wanted hash table, of this segment, and of this page.
pub pte_hits : Segment → ℕ → ℕ → ℕ → Bool
pte_hits sr api want_h ptel =
    truthy (bit_and ptel pte_v)
    && bit_and ptel pte_h == want_h
    && bit_and ptel 0x7fff_ff80 == u32 (sr.vsid <<< 7)
    && bit_and ptel 0x3f == api

-- Whether a page with protection bits `pp` may be written under key `key`.
abbrev key_writes : Bool → ℕ → Bool
key_writes key pp = (not key && ltb pp 3) || (key && pp == 2)

abbrev pub pp_of : ℕ → ℕ
pp_of pteh = bit_and pteh 3

abbrev changed : ℕ → Bool
changed pteh = truthy (bit_and pteh 0x80)

abbrev pub referenced : ℕ → Bool
referenced pteh = truthy (bit_and pteh 0x100)

-- A store that the page allows sets the C bit, when it is clear.
pub updates_c : Segment → Request → ℕ → Bool
updates_c sr q pteh =
    let uw = key_writes sr.kp (pp_of pteh) in
    let kw = key_writes sr.ks (pp_of pteh) in
    (not q.rnw && q.priv && kw && not (changed pteh))
    || (not q.rnw && not q.priv && uw && not (changed pteh))

pub page_perms : Segment → Request → ℕ → Perms
unfolding updates_c
page_perms sr q pteh =
    let uw = key_writes sr.kp (pp_of pteh) in
    let kw = key_writes sr.ks (pp_of pteh) in
    let c = changed pteh || updates_c sr q pteh in
    record {
      r = if q.priv then not (sr.ks && pp_of pteh == 0) else not (sr.kp && pp_of pteh == 0);
      w = if q.priv then kw else uw;
      clean = not c;
    }

-- The second word with R, and for a store C, set.
pub touched_pte : Segment → Request → ℕ → ℕ
unfolding updates_c
touched_pte sr q pteh =
    bit_or pteh (if updates_c sr q pteh then 0x180 else if not (referenced pteh) then 0x100 else 0)

unfoldable page_address : ℕ → ℕ → ℕ
page_address addr pteh = bit_or (bit_and pteh 0xffff_f000) (bit_and addr 0xfff)

module _ (mem : Memory) where
  open mem use {World, read32, write32, get_direct_map, htonl}

  -- `utlbInsert`: the bus says whether the page has a direct mapping.
  pub utlb_fill : Sys mem → Request → ℕ → Perms → Outcome (Sys mem)
  utlb_fill s q out_addr perms = do
    (direct, w) ← get_direct_map s.bus out_addr
    done (record { mmu = utlb_insert s.mmu q.ind q.priv q.addr out_addr direct perms; bus = w })

  pub fill_mapped : Sys mem → Request → ℕ → Perms → Outcome (Lookup × Sys mem)
  unfolding utlb_fill
  fill_mapped s q out_addr perms = do
    s' ← utlb_fill s q out_addr perms
    done (mapped out_addr perms, s')

  -- The rest of a hit in the entry at `pte_pa`: read the second word, update it, fill.
  pub use_pte : Sys mem → Request → Segment → ℕ → Outcome (Lookup × Sys mem)
  unfolding updates_c page_perms touched_pte page_address fill_mapped
  use_pte s q sr pte_pa = do
    (raw, w) ← read32 s.bus (u32 (pte_pa + 4))
    let pteh = htonl raw
    w' ←
        (if not (referenced pteh) || updates_c sr q pteh
          then write32 w (u32 (pte_pa + 4)) (htonl (touched_pte sr q pteh))
          else done w)
    fill_mapped (record s { bus = w' }) q (page_address q.addr pteh) (page_perms sr q pteh)

  -- The entries from `pte` on of the group at `pteg`, `left` of them; `none` is a miss.
  pub probe_pteg : ℕ → ℕ → Sys mem → Request → Segment → ℕ → ℕ → Outcome (Option Lookup × Sys mem)
  unfolding pte_hits use_pte
  probe_pteg zero pte s q sr pteg want_h = done (none, s)
  probe_pteg (suc left) pte s q sr pteg want_h = do
    let pte_pa = u32 (pteg + pte * 8)
    (raw, w) ← read32 s.bus pte_pa
    let s' : Sys mem = record s { bus = w }
    let rest = probe_pteg left (pte + 1) s' q sr pteg want_h
    let found = (use_pte s' q sr pte_pa >>= λ r. done (some r.0, r.1))
    if pte_hits sr (api_of q.addr) want_h (htonl raw) then found else rest

  -- A found entry ends the walk; a miss goes on.
  abbrev pub or_else :
      Option Lookup × Sys mem → (Sys mem → Outcome (Lookup × Sys mem)) → Outcome (Lookup × Sys mem)
  or_else (some l, s) next = done (l, s)
  or_else (none, s) next = next s

  -- The two rounds: the primary hash, then its complement.
  pub walk_htab : Sys mem → Request → Segment → Outcome (Lookup × Sys mem)
  unfolding probe_pteg primary_hash pteg_address
  walk_htab s q sr = do
    let hashfn = primary_hash sr q.addr
    first ← probe_pteg 8 0 s q sr (pteg_address s.mmu hashfn) 0
    or_else first λ s'. do
      second ← probe_pteg 8 0 s' q sr (pteg_address s'.mmu (not32 hashfn)) pte_h
      or_else second λ s''. done (faulted Fault.no_page, s'')

  -- With the answer of the BATs: a hit without permissions faults, a miss goes to the segments.
  pub after_bat : BatResult → Sys mem → Request → Outcome (Lookup × Sys mem)
  unfolding walk_htab fill_mapped
  after_bat (hit none perms) s q = done (faulted Fault.perms, s)
  after_bat (hit (some pa) perms) s q =
      if not perms.r && not perms.w then done (faulted Fault.perms, s) else fill_mapped s q pa perms
  after_bat miss s q =
      let sr = get_or s.mmu.segreg (bit_and (q.addr >>> 28) 0xf) zero_segment in
      if q.ind && sr.n then done (faulted Fault.perms_nx, s) else walk_htab s q sr

  unfoldable pub translate_ea : Sys mem → Request → Outcome (Lookup × Sys mem)
  unfolding after_bat fill_mapped
  translate_ea s q =
      if (q.ind && not s.mmu.enabled_i) || (not q.ind && not s.mmu.enabled_d)
      then fill_mapped s q q.addr perms_any
      else after_bat (match_bat s.mmu q.addr q.ind q.priv) s q
