-- ===== src/Interp/Special/Spr.antt =====
-- The moves to and from special-purpose registers (PPCInterpreter_Special.cc). `CHECK_YOUR_PRIVILEGE` does
-- nothing; what a DEBUG write prints is left out; the JIT is not built in.
pub mod Laws
use mr_iss.Base.{
  switch, ℕ, suc, bit_and, bit_or, Option, none, some, List, [], ◌∷◌, ◌==◌, if◌then◌else◌, u32,
  ◌<<<◌, ◌>>>◌, ◌>>=◌, Outcome, done, fatal,
}
use mr_iss.Mmu.State.{Mmu}
use mr_iss.Mmu.Regs.{set_ibat_upper, set_ibat_lower, set_dbat_upper, set_dbat_lower, set_sdr1}
use mr_iss.Cpu.State.{Cpu, get_gpr, set_gpr, set_xer, set_tb, get_tb, inc_pc}
use mr_iss.Interp.State.{Interp, with_cpu, sim_quit}
use mr_iss.Interp.Special.Numbers.{
  spr_ctr, spr_lr, spr_pvr, spr_tb, spr_tbu, spr_xer, spr_tb_w, spr_tbu_w, dbat_uppers, dbat_lowers,
  ibat_uppers, ibat_lowers, spr_dar, spr_dec, spr_dsisr, spr_sdr1, spr_srr0, spr_srr1, spr_sprg0,
  spr_sprg1, spr_sprg2, spr_sprg3, spr_hid0, spr_hid1, spr_debug, spr_dc_inv_set, spr_ic_inv_set,
  spr_pir, spr_dabr,
}

-- The place of a number in a list of register numbers.
abbrev place : ℕ → List ℕ → Option ℕ
place n [] = none
place n (k ∷ ks) =
    if n == k then some 0 else elim (place n ks) [ none ↦ none | some i ↦ some (suc i) ]

-- `SPR[spr]`, the registers of the problem state.
unfoldable mfspr_uisa : Cpu → ℕ → Outcome ℕ → Outcome ℕ
unfolding get_tb
mfspr_uisa c spr rest =
    switch spr
      ((spr_lr, done c.lr)
        ∷ (spr_ctr, done c.ctr)
        ∷ (spr_xer, done c.xer)
        ∷ (spr_pvr, done 0xbb0a_0001)
        ∷ (spr_tbu, done (u32 (get_tb c >>> 32)))
        ∷ (spr_tb, done (bit_and (get_tb c) 0xffff_ffff))
        ∷ (spr_sprg3, done c.sprg3)
        ∷ [])
      rest

-- The privileged registers.
unfoldable mfspr_oea : Cpu → ℕ → Outcome ℕ
mfspr_oea c spr =
    switch spr
      ((spr_pir, done c.pir)
        ∷ (spr_sprg0, done c.sprg0)
        ∷ (spr_sprg1, done c.sprg1)
        ∷ (spr_sprg2, done c.sprg2)
        ∷ (spr_sdr1, done c.sdr1)
        ∷ (spr_srr0, done c.srr0)
        ∷ (spr_srr1, done c.srr1)
        ∷ (spr_dsisr, done c.dsisr)
        ∷ (spr_dar, done c.dar)
        ∷ (spr_dec, done c.dec)
        ∷ (spr_dabr, done 0)
        ∷ (spr_hid0, done c.hid0)
        ∷ (spr_hid1, done c.hid1)
        ∷ [])
      fatal

pub op_mfspr : Interp → ℕ → ℕ → Outcome Interp
unfolding mfspr_uisa mfspr_oea set_gpr inc_pc
op_mfspr p spr rt = mfspr_uisa p.core.cpu spr (mfspr_oea p.core.cpu spr) >>= λ v.
    set_gpr p.core.cpu rt v >>= λ c. done (with_cpu p (inc_pc c))

-- `helper_DEBUG`.
unfoldable helper_debug : Interp → ℕ → Outcome Interp
unfolding sim_quit
helper_debug p val =
    switch (bit_and val 0xff00) ((0, done (sim_quit p)) ∷ (0x100, done p) ∷ []) fatal

pub op_mftb : Interp → ℕ → ℕ → Outcome Interp
unfolding get_tb set_gpr inc_pc
op_mftb p spr rt =
    let c = p.core.cpu in
    switch spr
      ((spr_tbu, done (u32 (get_tb c >>> 32)))
        ∷ (spr_tb, done (bit_and (get_tb c) 0xffff_ffff))
        ∷ [])
      fatal
    >>= λ v. set_gpr c rt v >>= λ c'. done (with_cpu p (inc_pc c'))

abbrev with_mmu : Interp → Mmu → Interp
with_mmu p m = record p { core = record { cpu = p.core.cpu; mmu = m } }

-- The write of an instruction BAT register, of any of the eight.
unfoldable mtspr_ibat : Interp → ℕ → ℕ → Outcome Interp → Outcome Interp
unfolding set_ibat_lower set_ibat_upper
mtspr_ibat p spr v rest = elim (place spr ibat_lowers) [
  | some n ↦ set_ibat_lower p.core.mmu n v >>= λ m. done (with_mmu p m)
  | none ↦ elim (place spr ibat_uppers) [
    | some n ↦ set_ibat_upper p.core.mmu n v >>= λ m. done (with_mmu p m)
    | none ↦ rest
  ]
]

-- The write of a data BAT register.
unfoldable mtspr_dbat : Interp → ℕ → ℕ → Outcome Interp → Outcome Interp
unfolding set_dbat_lower set_dbat_upper
mtspr_dbat p spr v rest = elim (place spr dbat_lowers) [
  | some n ↦ set_dbat_lower p.core.mmu n v >>= λ m. done (with_mmu p m)
  | none ↦ elim (place spr dbat_uppers) [
    | some n ↦ set_dbat_upper p.core.mmu n v >>= λ m. done (with_mmu p m)
    | none ↦ rest
  ]
]

-- The write of a register of the problem state, or of half of the time base.
unfoldable mtspr_uisa : Interp → ℕ → ℕ → Outcome Interp → Outcome Interp
unfolding set_xer set_tb get_tb
mtspr_uisa p spr v rest =
    let c = p.core.cpu in
    switch spr
      ((spr_lr, done (with_cpu p (record c { lr = v })))
        ∷ (spr_ctr, done (with_cpu p (record c { ctr = v })))
        ∷ (spr_xer, done (with_cpu p (set_xer c v)))
        ∷ (
          spr_tb_w,
          done (with_cpu p (set_tb c (bit_or v (bit_and (get_tb c) 0xffff_ffff_0000_0000)))),
        )
        ∷ (
          spr_tbu_w,
          done (with_cpu p (set_tb c (bit_or (v <<< 32) (bit_and (get_tb c) 0xffff_ffff)))),
        )
        ∷ [])
      rest

-- The privileged registers after the BATs, and those of the implementation.
unfoldable mtspr_oea : Interp → ℕ → ℕ → Outcome Interp
unfolding set_sdr1 helper_debug
mtspr_oea p spr v =
    let c = p.core.cpu in
    switch spr
      ((spr_sprg0, done (with_cpu p (record c { sprg0 = v })))
        ∷ (spr_sprg1, done (with_cpu p (record c { sprg1 = v })))
        ∷ (spr_sprg2, done (with_cpu p (record c { sprg2 = v })))
        ∷ (spr_sprg3, done (with_cpu p (record c { sprg3 = v })))
        ∷ (spr_srr0, done (with_cpu p (record c { srr0 = v })))
        ∷ (spr_srr1, done (with_cpu p (record c { srr1 = v })))
        ∷ (spr_dsisr, done (with_cpu p (record c { dsisr = v })))
        ∷ (spr_dar, done (with_cpu p (record c { dar = v })))
        ∷ (spr_sdr1, done (with_mmu (with_cpu p (record c { sdr1 = v })) (set_sdr1 p.core.mmu v)))
        ∷ (spr_dec, done (with_cpu p (record c { dec = v })))
        ∷ (spr_dabr, done p)
        ∷ (spr_hid0, done (with_cpu p (record c { hid0 = v })))
        ∷ (spr_hid1, done (with_cpu p (record c { hid1 = v })))
        ∷ (spr_debug, helper_debug p v)
        ∷ (spr_dc_inv_set, done p)
        ∷ (spr_ic_inv_set, done p)
        ∷ [])
      fatal

pub op_mtspr : Interp → ℕ → ℕ → Outcome Interp
unfolding get_gpr mtspr_uisa mtspr_ibat mtspr_dbat mtspr_oea inc_pc
op_mtspr p spr rs = get_gpr p.core.cpu rs >>= λ v.
    mtspr_uisa p spr v (mtspr_ibat p spr v (mtspr_dbat p spr v (mtspr_oea p spr v))) >>= λ q.
    done (with_cpu q (inc_pc q.core.cpu))
