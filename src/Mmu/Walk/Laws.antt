-- ===== src/Mmu/Walk/Laws.antt =====
-- What `translateEA` leaves over a bus that answers: a fault, or a micro-TLB that hits.
use mr_iss.Base.{
  ℕ, zero, suc, ◌+◌, ◌*◌, bit_and, ◌≡◌, refl, inl, inr, Bool, false, not, ◌&&◌, ◌||◌, Option, none,
  some, List, [], ◌∷◌, arith, ◌==◌, if◌then◌else◌, Bool-cases, bool_eq_iff, get_or, u32, ◌>>>◌,
  Yields, Yields-bind, Outcome, done,
}
use mr_iss.Memory.{Memory}
use mr_iss.Mmu.State.{
  Mmu, Perms, perms_any, check_fault_was_cleanliness, Segment, Bat, zero_segment,
}
use mr_iss.Mmu.Bat.{BatResult, miss, hit, match_bat, match_bats, bat_matches, bat_translate}
use mr_iss.Mmu.Utlb.{utlb_lookup, utlb_insert}
use mr_iss.Mmu.Utlb.Laws.{utlb_lookup-insert, translation}
use mr_iss.Mmu.Walk.{
  Sys, Request, Lookup, mapped, faulted, translate_ea, fill_mapped, utlb_fill, use_pte, page_perms,
  updates_c, probe_pteg, walk_htab, pte_hits, referenced, api_of, touched_pte, after_bat, or_else,
  pte_h,
}
use mr_iss.Mmu.State.{Fault}
use mr_iss.Base.{true}

-- Every bus access that the MMU makes on its own account returns.
pub record Answers (mem : Memory) : Type 0 where
  pub reads : (w : mem.World) (a : ℕ) → Yields (λ _. Unit) (mem.read32 w a)
  pub writes : (w : mem.World) (a v : ℕ) → Yields (λ _. Unit) (mem.write32 w a v)
  pub maps : (w : mem.World) (a : ℕ) → Yields (λ _. Unit) (mem.get_direct_map w a)

-- The permissions of a walk never fail a check for cleanliness alone.
abbrev pub Settled : Request → Perms → Type 0
Settled q p = check_fault_was_cleanliness p q.rnw q.ind ≡ false

lookup-insert_self :
    (m : Mmu) (q : Request) (out : ℕ) (direct : Option ℕ) (p : Perms)
    → utlb_lookup (utlb_insert m q.ind q.priv q.addr out direct p) q.ind q.priv q.addr
      ≡ some (translation out direct q.addr, p)
lookup-insert_self m q out direct p = ground (
  arith,
  utlb_lookup-insert m q.ind q.priv q.addr out direct p q.ind q.priv q.addr,
  bool_eq_iff q.ind q.ind,
  bool_eq_iff q.priv q.priv,
)

page_perms-Settled : (sr : Segment) (q : Request) (pteh : ℕ) → Settled q (page_perms sr q pteh)
unfolding page_perms check_fault_was_cleanliness
page_perms-Settled sr q pteh = ground arith

-- A BAT's permissions are never clean.
abbrev Unclean : BatResult → Type 0
Unclean miss = Unit
Unclean (hit out p) = p.clean ≡ false

bat_translate-Unclean : (b : Bat) (addr : ℕ) → Unclean (bat_translate b addr)
unfolding bat_translate
bat_translate-Unclean b addr = elim (Bool-cases (b.pp == 0)) [ inl e ↦ rw e | inr e ↦ rw e ]

match_bats-Unclean : (bs : List Bat) (addr : ℕ) (priv : Bool) → Unclean (match_bats bs addr priv)
unfolding match_bats
match_bats-Unclean [] addr priv = tt
match_bats-Unclean (b ∷ bs) addr priv = elim (Bool-cases (bat_matches b addr priv)) [
  | inl e ↦ rw e (bat_translate-Unclean b addr)
  | inr e ↦ rw e (match_bats-Unclean bs addr priv)
]

match_bat-Unclean : (m : Mmu) (addr : ℕ) (ind priv : Bool) → Unclean (match_bat m addr ind priv)
unfolding match_bat
match_bat-Unclean m addr ind priv = match_bats-Unclean (if ind then m.ibat else m.dbat) addr priv

Settled-of_unclean : (q : Request) (p : Perms) → p.clean ≡ false → Settled q p
unfolding check_fault_was_cleanliness
Settled-of_unclean q p h = ground arith

perms_any-unclean : perms_any.clean ≡ false
unfolding perms_any
perms_any-unclean = refl

both_left : (a b : Bool) → (a && b) ≡ true → a ≡ true
both_left a b h = ground arith

-- The faults that a translation reports, for a fetch or not.
abbrev pub Reports : Bool → Fault → Type 0
Reports ind Fault.no_page = Unit
Reports ind Fault.perms = Unit
Reports ind Fault.perms_nx = ind ≡ true
Reports ind _ = ⊥

module _ (mem : Memory) (ans : Answers mem) where
  -- What a walk leaves: a fault that it may report, or a micro-TLB that hits with permissions that are settled.
  abbrev pub Walked : Request → Lookup × Sys mem → Type 0
  Walked q (faulted f, s) = Reports q.ind f
  Walked q (mapped out p, s) =
      (direct : Option ℕ) × (utlb_lookup s.mmu q.ind q.priv q.addr
        ≡ some (translation out direct q.addr, p))
      × Settled q p

  fill_mapped-Walked :
      (s : Sys mem) (q : Request) (out : ℕ) (p : Perms)
      → Settled q p
      → Yields (Walked q) (fill_mapped mem s q out p)
  unfolding fill_mapped
  fill_mapped-Walked s q out p h =
      Yields-bind
        (λ s'.
          (direct : Option ℕ) × (utlb_lookup s'.mmu q.ind q.priv q.addr
            ≡ some (translation out direct q.addr, p)))
        (Walked q) (utlb_fill mem s q out p) _
        (Yields-bind (λ _. Unit) _ (mem.get_direct_map s.bus out) _ (ans.maps s.bus out)
          (λ r _. (r.0, lookup-insert_self s.mmu q out r.0 p)))
        (λ s' w. (w.0, w.1, h))

  use_pte-Walked :
      (s : Sys mem) (q : Request) (sr : Segment) (pte_pa : ℕ)
      → Yields (Walked q) (use_pte mem s q sr pte_pa)
  unfolding use_pte
  use_pte-Walked s q sr pte_pa =
      Yields-bind (λ _. Unit {0}) (Walked q) (mem.read32 s.bus (u32 (pte_pa + 4))) _
        (ans.reads s.bus (u32 (pte_pa + 4)))
        λ r _.
          Yields-bind (λ _. Unit {0}) (Walked q) _ _ (written r)
            λ w' _. fill_mapped-Walked _ q _ _ (page_perms-Settled sr q (mem.htonl r.0))
    where
      written :
          (r : ℕ × mem.World)
          → Yields
              (λ _. Unit {0})
              (if not (referenced (mem.htonl r.0)) || updates_c sr q (mem.htonl r.0)
                then mem.write32 r.1
                    (u32 (pte_pa + 4))
                    (mem.htonl (touched_pte sr q (mem.htonl r.0)))
                else done r.1)
      written r =
          elim (Bool-cases (not (referenced (mem.htonl r.0)) || updates_c sr q (mem.htonl r.0))) [
            | inl e ↦ rw e (ans.writes r.1 _ _)
            | inr e ↦ rw e tt
          ]

  -- A miss in a group, or a walk that is done.
  abbrev Probed : Request → Option Lookup × Sys mem → Type 0
  Probed q (none, s) = Unit
  Probed q (some l, s) = Walked q (l, s)

  probe_pteg-Probed :
      (left pte : ℕ) (s : Sys mem) (q : Request) (sr : Segment) (pteg want_h : ℕ)
      → Yields (Probed q) (probe_pteg mem left pte s q sr pteg want_h)
  unfolding probe_pteg
  probe_pteg-Probed zero pte s q sr pteg want_h = tt
  probe_pteg-Probed (suc left) pte s q sr pteg want_h =
      Yields-bind (λ _. Unit {0}) (Probed q) (mem.read32 s.bus (u32 (pteg + pte * 8))) _
        (ans.reads s.bus _)
        λ r _. elim (Bool-cases (pte_hits sr (api_of q.addr) want_h (mem.htonl r.0))) [
          | inl e ↦ rw e (
              Yields-bind (Walked q) (Probed q)
                (use_pte mem (record s { bus = r.1 }) q sr (u32 (pteg + pte * 8))) _
                (use_pte-Walked _ q sr _) (λ a w. w))
          | inr e ↦
              rw e (probe_pteg-Probed left (pte + 1) (record s { bus = r.1 }) q sr pteg want_h)
        ]

  or_else-Walked :
      (q : Request) (a : Option Lookup × Sys mem) (next : Sys mem → Outcome (Lookup × Sys mem))
      → Probed q a
      → ((s : Sys mem) → Yields (Walked q) (next s))
      → Yields (Walked q) (or_else mem a next)
  or_else-Walked q (some l, s) next h k = h
  or_else-Walked q (none, s) next h k = k s

  walk_htab-Walked :
      (s : Sys mem) (q : Request) (sr : Segment) → Yields (Walked q) (walk_htab mem s q sr)
  unfolding walk_htab
  walk_htab-Walked s q sr =
      Yields-bind (Probed q) (Walked q) _ _ (probe_pteg-Probed 8 0 s q sr _ 0) λ a p.
        or_else-Walked q a _ p λ s'.
          Yields-bind (Probed q) (Walked q) _ _ (probe_pteg-Probed 8 0 s' q sr _ pte_h)
            λ b p'. or_else-Walked q b _ p' (λ s''. tt)

  after_bat-Walked :
      (r : BatResult) (s : Sys mem) (q : Request)
      → Unclean r
      → Yields (Walked q) (after_bat mem r s q)
  unfolding after_bat
  after_bat-Walked (hit none perms) s q u = tt
  after_bat-Walked (hit (some pa) perms) s q u = elim (Bool-cases (not perms.r && not perms.w)) [
    | inl e ↦ rw e tt
    | inr e ↦ rw e (fill_mapped-Walked s q pa perms (Settled-of_unclean q perms u))
  ]
  after_bat-Walked miss s q u =
      elim (Bool-cases
        (q.ind && (get_or s.mmu.segreg (bit_and (q.addr >>> 28) 0xf) zero_segment).n)) [
          | inl e ↦ rw e (both_left q.ind _ e)
          | inr e ↦ rw e (
              walk_htab-Walked s q (get_or s.mmu.segreg (bit_and (q.addr >>> 28) 0xf) zero_segment))
        ]

  pub translate_ea-Walked : (s : Sys mem) (q : Request) → Yields (Walked q) (translate_ea mem s q)
  unfolding translate_ea
  translate_ea-Walked s q =
      elim (Bool-cases ((q.ind && not s.mmu.enabled_i) || (not q.ind && not s.mmu.enabled_d))) [
        | inl e ↦ rw e (
            fill_mapped-Walked s q q.addr perms_any
              (Settled-of_unclean q perms_any perms_any-unclean))
        | inr e ↦ rw e (
            after_bat-Walked (match_bat s.mmu q.addr q.ind q.priv) s q
              (match_bat-Unclean s.mmu q.addr q.ind q.priv))
      ]
