-- ===== src/Mmu/Access/Laws.antt =====
-- What a word store leaves in memory, and when it faults.
use mr_iss.Base.{
  ℕ, ◌+◌, ◌/◌, ◌%◌, ◌^◌, ◌<◌, ◌≡◌, refl, ap, ◌∙◌, ◌⊎◌, inl, inr, Bool, true, false, none, some,
  arith, ltb, if◌then◌else◌, Bool-cases, Yields, Yields-done, done, u32,
}
use mr_iss.Memory.{Memory}
use mr_iss.Bits.Fields.{bit_and_low, bit_and_field}
use mr_iss.Mmu.State.{Fault, Perms}
use mr_iss.Mmu.Utlb.{utlb_lookup}
use mr_iss.Mmu.Walk.{Sys, Request}
use mr_iss.Mmu.Walk.Laws.{Answers, Reports}
use mr_iss.Mmu.Translate.{Access, granted, denied, looping}
use mr_iss.Mmu.Translate.Laws.{Settles, translate_addr-hit}
use mr_iss.Mmu.Access.Fetch.{translate-Settles}
use mr_iss.Mmu.Access.{
  word_faults, translate, write_at32, store_with, store32, align_fault, is_direct, read_at32,
  load_with, load32,
}

-- The fault of a word that is granted: an alignment fault where it reaches past the next 8-byte boundary.
abbrev pub past_boundary : ℕ → Fault
past_boundary pa = if ltb 8 (pa % 8 + 4) then Fault.align else Fault.none

alignment_lem : (pa : ℕ) → align_fault (word_faults pa) ≡ past_boundary pa
unfolding word_faults
alignment_lem pa = ground (arith, bit_and_low 2 pa, bit_and_low 3 pa)

-- Bit 63 of an address tells the bus from the host's memory.
is_direct-cases :
    (pa : ℕ)
    → ((pa / 2 ^ 63 % 2 ≡ 0) × (is_direct pa ≡ true))
      ⊎ ((pa / 2 ^ 63 % 2 ≡ 1) × (is_direct pa ≡ false))
unfolding is_direct
is_direct-cases pa = ground (arith, bit_and_field 63 1 pa)

abbrev data_request : ℕ → Bool → Bool → Request
data_request addr rnw priv = record { addr = addr; ind = false; rnw = rnw; priv = priv }

-- A host word reads back as it was written, and swapping a word's bytes twice is nothing.
abbrev pub LoadsBack : Memory → Type 0
LoadsBack mem =
    (w : mem.World) (p v : ℕ) → v < 2 ^ 32 → mem.host_load32 (mem.host_store32 w p v) p ≡ v

abbrev pub Swaps : Memory → Type 0
Swaps mem = (v : ℕ) → v < 2 ^ 32 → (mem.htonl v < 2 ^ 32) × (mem.htonl (mem.htonl v) ≡ v)

module _ (mem : Memory) (ans : Answers mem) where
  -- Where the word went: it reads back from host memory by a load of the same address, which has the fault of
  -- the store, if the page may be read; or it was written to the bus.
  abbrev pub Lands : ℕ → ℕ → Bool → ℕ → Perms → Sys mem → Fault → Sys mem → Type 0
  Lands addr val priv pa p t f s' =
      ((pa / 2 ^ 63 % 2 ≡ 0)
        × (load32 mem s' addr priv
            ≡ done (if p.r then (f, some val, s') else (Fault.perms, none, s'))))
      ⊎ ((pa / 2 ^ 63 % 2 ≡ 1) × (mem.write32 t.bus (pa % 2 ^ 32) (mem.htonl val) ≡ done s'.bus))

  -- What a store comes to.
  abbrev pub Stored : Sys mem → ℕ → ℕ → Bool → Fault × Sys mem → Type 0
  Stored s addr val priv (f, s') =
      ((translate mem s (data_request addr false priv) ≡ done (denied f, s')) × Reports false f)
      ⊎ ((pa : ℕ) × (p : Perms) × (t : Sys mem) × (translate mem s (data_request addr false priv)
            ≡ done (granted pa, t))
          × (utlb_lookup t.mmu false priv addr ≡ some (pa, p))
          × (s'.mmu ≡ t.mmu)
          × (f ≡ past_boundary pa)
          × Lands addr val priv pa p t f s')

  -- A load of a page that the micro-TLB has, when it may be read and when not.
  load32-hit :
      (s : Sys mem) (addr pa v : ℕ) (priv : Bool) (p : Perms)
      → utlb_lookup s.mmu false priv addr ≡ some (pa, p)
      → read_at32 mem s pa ≡ done (v, s)
      → load32 mem s addr priv
        ≡ done (if p.r then (align_fault (word_faults pa), some v, s) else (Fault.perms, none, s))
  unfolding load32 load_with translate
  load32-hit s addr pa v priv p hit reads = elim (Bool-cases p.r) [
    | inl e ↦ rw (translate_addr-hit mem ans 1 s addr pa priv p hit, e, load_with, reads) refl
    | inr e ↦ rw (translate_addr-hit mem ans 1 s addr pa priv p hit, e) refl
  ]

  module _ (loads_back : LoadsBack mem) (swaps : Swaps mem) where
    read_at32-write_at32 :
        (t : Sys mem) (pa val : ℕ)
        → val < 2 ^ 32
        → is_direct pa ≡ true
        → let s' : Sys mem = record t { bus = mem.host_store32 t.bus pa (mem.htonl val) } in
          (write_at32 mem t pa val ≡ done s') × (read_at32 mem s' pa ≡ done (val, s'))
    unfolding write_at32 read_at32
    read_at32-write_at32 t pa val h d =
        let (low, back) = swaps val h in
        let s' : Sys mem = record t { bus = mem.host_store32 t.bus pa (mem.htonl val) } in
        (
          rw d refl,
          rw d (
              ap (λ x. done (x, s'))
                (ap mem.htonl (loads_back t.bus pa (mem.htonl val) low) ∙ back)),
        )

    -- The store at a granted address, in host memory and on the bus.
    store_with-Stored_host :
        (s t : Sys mem) (addr val pa : ℕ) (priv : Bool) (p : Perms)
        → val < 2 ^ 32
        → translate mem s (data_request addr false priv) ≡ done (granted pa, t)
        → utlb_lookup t.mmu false priv addr ≡ some (pa, p)
        → pa / 2 ^ 63 % 2 ≡ 0
        → is_direct pa ≡ true
        → Yields
            (Stored s addr val priv)
            (store_with mem (write_at32 mem) word_faults val (granted pa, t))
    unfolding store_with
    store_with-Stored_host s t addr val pa priv p h e hit low d =
        let s' : Sys mem = record t { bus = mem.host_store32 t.bus pa (mem.htonl val) } in
        let (writes, reads) = read_at32-write_at32 t pa val h d in
        rw (writes, alignment_lem pa)
          (inr (
            pa,
            p,
            t,
            e,
            hit,
            refl,
            refl,
            inl (
              low,
              load32-hit s' addr pa val priv p hit reads
                  ∙ ap
                      (λ (f : Fault).
                        done (if p.r then (f, some val, s') else (Fault.perms, none, s')))
                      (alignment_lem pa),
            ),
          ))

    store_with-Stored_bus :
        (s t : Sys mem) (addr val pa : ℕ) (priv : Bool) (p : Perms)
        → translate mem s (data_request addr false priv) ≡ done (granted pa, t)
        → utlb_lookup t.mmu false priv addr ≡ some (pa, p)
        → pa / 2 ^ 63 % 2 ≡ 1
        → is_direct pa ≡ false
        → Yields
            (Stored s addr val priv)
            (store_with mem (write_at32 mem) word_faults val (granted pa, t))
    unfolding store_with write_at32
    store_with-Stored_bus s t addr val pa priv p e hit high d =
        let (w, _, written) =
          Yields-done (mem.write32 t.bus (u32 pa) (mem.htonl val))
            (ans.writes t.bus (u32 pa) (mem.htonl val)) in
        rw (d, written, alignment_lem pa) (inr (pa, p, t, e, hit, refl, refl, inr (high, written)))

    settled-Stored :
        (s : Sys mem) (addr val : ℕ) (priv : Bool) (r : Access × Sys mem)
        → val < 2 ^ 32
        → translate mem s (data_request addr false priv) ≡ done r
        → Settles mem ans (data_request addr false priv) r
        → Yields (Stored s addr val priv) (store_with mem (write_at32 mem) word_faults val r)
    unfolding store_with
    settled-Stored s addr val priv (granted pa, t) h e (p, hit, ok) = elim (is_direct-cases pa) [
      | inl (low, d) ↦ store_with-Stored_host s t addr val pa priv p h e hit low d
      | inr (high, d) ↦ store_with-Stored_bus s t addr val pa priv p e hit high d
    ]
    settled-Stored s addr val priv (denied f, t) h e k = inl (e, k)
    settled-Stored s addr val priv (looping, t) h e k = absurd k

    -- Over a bus that answers, and a host memory whose words read back as they were written and whose byte swap is
    -- its own inverse, a store of a 32-bit word returns: its translation was denied, it reports that fault and
    -- has done nothing more; or its translation was granted, the MMU is as that left it, it reports an
    -- alignment fault exactly where the word reaches past the next 8-byte boundary, and in either case the word
    -- is written: to the bus at the lowest 32 bits of the address if its bit 63 is set, with its bytes swapped,
    -- and else to host memory, where a load of the same address gives the word back with the same fault, or
    -- is denied where the page may not be read.
    pub store32-Stored :
        (s : Sys mem) (addr val : ℕ) (priv : Bool)
        → val < 2 ^ 32
        → Yields (Stored s addr val priv) (store32 mem s addr val priv)
    unfolding store32
    store32-Stored s addr val priv h =
        let q = data_request addr false priv in
        let (r, settles, e) = Yields-done (translate mem s q) (translate-Settles mem ans s q) in
        rw e (settled-Stored s addr val priv r h e settles)
