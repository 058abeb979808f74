-- ===== src/Jit/Blockgen/Laws.antt =====
-- What `createBlock` puts in a block (blockgen.cc): the calls of the instructions from the counter on, up to the first that
-- ends a block, the end of the page, a fault or the limit.
use mr_iss.Memory.{Memory}
use mr_iss.Mmu.Walk.{Sys}
use mr_iss.Mmu.Access.{load_inst32}
use mr_iss.Jit.Emit.{Gen, Site, generate}
use mr_iss.Jit.Emit.Laws.{site_code, generate-emit}
use mr_iss.Jit.Emit.Laws.{values}
use mr_iss.Jit.Emit.Sites.{code-le}
use mr_iss.Jit.Emit.Room.{emit-kept, Emitted, emit-Emitted, Emitted-append, Emitted-nil}
use mr_iss.Jit.Emit.Sites.{codes}
use mr_iss.Jit.Blockgen.{
  Ended, finished, out_of_room, got, planted, must_end, decode_instr_generate_call, generate_block,
}
use mr_iss.Base.{
  ℕ, zero, suc, ◌+◌, ◌*◌, ◌≤◌, ◌<◌, ◌≡◌, refl, sym, ap, subst, ◌∙◌, ◌⊎◌, inl, inr, Bool, true,
  false, Option, none, some, List, [], ◌∷◌, arith, if◌then◌else◌, Bool-cases, Option-cases, length,
  u32, ◌>>=◌, Allows, Allows-bind, Outcome, done,
}
use mr_iss.Base.{Allows-test}
use mr_iss.Base.{Allows-map}
use mr_iss.Jit.Blockgen.{Fault}

module _ (mem : Memory) (decode : ℕ → Option (Site × ℕ)) (op_unk : ℕ) where
  abbrev pub site : ℕ → Site
  site inst = (planted decode op_unk inst).0

  abbrev pub sites : List ℕ → List Site
  sites [] = []
  sites (i ∷ is) = site i ∷ sites is

  -- The instructions of a block, with no code: `inst` at `pc` and those after it.
  pub listing : ℕ → Sys mem → Bool → ℕ → ℕ → Outcome (List ℕ × Sys mem)
  listing zero sys priv pc inst = done ([], sys)
  listing (suc limit) sys priv pc inst =
      let next = u32 (pc + 4) in
      let rest : Outcome (List ℕ × Sys mem) = load_inst32 mem sys next priv >>= λ l.
      elim (got l.0 l.1) [
        | some inst' ↦ listing limit l.2 priv next inst' >>= λ r. done (inst ∷ r.0, r.1)
        | none ↦ done (inst ∷ [], l.2)
      ] in
      if must_end (planted decode op_unk inst).1 next then done (inst ∷ [], sys) else rest

  -- The loop ends with the block's instructions counted and their calls emitted, or for want of room.
  abbrev pub Listed : Gen → ℕ → ℕ → Outcome (List ℕ × Sys mem) → Ended (Sys mem) → Type 0
  Listed g limit nr all (finished h n s) =
      (is : List ℕ) × (all ≡ done (is, s))
      × (n ≡ nr + length is)
      × (length is ≤ limit)
      × Emitted g h (codes g.place (sites is))
  Listed g limit nr all (out_of_room h s) =
      (g.len < 51 * limit)
      × ((x : ℕ) → (x < g.place) ⊎ (g.place + g.len + 51 ≤ x) → h.code x ≡ g.code x)

  -- The rest of a block, after its first instruction.
  lengthen :
      (g h : Gen) (limit nr inst : ℕ) (all : Outcome (List ℕ × Sys mem)) (r : Ended (Sys mem))
      → Emitted g h (site_code g.place (site inst))
      → Listed h limit (nr + 1) all r
      → Listed g (suc limit) nr (all >>= λ x. done (inst ∷ x.0, x.1)) r
  unfolding codes
  lengthen g h limit nr inst all (finished k n s) e (is, eq, count, short, more) =
      (inst ∷ is, rw eq, omega arith, omega arith, Emitted-append e (rw (← e.place) more))
  lengthen g h limit nr inst all (out_of_room k s) e (short, kept) = (
    omega (arith, e.room, code-le _ (values (site inst))),
    λ x o. elim o [
      | inl below ↦ kept x (inl (omega (arith, e.place))) ∙ e.below x below
      | inr above ↦
          kept x (inr (omega (arith, e.place, e.room))) ∙ e.above x (omega (arith, e.place, e.room))
    ],
  )

  alone :
      (g h : Gen) (inst : ℕ)
      → Emitted g h (site_code g.place (site inst))
      → Emitted g h (codes g.place (sites (inst ∷ [])))
  unfolding codes
  alone g h inst e = Emitted-append e (Emitted-nil h e.in_room)

  emitted :
      (g : Gen) (inst : ℕ)
      → g.oom_abort ≡ false
      → (generate g (site inst)).oom_abort ≡ false
      → Emitted g (generate g (site inst)) (site_code g.place (site inst))
  emitted g inst ok room =
      let same = generate-emit g (site inst) in
      elim (emit-Emitted g (site_code g.place (site inst)) ok) [
        | inl (full, _) ↦ cc
        | inr e ↦ subst (λ h. Emitted g h (site_code g.place (site inst))) (sym same) e
      ]

  -- What follows the load of the next instruction.
  followed :
      (g : Gen) (limit nr inst : ℕ) (priv : Bool) (next : ℕ) (l : Fault × Option ℕ × Sys mem)
      → Emitted g (generate g (site inst)) (site_code g.place (site inst))
      → ((inst' : ℕ)
          → Allows
              (Listed (generate g (site inst)) limit (nr + 1) (listing limit l.2 priv next inst'))
              (generate_block mem decode op_unk limit
                (generate g (site inst))
                l.2
                priv
                next
                inst'
                (nr + 1)))
      → Allows
          (Listed g (suc limit) nr (elim (got l.0 l.1) [
            | some inst' ↦ listing limit l.2 priv next inst' >>= λ r. done (inst ∷ r.0, r.1)
            | none ↦ done (inst ∷ [], l.2)
          ]))
          (elim (got l.0 l.1) [
            | some inst' ↦
                generate_block mem decode op_unk limit
                  (generate g (site inst))
                  l.2
                  priv
                  next
                  inst'
                  (nr + 1)
            | none ↦ done (finished (generate g (site inst)) (nr + 1) l.2)
          ])
  followed g limit nr inst priv next l e more = elim (Option-cases (got l.0 l.1)) [
    | inl n ↦
        rw n (inst ∷ [], refl, omega arith, omega arith, alone g (generate g (site inst)) inst e)
    | inr (inst', s) ↦ rw s (
        Allows-map
          (Listed (generate g (site inst)) limit (nr + 1) (listing limit l.2 priv next inst')) _ _
          (λ r.
            lengthen g (generate g (site inst)) limit nr inst (listing limit l.2 priv next inst') r
              e)
          (more inst'))
  ]

  -- An emission that fails, which is for want of 51 bytes.
  crowded :
      (g : Gen) (inst limit : ℕ)
      → g.oom_abort ≡ false
      → (generate g (site inst)).oom_abort ≡ true
      → (g.len < 51 * suc limit)
        × ((x : ℕ)
            → (x < g.place) ⊎ (g.place + g.len + 51 ≤ x)
            → (generate g (site inst)).code x ≡ g.code x)
  crowded g inst limit ok full =
      let bytes : List ℕ = site_code g.place (site inst) in
      let same = generate-emit g (site inst) in
      let small : length bytes ≤ 51 = code-le _ (values (site inst)) in
      elim (emit-Emitted g bytes ok) [
        | inl (_, short) ↦ (
          omega arith,
          λ x o.
              ap (λ h. h.code x) same
              ∙ emit-kept g bytes x (elim o [ inl b ↦ inl b | inr a ↦ inr (omega arith) ]),
        )
        | inr e ↦ absurd (cc (same, e.in_room))
      ]

  pub generate_block-Listed :
      (limit : ℕ) (g : Gen) (sys : Sys mem) (priv : Bool) (pc inst nr : ℕ)
      → g.oom_abort ≡ false
      → Allows
          (Listed g limit nr (listing limit sys priv pc inst))
          (generate_block mem decode op_unk limit g sys priv pc inst nr)
  unfolding generate_block listing decode_instr_generate_call
  generate_block-Listed zero g sys priv pc inst nr ok =
      unfold codes in ([], refl, omega arith, omega arith, Emitted-nil g ok)
  generate_block-Listed (suc limit) g sys priv pc inst nr ok =
      let h : Gen = generate g (site inst) in
      let next : ℕ = u32 (pc + 4) in
      Allows-test (Listed g (suc limit) nr (listing (suc limit) sys priv pc inst)) h.oom_abort _ _
        (λ full. crowded g inst limit ok full)
        (λ room. elim (Bool-cases (must_end (planted decode op_unk inst).1 next)) [
          | inl end ↦
              rw end
                (inst ∷ [], refl, omega arith, omega arith, alone g h inst (emitted g inst ok room))
          | inr more ↦ rw more (
              Allows-bind _ (load_inst32 mem sys next priv) _ (λ l e. rw e (
                followed g limit nr inst priv next l (emitted g inst ok room)
                  (λ inst'. generate_block-Listed limit h l.2 priv next inst' (nr + 1) room))))
        ])
