-- ===== src/Jit/Blockgen/Inside.antt =====
-- `createBlock` writes nothing outside the code buffer (blockgen.cc, blockstore.cc), although each emitter writes before it
-- tests the room: the grace that `allocBlock` keeps back is enough for the longest call.
use mr_iss.Memory.{Memory}
use mr_iss.Mmu.Walk.{Sys, Request}
use mr_iss.Mmu.Translate.{Access, granted, denied, looping}
use mr_iss.Mmu.Access.{translate, load_inst32}
use mr_iss.Cpu.State.{Cpu, is_privileged}
use mr_iss.Jit.Blockstore.{Block, Blockstore, reset_blockstore, alloc_block, code_size}
use mr_iss.Jit.Blockstore.Room.{alloc_block_room}
use mr_iss.Jit.Emit.{Gen, Site, finalise_block}
use mr_iss.Jit.Emit.Code.{assemble}
use mr_iss.Jit.Emit.Sites.{epilogue}
use mr_iss.Jit.Emit.Room.{emit-kept}
use mr_iss.Jit.Blockgen.{
  Jit, Ended, finished, out_of_room, Created, got, opened, close_block, generate_block, ended,
  fill_block, translated, first_loaded, attempt, create_block,
}
use mr_iss.Jit.Blockgen.Laws.{listing, Listed, generate_block-Listed}
use mr_iss.Jit.Blockgen.Create.{opened-Emitted}
use mr_iss.Base.{
  ℕ, zero, suc, ◌+◌, ◌≤◌, ◌<◌, ◌≡◌, refl, subst, ◌∙◌, ◌⊎◌, inl, inr, true, Option, none, some, List,
  [], ◌∷◌, ◌++◌, arith, u32, Allows, Allows-bind, Allows-map, Outcome,
}

module _ (mem : Memory) (decode : ℕ → Option (Site × ℕ)) (op_unk buffer : ℕ) where
  -- The bytes outside the buffer are the same.
  abbrev pub Outside : (ℕ → ℕ) → Created × Jit × Sys mem → Type 0
  Outside code r = (x : ℕ) → (x < buffer) ⊎ (buffer + code_size ≤ x) → r.1.code x ≡ code x

  ended-Outside :
      (again : Jit → Sys mem → Outcome (Created × Jit × Sys mem)) (jit : Jit) (store : Blockstore)
      (b : Block) (len : ℕ) (all : Outcome (List ℕ × Sys mem)) (r : Ended (Sys mem))
      → 10 ≤ len
      → len + b.place + 164 ≡ code_size
      → ((j : Jit) (s : Sys mem) → Allows (Outside j.code) (again j s))
      → Listed mem decode op_unk (opened buffer jit b len) 1000 0 all r
      → Allows (Outside jit.code) (ended mem decode op_unk buffer again store b len r)
  unfolding ended close_block finalise_block
  ended-Outside again jit store b len all (finished h n s) big room more (is, eq, count, short, e) =
      let start = opened-Emitted buffer jit b len big in
      λ x o. elim o [
        | inl k ↦
            emit-kept h (assemble (epilogue n) ++ (0xc3 ∷ [])) x
              (inl (omega (arith, start.place, e.place)))
            ∙ e.below x (omega (arith, start.place))
            ∙ start.below x (omega arith)
        | inr k ↦
            emit-kept h (assemble (epilogue n) ++ (0xc3 ∷ [])) x
              (inr (omega (arith, start.place, start.room, e.place, e.room, room)))
            ∙ e.above x (omega (arith, start.place, start.room, e.place, e.room, room))
            ∙ start.above x (omega (arith, start.place, start.room, room))
      ]
  ended-Outside again jit store b len all (out_of_room h s) big room more (short, kept) =
      let start = opened-Emitted buffer jit b len big in
      Allows-map (Outside h.code) (Outside jit.code)
        (again (record { store = reset_blockstore store; code = h.code }) s)
        (λ r same x o. same x o ∙ elim o [
          | inl k ↦ kept x (inl (omega (arith, start.place))) ∙ start.below x (omega arith)
          | inr k ↦
              kept x (inr (omega (arith, start.place, start.room, room)))
              ∙ start.above x (omega (arith, start.place, start.room, room))
        ])
        (more (record { store = reset_blockstore store; code = h.code }) s)

  fill_block-Outside :
      (again : Jit → Sys mem → Outcome (Created × Jit × Sys mem)) (jit : Jit) (cpu : Cpu)
      (pc_pa inst : ℕ) (start : Sys mem)
      → ((j : Jit) (s : Sys mem) → Allows (Outside j.code) (again j s))
      → Allows
          (Outside jit.code)
          (fill_block mem decode op_unk buffer again jit cpu pc_pa inst start)
  unfolding fill_block
  fill_block-Outside again jit cpu pc_pa inst start more =
      let a = alloc_block jit.store cpu.pc pc_pa cpu.msr in
      let (room, last) = alloc_block_room jit.store cpu.pc pc_pa cpu.msr in
      let big : 10 ≤ a.1 = omega (arith, room, last) in
      let g : Gen = opened buffer jit a.0 a.1 in
      let all = listing mem decode op_unk 1000 start (is_privileged cpu) cpu.pc inst in
      let loop = generate_block mem decode op_unk 1000 g start (is_privileged cpu) cpu.pc inst 0 in
      Allows-bind (Outside jit.code) loop _ (λ r e.
        ended-Outside again jit a.2 a.0 a.1 all r big room more (
          subst (Allows (Listed mem decode op_unk g 1000 0 all)) e (
            generate_block-Listed mem decode op_unk 1000 g start (is_privileged cpu) cpu.pc inst 0
              (opened-Emitted buffer jit a.0 a.1 big).in_room)))

  attempt-Outside :
      (again : Jit → Sys mem → Outcome (Created × Jit × Sys mem)) (jit : Jit) (sys : Sys mem)
      (cpu : Cpu)
      → ((j : Jit) (s : Sys mem) → Allows (Outside j.code) (again j s))
      → Allows (Outside jit.code) (attempt mem decode op_unk buffer again jit sys cpu)
  unfolding attempt first_loaded translated
  attempt-Outside again jit sys cpu more =
      Allows-bind (Outside jit.code) (load_inst32 mem sys cpu.pc (is_privileged cpu)) _
        (λ l _. first (got l.0 l.1) l.2)
    where
      request : Request
      request = record { addr = cpu.pc; ind = true; rnw = true; priv = is_privileged cpu }

      onward :
          (inst : ℕ) (t : Access × Sys mem)
          → Allows (Outside jit.code) (translated mem decode op_unk buffer again jit cpu inst t)
      onward inst (granted pa, s) = fill_block-Outside again jit cpu (u32 pa) inst s more
      onward inst (denied f, s) = λ x o. refl
      onward inst (looping, s) = tt

      first :
          (o : Option ℕ) (s : Sys mem)
          → Allows (Outside jit.code) (first_loaded mem decode op_unk buffer again jit cpu o s)
      first none s = λ x o. refl
      first (some inst) s =
          Allows-bind (Outside jit.code) (translate mem s request) _ (λ t _. onward inst t)

  -- When `createBlock` returns, whatever it was asked to compile and however its bus behaves, no byte outside the code
  -- buffer has changed.
  pub create_block-Outside :
      (fuel : ℕ) (jit : Jit) (sys : Sys mem) (cpu : Cpu)
      → Allows (Outside jit.code) (create_block mem decode op_unk buffer fuel jit sys cpu)
  unfolding create_block
  create_block-Outside zero jit sys cpu = λ x o. refl
  create_block-Outside (suc fuel) jit sys cpu =
      attempt-Outside (λ j s. create_block mem decode op_unk buffer fuel j s cpu) jit sys cpu
        (λ j s. create_block-Outside fuel j s cpu)
