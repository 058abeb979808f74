-- ===== src/Jit/Blockgen/Retry.antt =====
-- `createBlock` retries at most once (blockgen.cc): after the store is emptied there is room for any block.
use mr_iss.Memory.{Memory}
use mr_iss.Mmu.Walk.{Sys, Request}
use mr_iss.Mmu.Walk.Laws.{Answers}
use mr_iss.Mmu.Translate.{Access, granted, denied, looping}
use mr_iss.Mmu.Translate.Laws.{Settles}
use mr_iss.Mmu.Access.{translate, load_inst32}
use mr_iss.Mmu.Access.Fetch.{translate-Settles, load_inst32-Returns}
use mr_iss.Cpu.State.{Cpu, is_privileged}
use mr_iss.Jit.Blockstore.{Block, Blockstore, reset_blockstore, alloc_block, code_size}
use mr_iss.Jit.Blockstore.Room.{alloc_block_room, alloc_block_reset}
use mr_iss.Jit.Emit.{Gen, Site}
use mr_iss.Jit.Blockgen.{
  Jit, Ended, finished, out_of_room, Created, faulted, created, starved, got, opened,
  generate_block, ended, fill_block, translated, first_loaded, attempt, create_block,
}
use mr_iss.Jit.Blockgen.Laws.{listing, site, Listed, generate_block-Listed}
use mr_iss.Jit.Blockgen.Create.{opened-Emitted, Compiled, create_block-Compiled}
use mr_iss.Jit.Emit.Sites.{IsCallable}
use mr_iss.Base.{
  ℕ, zero, suc, ◌+◌, ◌≤◌, ◌<◌, Bool, true, Option, none, some, List, arith, if◌then◌else◌, u32,
  ◌>>=◌, Yields, Yields-bind, Yields-test, Yields-Allows, Yields-and, Outcome, done,
}
use mr_iss.Jit.Blockgen.{decode_instr_generate_call}
use mr_iss.Jit.Blockgen.{Fault}
use mr_iss.Jit.Blockgen.{must_end}

-- The answer is a block, or the fault of the fetch.
abbrev pub IsAnswer : Created → Type 0
IsAnswer faulted = Unit
IsAnswer (created b) = Unit
IsAnswer starved = ⊥

found_or_not {ℓ} :
    {A : Type ℓ} (o : Option ℕ) (f : ℕ → Outcome A) (m : Outcome A)
    → ((n : ℕ) → Yields (λ _. Unit {0}) (f n))
    → Yields (λ _. Unit {0}) m
    → Yields (λ _. Unit {0}) (elim o [ some n ↦ f n | none ↦ m ])
found_or_not none f m p q = q
found_or_not (some n) f m p q = p n

module _ (mem : Memory) (ans : Answers mem) (decode : ℕ → Option (Site × ℕ))
    (op_unk buffer : ℕ) where
  generate_block-Returns :
      (limit : ℕ) (g : Gen) (sys : Sys mem) (priv : Bool) (pc inst nr : ℕ)
      → Yields (λ _. Unit {0}) (generate_block mem decode op_unk limit g sys priv pc inst nr)
  unfolding generate_block
  generate_block-Returns zero g sys priv pc inst nr = tt
  generate_block-Returns (suc limit) g sys priv pc inst nr =
      let r = decode_instr_generate_call decode op_unk g inst in
      let next : ℕ = u32 (pc + 4) in
      let onward : Fault × Option ℕ × Sys mem → Outcome (Ended (Sys mem)) = λ l.
        elim (got l.0 l.1) [
          | some inst' ↦ generate_block mem decode op_unk limit r.0 l.2 priv next inst' (nr + 1)
          | none ↦ done (finished r.0 (nr + 1) l.2)
        ] in
      let rest : Outcome (Ended (Sys mem)) = load_inst32 mem sys next priv >>= onward in
      let last : Outcome (Ended (Sys mem)) = done (finished r.0 (nr + 1) sys) in
      Yields-test (λ _. Unit {0}) r.0.oom_abort (done (out_of_room r.0 sys))
        (if must_end r.1 next then last else rest) (λ _. tt)
        (λ _.
          Yields-test (λ _. Unit {0}) (must_end r.1 next) last rest (λ _. tt)
            (λ _.
              Yields-bind (λ _. Unit {0}) (λ _. Unit {0}) (load_inst32 mem sys next priv) onward
                (load_inst32-Returns mem ans sys next priv)
                (λ l _.
                  found_or_not (got l.0 l.1)
                    (λ inst'.
                      generate_block mem decode op_unk limit r.0 l.2 priv next inst' (nr + 1))
                    (done (finished r.0 (nr + 1) l.2))
                    (λ inst'. generate_block-Returns limit r.0 l.2 priv next inst' (nr + 1)) tt)))

  module _ (P : Created × Jit × Sys mem → Type 0)
      (made : (b : Block) (jit : Jit) (s : Sys mem) → P (created b, jit, s)) where
    -- `createBlock` runs into the want of room with less of it than 1000 instructions may need.
    pub Retries : (Jit → Sys mem → Outcome (Created × Jit × Sys mem)) → ℕ → Type 0
    Retries again len =
        len < 51_010
        → (store : Blockstore) (code : ℕ → ℕ) (s : Sys mem)
        → Yields P (again (record { store = reset_blockstore store; code = code }) s)

    ended-Answers :
        (again : Jit → Sys mem → Outcome (Created × Jit × Sys mem)) (jit : Jit) (store : Blockstore)
        (b : Block) (len : ℕ) (all : Outcome (List ℕ × Sys mem)) (r : Ended (Sys mem))
        → 10 ≤ len
        → Retries again len
        → Listed mem decode op_unk (opened buffer jit b len) 1000 0 all r
        → Yields P (ended mem decode op_unk buffer again store b len r)
    unfolding Retries ended
    ended-Answers again jit store b len all (finished h n s) big more l = made _ _ _
    ended-Answers again jit store b len all (out_of_room h s) big more (short, _) =
        more (omega (arith, (opened-Emitted buffer jit b len big).room)) store h.code s

    pub fill_block-Answers :
        (again : Jit → Sys mem → Outcome (Created × Jit × Sys mem)) (jit : Jit) (cpu : Cpu)
        (pc_pa inst : ℕ) (start : Sys mem)
        → Retries again (alloc_block jit.store cpu.pc pc_pa cpu.msr).1
        → Yields P (fill_block mem decode op_unk buffer again jit cpu pc_pa inst start)
    unfolding fill_block
    fill_block-Answers again jit cpu pc_pa inst start more =
        let a = alloc_block jit.store cpu.pc pc_pa cpu.msr in
        let (room, last) = alloc_block_room jit.store cpu.pc pc_pa cpu.msr in
        let big : 10 ≤ a.1 = omega (arith, room, last) in
        let g : Gen = opened buffer jit a.0 a.1 in
        let all = listing mem decode op_unk 1000 start (is_privileged cpu) cpu.pc inst in
        let loop =
          generate_block mem decode op_unk 1000 g start (is_privileged cpu) cpu.pc inst 0 in
        Yields-bind (Listed mem decode op_unk g 1000 0 all) P loop _
          (Yields-Allows (Listed mem decode op_unk g 1000 0 all) loop
            (generate_block-Returns 1000 g start (is_privileged cpu) cpu.pc inst 0)
            (generate_block-Listed mem decode op_unk 1000 g start (is_privileged cpu) cpu.pc inst 0
              (opened-Emitted buffer jit a.0 a.1 big).in_room))
          (λ r l. ended-Answers again jit a.2 a.0 a.1 all r big more l)

    pub attempt-Answers :
        (again : Jit → Sys mem → Outcome (Created × Jit × Sys mem)) (jit : Jit) (sys : Sys mem)
        (cpu : Cpu)
        → ((pa : ℕ) → Retries again (alloc_block jit.store cpu.pc pa cpu.msr).1)
        → ((s : Sys mem) → P (faulted, jit, s))
        → Yields P (attempt mem decode op_unk buffer again jit sys cpu)
    unfolding attempt first_loaded translated
    attempt-Answers again jit sys cpu more failed =
        Yields-bind (λ _. Unit {0}) P (load_inst32 mem sys cpu.pc (is_privileged cpu)) _
          (load_inst32-Returns mem ans sys cpu.pc (is_privileged cpu))
          (λ l _. first (got l.0 l.1) l.2)
      where
        request : Request
        request = record { addr = cpu.pc; ind = true; rnw = true; priv = is_privileged cpu }

        onward :
            (inst : ℕ) (t : Access × Sys mem)
            → Settles mem ans request t
            → Yields P (translated mem decode op_unk buffer again jit cpu inst t)
        onward inst (granted pa, s) h =
            fill_block-Answers again jit cpu (u32 pa) inst s (more (u32 pa))
        onward inst (denied f, s) h = failed s
        onward inst (looping, s) h = absurd h

        first :
            (o : Option ℕ) (s : Sys mem)
            → Yields P (first_loaded mem decode op_unk buffer again jit cpu o s)
        first none s = failed s
        first (some inst) s =
            Yields-bind (Settles mem ans request) P (translate mem s request) _
              (translate-Settles mem ans s request) (λ t h. onward inst t h)

  -- In an emptied store the first attempt has room enough.
  pub fresh-Retries :
      (P : Created × Jit × Sys mem → Type 0)
      (made : (b : Block) (jit : Jit) (s : Sys mem) → P (created b, jit, s))
      (again : Jit → Sys mem → Outcome (Created × Jit × Sys mem)) (s : Blockstore) (pc pa msr : ℕ)
      → Retries P made again (alloc_block (reset_blockstore s) pc pa msr).1
  unfolding Retries
  fresh-Retries P made again s pc pa msr short = absurd (
      omega
        (arith, (alloc_block_room (reset_blockstore s) pc pa msr).0, alloc_block_reset s pc pa msr))

  abbrev pub retry : Cpu → ℕ → Jit → Sys mem → Outcome (Created × Jit × Sys mem)
  retry cpu fuel j s = create_block mem decode op_unk buffer fuel j s cpu

  -- Where the first attempt has no room, the second one has.
  pub second-Retries :
      (P : Created × Jit × Sys mem → Type 0)
      (made : (b : Block) (jit : Jit) (s : Sys mem) → P (created b, jit, s)) (cpu : Cpu)
      (fuel len : ℕ)
      → ((store : Blockstore) (code : ℕ → ℕ) (s : Sys mem)
          → P (faulted, record { store = reset_blockstore store; code = code }, s))
      → Retries P made (retry cpu (suc fuel)) len
  unfolding create_block Retries
  second-Retries P made cpu fuel len failed short store code s =
      attempt-Answers P made (retry cpu fuel)
        (record { store = reset_blockstore store; code = code }) s cpu
        (λ pa'. fresh-Retries P made (retry cpu fuel) store cpu.pc pa' cpu.msr) (failed store code)

  create_block-IsAnswer :
      (fuel : ℕ) (jit : Jit) (sys : Sys mem) (cpu : Cpu)
      → Yields
          (λ x. IsAnswer x.0)
          (create_block mem decode op_unk buffer (suc (suc fuel)) jit sys cpu)
  unfolding create_block
  create_block-IsAnswer fuel jit sys cpu =
      attempt-Answers (λ x. IsAnswer x.0) (λ b j s. tt) (retry cpu (suc fuel)) jit sys cpu
        (λ pa.
          second-Retries (λ x. IsAnswer x.0) (λ b j s. tt) cpu fuel
            (alloc_block jit.store cpu.pc pa cpu.msr).1 (λ store code s. tt))
        (λ s. tt)

  -- Over a bus that answers, and where every routine is in reach of the code buffer and every argument is a word,
  -- `createBlock` ends after two attempts at most, with the fault of the fetch or with a block that is right. Called
  -- with the interpreter in rdi, the block's code calls, in order, the routines of the instructions from the counter on,
  -- each with the interpreter and its arguments, and returns the number of them in rax, with the stack and the callee's
  -- registers as they were. The instructions are those of a plain listing: up to the first that ends a block, the end of
  -- the page, a fault, or 1000.
  pub create_block-Compiled_twice :
      ((i : ℕ) → IsCallable buffer code_size (site mem decode op_unk i))
      → (fuel : ℕ) (jit : Jit) (sys : Sys mem) (cpu : Cpu)
      → Yields
          (λ r. IsAnswer r.0 × Compiled mem decode op_unk buffer cpu r)
          (create_block mem decode op_unk buffer (suc (suc fuel)) jit sys cpu)
  create_block-Compiled_twice ok fuel jit sys cpu =
      Yields-and (λ r. IsAnswer r.0) (Compiled mem decode op_unk buffer cpu)
        (retry cpu (suc (suc fuel)) jit sys) (create_block-IsAnswer fuel jit sys cpu)
        (create_block-Compiled mem decode op_unk buffer ok (suc (suc fuel)) jit sys cpu)
