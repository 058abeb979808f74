-- ===== src/Jit/Blockgen/Create.antt =====
-- `createBlock` as a whole (blockgen.cc): what the block that it makes does when it is called, that a second attempt never
-- lacks room, and that nothing outside the code buffer is written.
use mr_iss.Memory.{Memory}
use mr_iss.Mmu.Walk.{Sys}
use mr_iss.Mmu.Translate.{Access, granted, denied, looping}
use mr_iss.Mmu.Access.{translate, load_inst32}
use mr_iss.Cpu.State.{Cpu, is_privileged}
use mr_iss.Jit.Blockstore.{Block, Blockstore, code_size, headerlen, alloc_block}
use mr_iss.Jit.Blockstore.Room.{alloc_block_room}
use mr_iss.Jit.Emit.{Gen, Site, emit, start_block, finalise_block}
use mr_iss.Jit.Emit.X86.{Holds}
use mr_iss.Jit.Emit.Machine.{Call, Machine, Runs}
use mr_iss.Jit.Emit.Code.{length-append, assemble, Holds-append}
use mr_iss.Jit.Emit.Room.{Emitted, emit-Holds, emit-kept, emit-Emitted, Emitted-append}
use mr_iss.Jit.Emit.Sites.{IsCallable, AllCallable, codes, prologue, epilogue, block_code}
use mr_iss.Jit.Emit.Block.{Returned, block-Returned}
use mr_iss.Jit.Blockgen.{
  Jit, Ended, finished, out_of_room, Created, faulted, created, starved, got, opened, close_block,
  generate_block, ended, fill_block, translated, first_loaded, attempt, create_block,
}
use mr_iss.Jit.Blockgen.Laws.{site, sites, listing, Listed, generate_block-Listed}
use mr_iss.Base.{
  ℕ, zero, suc, ◌+◌, ◌≤◌, ◌≡◌, refl, sym, subst, ◌∙◌, inl, inr, true, false, Option, none, some,
  List, [], ◌∷◌, ◌++◌, arith, length, u32, Allows, Allows-bind, Outcome, done,
}
use mr_iss.Jit.Blockgen.{Fault}
use mr_iss.Jit.Blockgen.{Access}

-- Where a block's code is.
abbrev code_of : ℕ → Block → ℕ
code_of buffer b = buffer + (b.place + headerlen)

-- The room before the start of a block's code.
abbrev bare : ℕ → Jit → Block → ℕ → Gen
bare buffer jit b len = record {
  code = jit.code;
  place = code_of buffer b;
  len = len;
  oom_abort = false;
}

pub opened-Emitted :
    (buffer : ℕ) (jit : Jit) (b : Block) (len : ℕ)
    → 10 ≤ len
    → Emitted (bare buffer jit b len) (opened buffer jit b len) (assemble prologue)
unfolding opened start_block
opened-Emitted buffer jit b len h =
    elim (emit-Emitted (bare buffer jit b len) (assemble prologue) refl) [
      | inl (_, k) ↦ absurd (omega arith)
      | inr e ↦ e
    ]

-- The block's bytes stand once its end is emitted, with room for that or without.
closed-Holds :
    (g h : Gen) (ss : List Site) (nr : ℕ)
    → Emitted g h (assemble prologue ++ codes (g.place + 10) ss)
    → Holds (finalise_block h nr).code g.place (block_code g.place ss nr)
unfolding finalise_block block_code
closed-Holds g h ss nr e =
    let front : List ℕ = assemble prologue ++ codes (g.place + 10) ss in
    let end : List ℕ = assemble (epilogue nr) ++ (0xc3 ∷ []) in
    Holds-append (emit h end).code g.place front end
      (λ i l. emit-kept h end (g.place + i) (inl (omega (arith, e.place))) ∙ e.holds i l)
      (rw (← e.place) (emit-Holds h end))

block_code-length :
    (place : ℕ) (ss : List Site) (nr : ℕ)
    → length (block_code place ss nr) ≡ length (assemble prologue ++ codes (place + 10) ss) + 10
unfolding block_code
block_code-length place ss nr =
    length-append (assemble prologue ++ codes (place + 10) ss)
      (assemble (epilogue nr) ++ (0xc3 ∷ []))

module _ (mem : Memory) (decode : ℕ → Option (Site × ℕ)) (op_unk buffer : ℕ) where
  AllCallable-sites :
      ((i : ℕ) → IsCallable buffer code_size (site mem decode op_unk i))
      → (is : List ℕ) → AllCallable buffer code_size (sites mem decode op_unk is)
  AllCallable-sites ok [] = tt
  AllCallable-sites ok (i ∷ is) = (ok i, AllCallable-sites ok is)

  -- A call of the code from a machine at its start comes back with the instructions' routines called.
  abbrev Performs : (ℕ → ℕ) → ℕ → List ℕ → Type 0
  Performs code place is =
      (junk : List Call → ℕ → ℕ) (m : Machine)
      → m.rip ≡ place
      → (o : Machine) × Runs junk code m o × Returned (sites mem decode op_unk is) (length is) m o

  block-Performs :
      ((i : ℕ) → IsCallable buffer code_size (site mem decode op_unk i))
      → (code : ℕ → ℕ) (place : ℕ) (is : List ℕ) → length is ≤ 1000
      → buffer ≤ place
      → place + length (block_code place (sites mem decode op_unk is) (length is))
        ≤ buffer + code_size
      → Holds code place (block_code place (sites mem decode op_unk is) (length is))
      → Performs code place is
  block-Performs ok code place is short low high h junk m at =
      let ss : List Site = sites mem decode op_unk is in
      let n : ℕ = length is in
      block-Returned junk code buffer code_size ss n m (AllCallable-sites ok is) (omega arith)
        (subst (λ p. p + length (block_code p ss n) ≤ buffer + code_size) (sym at) high)
        (omega arith) (subst (λ p. Holds code p (block_code p ss n)) (sym at) h)

  -- An instruction that was loaded at the counter, and the state once the counter is translated.
  abbrev Starts : Cpu → Sys mem → ℕ → Type 0
  Starts cpu start inst =
      (before : Sys mem) × (l : Fault × Option ℕ × Sys mem) × (load_inst32 mem before cpu.pc
          (is_privileged cpu)
        ≡ done l)
      × (got l.0 l.1 ≡ some inst)
      × (pa : ℕ) × (translate mem l.2
            (record { addr = cpu.pc; ind = true; rnw = true; priv = is_privileged cpu })
          ≡ done (granted pa, start))

  -- The block's code performs the instructions from the counter on.
  abbrev pub Compiled : Cpu → Created × Jit × Sys mem → Type 0
  Compiled cpu (created b, jit, after) =
      (start : Sys mem) × (inst : ℕ) × Starts cpu start inst
      × (is : List ℕ) × (listing mem decode op_unk 1000 start (is_privileged cpu) cpu.pc inst
          ≡ done (is, after))
      × Performs jit.code (code_of buffer b) is
  Compiled cpu (faulted, jit, after) = Unit
  Compiled cpu (starved, jit, after) = Unit

  module _ (ok : (i : ℕ) → IsCallable buffer code_size (site mem decode op_unk i)) where
    finished-Performs :
        (jit : Jit) (b : Block) (len limit : ℕ) (h : Gen) (n : ℕ) (is : List ℕ)
        → len + b.place + 164 ≡ code_size
        → 10 ≤ len
        → n ≡ 0 + length is
        → length is ≤ 1000
        → Emitted
            (opened buffer jit b len)
            h
            (codes (opened buffer jit b len).place (sites mem decode op_unk is))
        → Performs (finalise_block h n).code (code_of buffer b) is
    finished-Performs jit b len limit h n is room big count short e =
        let g : Gen = bare buffer jit b len in
        let ss : List Site = sites mem decode op_unk is in
        let start = opened-Emitted buffer jit b len big in
        let all =
          Emitted-append start
            (subst (λ p. Emitted (opened buffer jit b len) h (codes p ss)) start.place e) in
        let stands = closed-Holds g h ss n all in
        let same : n ≡ length is = omega (arith, count) in
        block-Performs ok (finalise_block h n).code g.place is short (omega arith)
          (omega (arith, room, all.room, block_code-length g.place ss (length is)))
          (subst (λ k. Holds (finalise_block h n).code g.place (block_code g.place ss k)) same
            stands)

    -- After the loop, which lists the instructions from `start` on.
    ended-Compiled :
        (again : Jit → Sys mem → Outcome (Created × Jit × Sys mem)) (jit : Jit) (cpu : Cpu)
        (store : Blockstore) (b : Block) (len inst : ℕ) (start : Sys mem) (r : Ended (Sys mem))
        → ((j : Jit) (s : Sys mem) → Allows (Compiled cpu) (again j s))
        → Starts cpu start inst
        → len + b.place + 164 ≡ code_size
        → 10 ≤ len
        → Listed mem decode op_unk
            (opened buffer jit b len)
            1000
            0
            (listing mem decode op_unk 1000 start (is_privileged cpu) cpu.pc inst)
            r
        → Allows (Compiled cpu) (ended mem decode op_unk buffer again store b len r)
    unfolding ended close_block
    ended-Compiled again jit cpu store b len inst start (finished h n s) more begun room big
          (is, eq, count, short, e) =
        (start, inst, begun, is, eq, finished-Performs jit b len 1000 h n is room big count short e)
    ended-Compiled again jit cpu store b len inst start (out_of_room h s) more begun room big l =
        more _ s

    fill_block-Compiled :
        (again : Jit → Sys mem → Outcome (Created × Jit × Sys mem)) (jit : Jit) (cpu : Cpu)
        (pc_pa inst : ℕ) (start : Sys mem)
        → ((j : Jit) (s : Sys mem) → Allows (Compiled cpu) (again j s))
        → Starts cpu start inst
        → Allows (Compiled cpu) (fill_block mem decode op_unk buffer again jit cpu pc_pa inst start)
    unfolding fill_block
    fill_block-Compiled again jit cpu pc_pa inst start more begun =
        let a = alloc_block jit.store cpu.pc pc_pa cpu.msr in
        let (room, last) = alloc_block_room jit.store cpu.pc pc_pa cpu.msr in
        let big : 10 ≤ a.1 = omega (arith, room, last) in
        let g : Gen = opened buffer jit a.0 a.1 in
        Allows-bind (Compiled cpu)
          (generate_block mem decode op_unk 1000 g start (is_privileged cpu) cpu.pc inst 0) _
          (λ r e. ended-Compiled again jit cpu a.2 a.0 a.1 inst start r more begun room big (
            subst
              (Allows (
                Listed mem decode op_unk g 1000 0
                  (listing mem decode op_unk 1000 start (is_privileged cpu) cpu.pc inst)))
              e
              (generate_block-Listed mem decode op_unk 1000 g start (is_privileged cpu) cpu.pc inst
                0 (opened-Emitted buffer jit a.0 a.1 big).in_room)))

    attempt-Compiled :
        (again : Jit → Sys mem → Outcome (Created × Jit × Sys mem)) (jit : Jit) (sys : Sys mem)
        (cpu : Cpu)
        → ((j : Jit) (s : Sys mem) → Allows (Compiled cpu) (again j s))
        → Allows (Compiled cpu) (attempt mem decode op_unk buffer again jit sys cpu)
    unfolding attempt first_loaded translated
    attempt-Compiled again jit sys cpu more =
        Allows-bind (Compiled cpu) (load_inst32 mem sys cpu.pc (is_privileged cpu)) _
          (λ l e. first l (got l.0 l.1) refl e)
      where
        onward :
            (l : Fault × Option ℕ × Sys mem) (inst : ℕ) (t : Access × Sys mem)
            → load_inst32 mem sys cpu.pc (is_privileged cpu) ≡ done l
            → got l.0 l.1 ≡ some inst
            → translate mem l.2
                (record { addr = cpu.pc; ind = true; rnw = true; priv = is_privileged cpu })
              ≡ done t
            → Allows (Compiled cpu) (translated mem decode op_unk buffer again jit cpu inst t)
        onward l inst (granted pa, s) e g q =
            fill_block-Compiled again jit cpu (u32 pa) inst s more (sys, l, e, g, pa, q)
        onward l inst (denied f, s) e g q = tt
        onward l inst (looping, s) e g q = tt

        first :
            (l : Fault × Option ℕ × Sys mem) (o : Option ℕ)
            → got l.0 l.1 ≡ o
            → load_inst32 mem sys cpu.pc (is_privileged cpu) ≡ done l
            → Allows (Compiled cpu) (first_loaded mem decode op_unk buffer again jit cpu o l.2)
        first l none g e = tt
        first l (some inst) g e =
            Allows-bind (Compiled cpu)
              (translate mem l.2
                (record { addr = cpu.pc; ind = true; rnw = true; priv = is_privileged cpu }))
              _ (λ t q. onward l inst t e g q)

    -- Where every routine is in reach of the code buffer and every argument is a word, a block that `createBlock` makes is
    -- correct. Called with the interpreter in rdi, its code calls, in order, the routines of the instructions from the
    -- counter on, each with the interpreter and its arguments, and returns the number of them in rax, with the stack and
    -- the callee's registers as they were. The instructions are those of a plain listing: up to the first that ends a
    -- block, the end of the page, a fault, or 1000.
    pub create_block-Compiled :
        (fuel : ℕ) (jit : Jit) (sys : Sys mem) (cpu : Cpu)
        → Allows (Compiled cpu) (create_block mem decode op_unk buffer fuel jit sys cpu)
    unfolding create_block
    create_block-Compiled zero jit sys cpu = tt
    create_block-Compiled (suc fuel) jit sys cpu =
        attempt-Compiled (λ j s. create_block mem decode op_unk buffer fuel j s cpu) jit sys cpu
          (λ j s. create_block-Compiled fuel j s cpu)
