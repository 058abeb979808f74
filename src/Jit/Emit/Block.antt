-- ===== src/Jit/Emit/Block.antt =====
-- A call of a block's code (blockgen.cc, and the call in runloop.cc), from its first byte to its return.
use mr_iss.Jit.Emit.{Site}
use mr_iss.Jit.Emit.X86.{ret, Holds}
use mr_iss.Jit.Emit.Machine.{Call, Machine, drop, effect, Runs, here, next, Runs-trans, step-encode}
use mr_iss.Jit.Emit.Code.{length-append, assemble, Holds-front, Holds-back, effects, Runs-assemble}
use mr_iss.Jit.Emit.Sites.{codes, Made, AllCallable, sites-Ran, prologue, epilogue, block_code}
use mr_iss.Base.{
  ℕ, ◌+◌, ◌^◌, ◌≤◌, ◌<◌, ◌≡◌, refl, sym, ap, subst, List, [], ◌∷◌, ◌++◌, arith, length, get_or,
}

-- The block has returned from the machine `m`: to the address on the stack, with the registers that a callee keeps, the
-- count in rax, and the calls of the sites made in order for the interpreter in rdi.
pub record Returned (ss : List Site) (nr : ℕ) (m n : Machine) : Type 0 where
  pub back : n.rip ≡ get_or m.stack 0 0
  pub popped : n.stack ≡ drop 1 m.stack
  pub same_rbx : n.rbx ≡ m.rbx
  pub same_rbp : n.rbp ≡ m.rbp
  pub same_r12 : n.r12 ≡ m.r12
  pub count : n.rax ≡ nr
  pub calls : Made m.rdi ss m.calls n.calls

module _ (junk : List Call → ℕ → ℕ) (code : ℕ → ℕ) (buffer size : ℕ) where
  -- The end of a block, over the slots that its start saved.
  closes :
      (ss : List Site) (nr : ℕ) (m n : Machine)
      → nr < 2 ^ 32
      → n.stack ≡ m.rbx ∷ m.r12 ∷ m.rbp ∷ m.stack
      → Made m.rdi ss m.calls n.calls
      → Holds code n.rip (assemble (epilogue nr) ++ (0xc3 ∷ []))
      → (o : Machine) × Runs junk code n o × Returned ss nr m o
  closes ss nr m n k saved made h =
      let last : Machine = effects junk (epilogue nr) n in
      let front = Holds-front code n.rip (assemble (epilogue nr)) (0xc3 ∷ []) h in
      let at : n.rip + length (assemble (epilogue nr)) ≡ last.rip = omega arith in
      let final = rw at at (Holds-back code n.rip (assemble (epilogue nr)) (0xc3 ∷ []) h) in
      (
        effect junk ret last,
        Runs-trans junk
            (Runs-assemble junk code (epilogue nr) n (k, tt, (tt, tt, (tt, tt, (tt, tt, tt))))
              front)
            (next (step-encode junk code last ret tt final) here),
        record {
          back = ap (λ x. get_or (drop 1 (drop 1 (drop 1 x))) 0 0) saved;
          popped = ap (λ x. drop 1 (drop 1 (drop 1 (drop 1 x)))) saved;
          same_rbx = ap (λ x. get_or x 0 0) saved;
          same_rbp = ap (λ x. get_or (drop 1 (drop 1 x)) 0 0) saved;
          same_r12 = ap (λ x. get_or (drop 1 x) 0 0) saved;
          count = refl;
          calls = made;
        },
      )

  -- A block's code that stands in reach of its routines, called with the interpreter in rdi, returns to its caller: it
  -- has called the routine of each site, in order, with the interpreter and the site's arguments; rax has the count, and
  -- the stack, rbx, rbp and r12 are as they were, whatever the routines leave in the other registers.
  pub block-Returned :
      (ss : List Site) (nr : ℕ) (m : Machine)
      → AllCallable buffer size ss
      → buffer ≤ m.rip
      → m.rip + length (block_code m.rip ss nr) ≤ buffer + size
      → nr < 2 ^ 32
      → Holds code m.rip (block_code m.rip ss nr)
      → (o : Machine) × Runs junk code m o × Returned ss nr m o
  unfolding block_code
  block-Returned ss nr m ok low high k h =
      let opened : Machine = effects junk prologue m in
      let end : List ℕ = assemble (epilogue nr) ++ (0xc3 ∷ []) in
      let middle : List ℕ = codes (m.rip + 10) ss in
      let at : m.rip + 10 ≡ opened.rip = omega arith in
      let split = length-append middle end in
      let after = Holds-back code m.rip (assemble prologue) (middle ++ end) h in
      let start =
        Runs-assemble junk code prologue m (tt, tt, (tt, tt, (tt, tt, (tt, tt, (tt, tt, tt)))))
          (Holds-front code m.rip (assemble prologue) (middle ++ end) h) in
      let same : length (codes opened.rip ss) ≡ length middle =
        ap (λ x. length (codes x ss)) (sym at) in
      let (n, (runs, kept, rip, made)) =
        sites-Ran junk code buffer size ss opened ok (omega arith) (omega (arith, same, split)) (
          subst (λ x. Holds code x (codes x ss)) at
            (Holds-front code (m.rip + 10) middle end after)) in
      let there : m.rip + 10 + length middle ≡ n.rip = omega (arith, rip, same) in
      let (o, last, returned) =
        closes ss nr m n k kept.stack made
          (subst (λ x. Holds code x end) there (Holds-back code (m.rip + 10) middle end after)) in
      (o, Runs-trans junk start (Runs-trans junk runs last), returned)
