-- ===== src/Jit/Emit/Sites.antt =====
-- The code of a whole block (blockgen.cc), run by the machine: a call for each site, in order, between the block's start
-- and its end.
use mr_iss.Jit.Emit.{Site, plain, get_rel_addr}
use mr_iss.Jit.Emit.X86.{Insn, rbp, r12, rbx, eax, mov_rbp_rsp, mov_rbx_rdi, load, push, pop, Holds}
use mr_iss.Jit.Emit.Machine.{Call, Machine, Runs, here, Runs-trans}
use mr_iss.Jit.Emit.Code.{
  length-append, assemble, Holds-front, Holds-back, effects, AllStraight, Runs-assemble,
}
use mr_iss.Jit.Emit.Laws.{
  routine, values, body, offset, site_code, InReach, Kept, Makes, Newest, body-Called, reaches,
}
use mr_iss.Base.{
  ℕ, ◌+◌, ◌^◌, ◌≤◌, ◌<◌, ◌≡◌, refl, sym, ap, subst, ◌∙◌, List, [], ◌∷◌, ◌++◌, arith, length, All,
}

-- A site whose routine is in reach of any place in the code buffer, and whose arguments are words.
pub record IsCallable (buffer size : ℕ) (s : Site) : Type 0 where
  pub within : routine s < 2 ^ 64
  pub above : buffer + size ≤ routine s + 2 ^ 31
  pub below : routine s < buffer + 5 + 2 ^ 31
  pub words : All (λ v. v < 2 ^ 32) (values s)

body-AllStraight :
    (rel : ℕ) (vs : List ℕ) → rel < 2 ^ 32 → All (λ v. v < 2 ^ 32) vs → AllStraight (body rel vs)
body-AllStraight rel [] k h = (tt, tt, (k, tt, tt))
body-AllStraight rel (a ∷ []) k h = (tt, tt, (h.0, tt, (k, tt, tt)))
body-AllStraight rel (a ∷ b ∷ []) k h = (tt, tt, (h.0, tt, (h.1.0, tt, (k, tt, tt))))
body-AllStraight rel (a ∷ b ∷ c ∷ []) k h =
    (tt, tt, (h.0, tt, (h.1.0, tt, (h.1.1.0, tt, (k, tt, tt)))))
body-AllStraight rel (a ∷ b ∷ c ∷ d ∷ []) k h =
    (tt, tt, (h.0, tt, (h.1.0, tt, (h.1.1.0, tt, (h.1.1.1.0, tt, (k, tt, tt))))))
body-AllStraight rel (a ∷ b ∷ c ∷ d ∷ e ∷ []) k h =
    (tt, tt, (h.0, tt, (h.1.0, tt, (h.1.1.0, tt, (h.1.1.1.0, tt, (h.1.1.1.1.0, tt, (k, tt, tt)))))))
body-AllStraight rel (a ∷ b ∷ c ∷ d ∷ e ∷ f ∷ vs) k h = (
  tt,
  tt,
  (
    h.1.1.1.1.1.0,
    tt,
    (
      tt,
      tt,
      (
        h.0,
        tt,
        (h.1.0, tt, (h.1.1.0, tt, (h.1.1.1.0, tt, (h.1.1.1.1.0, tt, (k, tt, (tt, tt, tt)))))),
      ),
    ),
  ),
)

offset-le : (rel : ℕ) (vs : List ℕ) → offset vs + 5 ≤ length (assemble (body rel vs))
offset-le rel [] = omega arith
offset-le rel (a ∷ []) = omega arith
offset-le rel (a ∷ b ∷ []) = omega arith
offset-le rel (a ∷ b ∷ c ∷ []) = omega arith
offset-le rel (a ∷ b ∷ c ∷ d ∷ []) = omega arith
offset-le rel (a ∷ b ∷ c ∷ d ∷ e ∷ []) = omega arith
offset-le rel (a ∷ b ∷ c ∷ d ∷ e ∷ f ∷ vs) = omega arith

pub code-le : (rel : ℕ) (vs : List ℕ) → length (assemble (body rel vs)) ≤ 51
code-le rel [] = omega arith
code-le rel (a ∷ []) = omega arith
code-le rel (a ∷ b ∷ []) = omega arith
code-le rel (a ∷ b ∷ c ∷ []) = omega arith
code-le rel (a ∷ b ∷ c ∷ d ∷ []) = omega arith
code-le rel (a ∷ b ∷ c ∷ d ∷ e ∷ []) = omega arith
code-le rel (a ∷ b ∷ c ∷ d ∷ e ∷ f ∷ vs) = omega arith

values_short : (s : Site) → length (values s) ≤ 6
values_short (plain addr) = omega arith
values_short s = omega arith

unfoldable pub codes : ℕ → List Site → List ℕ
codes place [] = []
codes place (s ∷ ss) = site_code place s ++ codes (place + length (site_code place s)) ss

-- The calls of the sites were made, the first one first.
abbrev pub Made : ℕ → List Site → List Call → List Call → Type 0
Made interp [] old new = new ≡ old
Made interp (s ∷ ss) old new =
    (c : Call) × Makes (routine s) (values s) interp c × Made interp ss (c ∷ old) new

abbrev pub AllCallable : ℕ → ℕ → List Site → Type 0
AllCallable buffer size [] = Unit
AllCallable buffer size (s ∷ ss) = IsCallable buffer size s × AllCallable buffer size ss

module _ (junk : List Call → ℕ → ℕ) (code : ℕ → ℕ) (buffer size : ℕ) where
  site-Runs :
      (s : Site) (m : Machine)
      → IsCallable buffer size s
      → buffer ≤ m.rip
      → m.rip + length (site_code m.rip s) ≤ buffer + size
      → Holds code m.rip (site_code m.rip s)
      → (n : Machine) × Runs junk code m n
        × Kept m n
        × (n.rip ≡ m.rip + length (site_code m.rip s))
        × Newest (Makes (routine s) (values s) m.rbx) n.calls m.calls
  site-Runs s m c low high h =
      let vs : List ℕ = values s in
      let here : ℕ = m.rip + offset vs in
      let rel : ℕ = get_rel_addr here (routine s) in
      let small = offset-le rel vs in
      let reach : InReach here (routine s) =
        (c.within, omega (arith, c.above), omega (arith, c.below)) in
      let (kept, rip, newest) =
        body-Called junk rel (routine s) vs m (values_short s) c.words
          (reaches here (routine s) reach) in
      (
        effects junk (body rel vs) m,
        Runs-assemble junk code (body rel vs) m (body-AllStraight rel vs (omega arith) c.words) h,
        kept,
        rip,
        newest,
      )

  Kept-trans : {m n o : Machine} → Kept m n → Kept n o → Kept m o
  Kept-trans a b = record {
    rbx = b.rbx ∙ a.rbx;
    rbp = b.rbp ∙ a.rbp;
    r12 = b.r12 ∙ a.r12;
    stack = b.stack ∙ a.stack;
  }

  Newest-call :
      (P : Call → Type 0) (cs old : List Call) → Newest P cs old → (c : Call) × P c × (cs ≡ c ∷ old)
  Newest-call P [] old h = absurd h
  Newest-call P (c ∷ cs) old (p, e) = (c, p, ap (λ (x : List Call). c ∷ x) e)

  -- What the calls of sites come to, from the machine `m` on.
  abbrev Ran : List Site → Machine → Machine → Type 0
  Ran ss m n =
      Runs junk code m n
      × Kept m n
      × (n.rip ≡ m.rip + length (codes m.rip ss))
      × Made m.rbx ss m.calls n.calls

  pub sites-Ran :
      (ss : List Site) (m : Machine)
      → AllCallable buffer size ss
      → buffer ≤ m.rip
      → m.rip + length (codes m.rip ss) ≤ buffer + size
      → Holds code m.rip (codes m.rip ss)
      → (n : Machine) × Ran ss m n
  unfolding codes
  sites-Ran [] m c low high h =
      (m, (here, record { rbx = refl; rbp = refl; r12 = refl; stack = refl }, omega arith, refl))
  sites-Ran (s ∷ ss) m (c, cs) low high h =
      let one : List ℕ = site_code m.rip s in
      let rest : List ℕ = codes (m.rip + length one) ss in
      let both = length-append one rest in
      let first = site-Runs s m c low (omega (arith, both)) (Holds-front code m.rip one rest h) in
      let there = first.3 in
      let size_there : length (codes first.0.rip ss) ≡ length rest =
        ap (λ x. length (codes x ss)) there in
      let (n, (runs, kept, rip, made)) =
        sites-Ran ss first.0 cs (omega (arith, there)) (omega (arith, both, there, size_there))
          (subst (λ x. Holds code x (codes x ss)) (sym there) (Holds-back code m.rip one rest h)) in
      let (d, makes, newest) =
        Newest-call (Makes (routine s) (values s) m.rbx) first.0.calls m.calls first.4 in
      (
        n,
        (
          Runs-trans junk first.1 runs,
          Kept-trans first.2 kept,
          omega (arith, rip, there, size_there, both),
          (
            d,
            makes,
            subst (λ x. Made m.rbx ss x n.calls) newest
                (subst (λ x. Made x ss first.0.calls n.calls) first.2.rbx made),
          ),
        ),
      )

-- A block: rbp, r12 and rbx are saved, the sites' routines are called, the number of instructions is put in eax and the
-- registers come back.
abbrev pub prologue : List Insn
prologue = push rbp ∷ mov_rbp_rsp ∷ push r12 ∷ push rbx ∷ mov_rbx_rdi ∷ []

abbrev pub epilogue : ℕ → List Insn
epilogue nr = load eax nr ∷ pop rbx ∷ pop r12 ∷ pop rbp ∷ []

unfoldable pub block_code : ℕ → List Site → ℕ → List ℕ
block_code place ss nr =
    assemble prologue ++ (codes (place + 10) ss ++ (assemble (epilogue nr) ++ (0xc3 ∷ [])))
