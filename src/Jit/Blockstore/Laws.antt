-- ===== src/Jit/Blockstore/Laws.antt =====
-- The hashed store against the plain list of the blocks that were allocated, the newest first.
use mr_iss.Base.{
  ℕ, ◌+◌, ◌-◌, ◌≤◌, ◌<◌, ◌≡◌, refl, sym, ap, ap₂, subst, ◌∙◌, inl, inr, true, false, Option, none,
  some, List, [], ◌∷◌, arith, ltb, ◌==◌, if◌then◌else◌, ==_iff, ==_self, Bool-cases,
}
use mr_iss.Jit.Blockstore.{
  Block, Blockstore, hash_idx, bs_hm_insert, matches, find_block, remember, bs_hm_lookup,
  reset_blockstore, with_room, place_block, alloc_block, resize_chain, amend_block_size, align64,
  code_size, fumes, headerlen,
}

-- Each chain holds, in order, the blocks of the list whose key has its hash.
abbrev chain_of : List Block → ℕ → List Block
chain_of [] i = []
chain_of (b ∷ bs) i = if i == hash_idx b.pc_pa b.msr then b ∷ chain_of bs i else chain_of bs i

abbrev Holds : Blockstore → List Block → Type 0
Holds s log = (i : ℕ) → s.hashmap i ≡ chain_of log i

matches-hash_idx :
    (pa msr : ℕ) (b : Block) → matches pa msr b ≡ true → hash_idx pa msr ≡ hash_idx b.pc_pa b.msr
matches-hash_idx pa msr b h = ap₂ hash_idx (sym (ground arith)) (sym (ground arith))

-- The chain of a key's hash finds what the whole list does.
find-chain_of :
    (log : List Block) (pa msr : ℕ)
    → find_block (matches pa msr) (chain_of log (hash_idx pa msr)) ≡ find_block (matches pa msr) log
unfolding find_block
find-chain_of [] pa msr = refl
find-chain_of (b ∷ bs) pa msr = elim (Bool-cases (hash_idx pa msr == hash_idx b.pc_pa b.msr)) [
  | inl e ↦ rw e (ap (λ x. if matches pa msr b then some b else x) (find-chain_of bs pa msr))
  | inr e ↦ elim (Bool-cases (matches pa msr b)) [
    | inl m ↦ absurd (ground (arith, e, matches-hash_idx pa msr b m, ==_self (hash_idx pa msr)))
    | inr m ↦ rw (e, m) (find-chain_of bs pa msr)
  ]
]

bs_hm_insert-Holds :
    (s : Blockstore) (log : List Block) (b : Block)
    → Holds s log
    → Holds (bs_hm_insert s b.pc_pa b.msr b) (b ∷ log)
unfolding bs_hm_insert
bs_hm_insert-Holds s log b h i =
    let k = hash_idx b.pc_pa b.msr in
    let (to, from) = ==_iff i k in
    elim (Bool-cases (i == k)) [
      | inl e ↦ rw e (ap (λ (x : List Block). b ∷ x) (h k ∙ ap (chain_of log) (sym (to e))))
      | inr e ↦ rw e (h i)
    ]

resize-chain_of :
    (log : List Block) (b : Block) (n i : ℕ)
    → resize_chain b n (chain_of log i) ≡ chain_of (resize_chain b n log) i
unfolding resize_chain
resize-chain_of [] b n i = refl
resize-chain_of (c ∷ cs) b n i =
    let tail = resize-chain_of cs b n i in
    elim (Bool-cases (c.place == b.place)) [
      | inl p ↦ elim (Bool-cases (i == hash_idx c.pc_pa c.msr)) [
        | inl e ↦ rw (p, e) (rw p (ap (λ (x : List Block). record c { codelen = n } ∷ x) tail))
        | inr e ↦ rw (p, e) tail
      ]
      | inr p ↦ elim (Bool-cases (i == hash_idx c.pc_pa c.msr)) [
        | inl e ↦ rw (p, e) (rw p (ap (λ (x : List Block). c ∷ x) tail))
        | inr e ↦ rw (p, e) tail
      ]
    ]

-- The abstract store: the blocks in a list, the newest first, and the space that is used.
pub record Log : Type 0 where
  pub blocks : List Block
  pub used : ℕ

-- What a client does: look a key up, compile a block (`allocBlock`, and `amendBlockSize` once the code's length is
-- known), give a block up whose code finds no room (`allocBlock`, and then a reset), or empty the store. An
-- allocation is always followed so, as its comment demands.
pub data Op : Type 0 where
  looks : ℕ → ℕ → Op
  compiles : ℕ → ℕ → ℕ → ℕ → Op
  gives_up : ℕ → ℕ → ℕ → Op
  resets : Op

-- A block that is allocated, and its length settled.
abbrev compile : Blockstore → ℕ → ℕ → ℕ → ℕ → Option Block × Blockstore
compile t pc pa msr n =
    let r = place_block t pc pa msr in
    (some (record r.0 { codelen = n }), amend_block_size r.2 r.0 n)

-- The block that an operation gives, and what it leaves.
abbrev step : Blockstore → Op → Option Block × Blockstore
step s (looks pa msr) = bs_hm_lookup s pa msr
step s (compiles pc pa msr n) =
    let r = alloc_block s pc pa msr in
    (some (record r.0 { codelen = n }), amend_block_size r.2 r.0 n)
step s (gives_up pc pa msr) = (none, reset_blockstore (alloc_block s pc pa msr).2)
step s resets = (none, reset_blockstore s)

abbrev new_log : Log → Log
new_log l = if ltb (code_size - fumes) l.used then record { blocks = []; used = 0 } else l

-- A new block goes before the others, which stay as they are.
abbrev placed : Log → ℕ → ℕ → ℕ → ℕ → Option Block × Log
placed t pc pa msr n =
    let b : Block = record { place = t.used; pc = pc; pc_pa = pa; msr = msr; codelen = n } in
    (some b, record { blocks = b ∷ t.blocks; used = align64 (t.used + headerlen + n) })

abbrev log_step : Log → Op → Option Block × Log
log_step l (looks pa msr) = (find_block (matches pa msr) l.blocks, l)
log_step l (compiles pc pa msr n) = placed (new_log l) pc pa msr n
log_step l (gives_up pc pa msr) = (none, record { blocks = []; used = 0 })
log_step l resets = (none, record { blocks = []; used = 0 })

-- The blocks lie in the space that is used, so that none is overwritten by the next.
abbrev Below : ℕ → List Block → Type 0
Below used [] = Unit {0}
Below used (b ∷ bs) = (b.place < used) × Below used bs

Below-le : (m n : ℕ) (bs : List Block) → m ≤ n → Below m bs → Below n bs
Below-le m n [] h k = tt
Below-le m n (b ∷ bs) h (k, rest) = (omega arith, Below-le m n bs h rest)

-- A block that starts where the space in use ends has its place to itself.
resize-Below :
    (b : Block) (n used : ℕ) (bs : List Block)
    → used ≤ b.place
    → Below used bs
    → resize_chain b n bs ≡ bs
unfolding resize_chain
resize-Below b n used [] h k = refl
resize-Below b n used (c ∷ cs) h (k, rest) =
    let apart : (c.place == b.place) ≡ false = ground arith in
    rw apart (ap (λ (x : List Block). c ∷ x) (resize-Below b n used cs h rest))

abbrev Refines : Blockstore → Log → Type 0
Refines s l = Holds s l.blocks × (s.last ≡ l.used) × Below l.used l.blocks

abbrev Agrees : Option Block × Blockstore → Option Block × Log → Type 0
Agrees r a = (r.0 ≡ a.0) × Refines r.1 a.1

remember-Agrees :
    (s : Blockstore) (l : Log) (o p : Option Block)
    → o ≡ p
    → Refines s l
    → Agrees (remember s o) (p, l)
unfolding remember
remember-Agrees s l none p e h = (e, h)
remember-Agrees s l (some b) p e h = (e, h)

lookup-Agrees :
    (s : Blockstore) (l : Log) (pa msr : ℕ)
    → Refines s l
    → Agrees (bs_hm_lookup s pa msr) (find_block (matches pa msr) l.blocks, l)
unfolding bs_hm_lookup
lookup-Agrees s l pa msr (h, u, below) =
    let i = hash_idx pa msr in
    remember-Agrees s l (find_block (matches pa msr) (s.hashmap i))
      (find_block (matches pa msr) l.blocks)
      (ap (find_block (matches pa msr)) (h i) ∙ find-chain_of l.blocks pa msr) (h, u, below)

with_room-Refines : (s : Blockstore) (l : Log) → Refines s l → Refines (with_room s) (new_log l)
unfolding with_room
with_room-Refines s l (h, u, below) =
    let full = Bool-cases (ltb (code_size - fumes) l.used) in
    let same = ap (ltb (code_size - fumes)) u in
    elim full [ inl e ↦ rw (same, e) ((λ i. refl), refl, tt) | inr e ↦ rw (same, e) (h, u, below) ]

resize-first :
    (b : Block) (n : ℕ) (log : List Block)
    → Below b.place log
    → resize_chain b n (b ∷ log) ≡ record b { codelen = n } ∷ log
unfolding resize_chain
resize-first b n log below = rw (==_self b.place) (
    ap (λ (x : List Block). record b { codelen = n } ∷ x)
      (resize-Below b n b.place log (omega arith) below))

compile-Holds :
    (t : Blockstore) (log : List Block) (b : Block) (n : ℕ)
    → Holds t log
    → Below b.place log
    → Holds (amend_block_size (bs_hm_insert t b.pc_pa b.msr b) b n) (record b { codelen = n } ∷ log)
unfolding amend_block_size
compile-Holds t log b n h below i =
    ap (resize_chain b n) (bs_hm_insert-Holds t log b h i)
    ∙ resize-chain_of (b ∷ log) b n i
    ∙ ap (λ x. chain_of x i) (resize-first b n log below)

compile-Agrees :
    (t : Blockstore) (l : Log) (pc pa msr n : ℕ)
    → Refines t l
    → Agrees (compile t pc pa msr n) (placed l pc pa msr n)
unfolding place_block amend_block_size bs_hm_insert
compile-Agrees t l pc pa msr n (h, u, below) =
    let b : Block = record { place = t.last; pc = pc; pc_pa = pa; msr = msr; codelen = 0 } in
    let here = subst (λ x. Below x l.blocks) (sym u) below in
    let used = align64 (t.last + headerlen + n) in
    let grows : t.last < used = omega arith in
    subst
      (λ x.
        Agrees (compile t pc pa msr n)
          (placed (record { blocks = l.blocks; used = x }) pc pa msr n))
      u
      (
        refl,
        (
          compile-Holds t l.blocks b n h here,
          refl,
          (grows, Below-le t.last used l.blocks (omega (arith, grows)) here),
        ),
      )

step-Agrees :
    (s : Blockstore) (l : Log) (op : Op) → Refines s l → Agrees (step s op) (log_step l op)
unfolding reset_blockstore alloc_block
step-Agrees s l (looks pa msr) h = lookup-Agrees s l pa msr h
step-Agrees s l (compiles pc pa msr n) h =
    compile-Agrees (with_room s) (new_log l) pc pa msr n (with_room-Refines s l h)
step-Agrees s l (gives_up pc pa msr) h = (refl, ((λ i. refl), refl, tt))
step-Agrees s l resets h = (refl, ((λ i. refl), refl, tt))

-- The blocks that a sequence of operations gives, by the store and by the list.
abbrev pub run : Blockstore → List Op → List (Option Block)
run s [] = []
run s (op ∷ ops) = let r = step s op in r.0 ∷ run r.1 ops

abbrev pub log_run : Log → List Op → List (Option Block)
log_run l [] = []
log_run l (op ∷ ops) = let r = log_step l op in r.0 ∷ log_run r.1 ops

-- From a store that agrees with a list of blocks that lie in its used space: over any sequence of lookups, compiled
-- blocks, blocks given up and resets, the hashed store gives the same blocks as a plain list searched from the
-- newest, in which a lookup compares the whole key, and to which a compiled block is added with its length and
-- no other block is changed.
pub run-Refines :
    (s : Blockstore) (l : Log) (ops : List Op) → Refines s l → run s ops ≡ log_run l ops
run-Refines s l [] h = refl
run-Refines s l (op ∷ ops) h =
    let (same, next) = step-Agrees s l op h in
    ap₂ (λ (x : Option Block) xs. x ∷ xs) same
      (run-Refines (step s op).1 (log_step l op).1 ops next)
