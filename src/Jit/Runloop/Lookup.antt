-- ===== src/Jit/Runloop/Lookup.antt =====
-- What findBlock (blockstore.cc) gives the loop of the JIT: a block, a fetch that is granted, or a fault.
use mr_iss.Memory.{Memory}
use mr_iss.Mmu.State.{Mmu, Fault}
use mr_iss.Mmu.Walk.{Sys}
use mr_iss.Mmu.Walk.Laws.{Answers, Reports}
use mr_iss.Mmu.Translate.{Access, granted, denied, looping}
use mr_iss.Mmu.Translate.Laws.{Settles}
use mr_iss.Mmu.Access.{translate}
use mr_iss.Mmu.Access.Fetch.{translate-Settles, Granted}
use mr_iss.Cpu.State.{Cpu}
use mr_iss.Jit.Blockstore.{
  Block, Blockstore, find_block_fast, find_block_slow, slow_answer, bs_hm_lookup,
}
use mr_iss.Jit.Blockstore.Room.{bs_hm_lookup-none}
use mr_iss.Jit.Blockgen.Found.{fetch_of}
use mr_iss.Base.{
  ◌≡◌, refl, true, ◌&&◌, Option, none, some, ◌==◌, u32, Yields, Yields-bind, Yields-test, done,
}

-- What `findBlock` gives the loop: a block, or none and a fetch that is granted, with the store as it was, or a fault.
abbrev pub Looked : Cpu → Blockstore → Option Block × Fault × Blockstore × Mmu → Type 0
Looked c store (some b, f, store', m) = Unit
Looked c store (none, Fault.none, store', m) = Granted (fetch_of c) m × (store' ≡ store)
Looked c store (none, f, store', m) = Reports true f

found_or_Granted :
    (c : Cpu) (store store' : Blockstore) (o : Option Block) (m : Mmu)
    → Granted (fetch_of c) m
    → (o ≡ none → store' ≡ store)
    → Looked c store (o, Fault.none, store', m)
found_or_Granted c store store' none m g k = (g, k refl)
found_or_Granted c store store' (some b) m g k = tt

reported :
    (c : Cpu) (store : Blockstore) (f : Fault) (m : Mmu)
    → Reports true f
    → Looked c store (none, f, store, m)
reported c store Fault.none m h = absurd h
reported c store Fault.no_page m h = h
reported c store Fault.no_segment m h = h
reported c store Fault.perms m h = h
reported c store Fault.perms_nx m h = h
reported c store Fault.align m h = h

module _ (mem : Memory) (ans : Answers mem) where
  slow_answer-Looked :
      (store : Blockstore) (c : Cpu) (t : Access × Sys mem)
      → Settles mem ans (fetch_of c) t
      → Yields (λ r. Looked c store (r.0, r.1, r.2, r.3.mmu)) (slow_answer mem store c t)
  unfolding slow_answer
  slow_answer-Looked store c (granted pa, s) h =
      let found = bs_hm_lookup store (u32 pa) c.msr in
      found_or_Granted c store found.1 found.0 s.mmu (pa, h.0, h.1, h.2)
        (bs_hm_lookup-none store (u32 pa) c.msr)
  slow_answer-Looked store c (denied f, s) h = reported c store f s.mmu h
  slow_answer-Looked store c (looping, s) h = h

  find_block_slow-Looked :
      (store : Blockstore) (s : Sys mem) (c : Cpu)
      → Yields (λ r. Looked c store (r.0, r.1, r.2, r.3.mmu)) (find_block_slow mem store s c)
  unfolding find_block_slow
  find_block_slow-Looked store s c =
      Yields-bind (Settles mem ans (fetch_of c)) (λ r. Looked c store (r.0, r.1, r.2, r.3.mmu))
        (translate mem s (fetch_of c)) (slow_answer mem store c)
        (translate-Settles mem ans s (fetch_of c)) (slow_answer-Looked store c)

  pub find_block_fast-Looked :
      (store : Blockstore) (s : Sys mem) (c : Cpu) (f : Fault)
      → Yields (λ r. Looked c store (r.0, r.1, r.2, r.3.mmu)) (find_block_fast mem store s c f)
  unfolding find_block_fast
  find_block_fast-Looked store s c f =
      Yields-test {A = Option Block × Fault × Blockstore × Sys mem}
        (λ r. Looked c store (r.0, r.1, r.2, r.3.mmu))
        ((s.mmu.generation_count == store.gencount && store.last_block.pc == c.pc)
          && store.last_block.msr == c.msr)
        (done (some store.last_block, f, store, s)) (find_block_slow mem store s c) (λ _. tt)
        (λ _. find_block_slow-Looked store s c)
