-- ===== src/Jit/Emit/Machine.antt =====
-- A machine for the instructions of X86, and its runs over code that stands in memory. What a call leaves in the
-- registers that it may change is any function of the calls before it.
use mr_iss.Jit.Emit.X86.{
  Slot, esi, edx, ecx, r8d, r9d, eax, Saved, Insn, mov_rdi_rbx, mov_rbx_rdi, mov_rbp_rsp, grow,
  shrink, ret, load, push, pop, store, call, encode, decode, decode-encode, Holds, Fits,
}
use mr_iss.Base.{
  ℕ, zero, suc, ◌+◌, ◌-◌, ◌^◌, ◌≡◌, Option, none, some, List, [], ◌∷◌, ltb, if◌then◌else◌, length,
  get_or, set, u32, u64,
}

-- A call: where to, rdi, and the other five argument registers with the slot at rsp.
pub record Call : Type 0 where
  pub target : ℕ
  pub this : ℕ
  pub args : List ℕ

-- The stack is a list of 8-byte slots, and `calls` has the newest call first.
pub record Machine : Type 0 where
  pub rip : ℕ
  pub rdi : ℕ
  pub rsi : ℕ
  pub rdx : ℕ
  pub rcx : ℕ
  pub r8 : ℕ
  pub r9 : ℕ
  pub rax : ℕ
  pub rbx : ℕ
  pub rbp : ℕ
  pub r12 : ℕ
  pub stack : List ℕ
  pub calls : List Call

abbrev pub drop : ℕ → List ℕ → List ℕ
drop zero xs = xs
drop (suc n) [] = []
drop (suc n) (x ∷ xs) = drop n xs

-- A 32-bit constant in 64 bits, by its sign.
abbrev pub sign_extend : ℕ → ℕ
sign_extend v = if ltb v (2 ^ 31) then v else v + (2 ^ 64 - 2 ^ 32)

abbrev set_slot : Slot → ℕ → Machine → Machine
set_slot esi v m = record m { rsi = v }
set_slot edx v m = record m { rdx = v }
set_slot ecx v m = record m { rcx = v }
set_slot r8d v m = record m { r8 = v }
set_slot r9d v m = record m { r9 = v }
set_slot eax v m = record m { rax = v }

abbrev get_saved : Saved → Machine → ℕ
get_saved Saved.rbp m = m.rbp
get_saved Saved.r12 m = m.r12
get_saved Saved.rbx m = m.rbx

abbrev set_saved : Saved → ℕ → Machine → Machine
set_saved Saved.rbp v m = record m { rbp = v }
set_saved Saved.r12 v m = record m { r12 = v }
set_saved Saved.rbx v m = record m { rbx = v }

abbrev call_made : Machine → ℕ → Call
call_made m rel = record {
  target = u64 (m.rip + 5 + sign_extend rel);
  this = m.rdi;
  args = m.rsi ∷ m.rdx ∷ m.rcx ∷ m.r8 ∷ m.r9 ∷ u32 (get_or m.stack 0 0) ∷ [];
}

module _ (junk : List Call → ℕ → ℕ) where
  -- What an instruction does, but for the step to the next one. A called routine comes back with the stack as it was.
  abbrev act : Insn → Machine → Machine
  act mov_rdi_rbx m = record m { rdi = m.rbx }
  act mov_rbx_rdi m = record m { rbx = m.rdi }
  act mov_rbp_rsp m = record m { rbp = length m.stack }
  act grow m = record m { stack = junk m.calls 8 ∷ junk m.calls 9 ∷ m.stack }
  act shrink m = record m { stack = drop 2 m.stack }
  act ret m = m
  act (load s v) m = set_slot s v m
  act (push r) m = record m { stack = get_saved r m ∷ m.stack }
  act (pop r) m =
      let n : Machine = set_saved r (get_or m.stack 0 0) m in record n { stack = drop 1 m.stack }
  act (store v) m = record m { stack = set m.stack 0 (sign_extend v) }
  act (call rel) m = record m {
    rdi = junk m.calls 0;
    rsi = junk m.calls 1;
    rdx = junk m.calls 2;
    rcx = junk m.calls 3;
    r8 = junk m.calls 4;
    r9 = junk m.calls 5;
    rax = junk m.calls 6;
    calls = call_made m rel ∷ m.calls;
  }

  abbrev returned : Machine → Machine
  returned m = record m { rip = get_or m.stack 0 0; stack = drop 1 m.stack }

  abbrev advanced : Insn → Machine → Machine
  advanced i m = let n : Machine = act i m in record n { rip = m.rip + length (encode i) }

  abbrev pub effect : Insn → Machine → Machine
  effect ret m = returned m
  effect i m = advanced i m

  abbrev performed : Option Insn → Machine → Option Machine
  performed none m = none
  performed (some i) m = some (effect i m)

  -- One instruction, fetched from memory; there is no next state where the bytes are none of the instructions.
  pub step : (ℕ → ℕ) → Machine → Option Machine
  step code m = performed (decode code m.rip) m

  pub data Runs (code : ℕ → ℕ) : Machine → Machine → Type 0 where
    here : {m : Machine} → Runs code m m
    next : {m n o : Machine} → step code m ≡ some n → Runs code n o → Runs code m o

  pub Runs-trans : {code : ℕ → ℕ} {m n o : Machine} → Runs code m n → Runs code n o → Runs code m o
  Runs-trans here s = s
  Runs-trans (next e r) s = next e (Runs-trans r s)

  pub step-encode :
      (code : ℕ → ℕ) (m : Machine) (i : Insn)
      → Fits i
      → Holds code m.rip (encode i)
      → step code m ≡ some (effect i m)
  unfolding step
  step-encode code m i k h = rw (decode-encode code m.rip i k h)
