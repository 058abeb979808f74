-- ===== src/Memory.antt =====
-- What the MMU and the interpreter use of the world below them: the physical bus (Bus.h), the host
-- memory that a direct mapping points into, and the host's `htonl` and `htons`. `World` is all of
-- the state behind the bus. `Bus` gives the accesses that go through the devices.
use mr_iss.Base.{ℕ, Option, Outcome}

pub record Memory : Type 1 where
  pub World : Type 0
  pub read32 : World → ℕ → Outcome (ℕ × World)
  pub read16 : World → ℕ → Outcome (ℕ × World)
  pub read8 : World → ℕ → Outcome (ℕ × World)
  pub write32 : World → ℕ → ℕ → Outcome World
  pub write16 : World → ℕ → ℕ → Outcome World
  pub write8 : World → ℕ → ℕ → Outcome World
  pub get_direct_map : World → ℕ → Outcome (Option ℕ × World)
  pub host_load32 : World → ℕ → ℕ
  pub host_load16 : World → ℕ → ℕ
  pub host_load8 : World → ℕ → ℕ
  pub host_store32 : World → ℕ → ℕ → World
  pub host_store16 : World → ℕ → ℕ → World
  pub host_store8 : World → ℕ → ℕ → World
  pub htonl : ℕ → ℕ
  pub htons : ℕ → ℕ
