-- ===== src/Mmu/Run.antt =====
-- The unit over time: power-on reset, then any sequence of commands and accesses.
use commodore_900_emulator.Base.{ℕ}
use commodore_900_emulator.Mmu.State.{Mmu, mmu_reset}
use commodore_900_emulator.Mmu.Translate.{Access, mmu_translate}
use commodore_900_emulator.Mmu.Command.{mmu_cmd_read, mmu_cmd_write}
use commodore_900_emulator.Mmu.Coherence.{IsCoherent}
use commodore_900_emulator.Mmu.Keep.{
  mmu_reset-IsCoherent, mmu_cmd_read-IsCoherent, mmu_cmd_write-IsCoherent, mmu_translate-IsCoherent,
}

-- What the bus and the processor do to the unit.
pub data Step (u : Mmu) : Mmu → Type 0 where
  cmd_read : (cmd : ℕ) → Step u (mmu_cmd_read u cmd).1
  cmd_write : (cmd v : ℕ) → Step u (mmu_cmd_write u cmd v)
  access : (a : Access) → Step u (mmu_translate u a).unit
  reset : Step u (mmu_reset u)

pub data Reach (u : Mmu) : Mmu → Type 0 where
  power_on : Reach u (mmu_reset u)
  next : {v w : Mmu} → Reach u v → Step v w → Reach u w

Step-IsCoherent : {u v : Mmu} → Step u v → IsCoherent u → IsCoherent v
Step-IsCoherent {u} (cmd_read cmd) h = mmu_cmd_read-IsCoherent u cmd h
Step-IsCoherent {u} (cmd_write cmd v) h = mmu_cmd_write-IsCoherent u cmd v h
Step-IsCoherent {u} (access a) h = mmu_translate-IsCoherent u a h
Step-IsCoherent {u} reset h = mmu_reset-IsCoherent u

-- In every state that reset, commands and accesses can reach, in any order, the cache agrees with the
-- 64 descriptors.
pub Reach-IsCoherent : (u v : Mmu) → Reach u v → IsCoherent v
Reach-IsCoherent u v power_on = mmu_reset-IsCoherent u
Reach-IsCoherent u v (next {v = w} r s) = Step-IsCoherent s (Reach-IsCoherent u w r)
