-- ===== src/Engine/Priority.antt =====
-- The choice of an interrupt in `handle_interrupts` of src/cpu.c.
use commodore_900_emulator.Base.{
  ℕ, ◌<◌, ◌≡◌, refl, sym, ◌∙◌, arith, Bool, true, false, ◌&&◌, ◌==◌, has, if◌then◌else◌, Option,
  none, some, suc, ap, subst, ℕ_discrete,
}
use commodore_900_emulator.Cpu.{Cpu}
use commodore_900_emulator.Engine.State.{Machine, pure, ◌>>=◌, get_cpu}
use commodore_900_emulator.Engine.Interrupt.{
  Source, epu, trap, syscall, segtrap, nmi, nvi, vi, irq_bit, irq_nvi, irq_vi, select, sample_lines,
  fcw_vie, fcw_nvie, Hook, dispatch, handle_interrupts,
}

-- A source is requested, and the FCW lets it through: only the two maskable ones ask it.
abbrev pub pending : ℕ → ℕ → Source → Bool
pending req fcw nvi = has req irq_nvi && has fcw fcw_nvie
pending req fcw vi = has req irq_vi && has fcw fcw_vie
pending req fcw s = has req (irq_bit s)

abbrev pub rank : Source → ℕ
rank epu = 0
rank trap = 1
rank syscall = 2
rank segtrap = 3
rank nmi = 4
rank nvi = 5
rank vi = 6

-- The answer is the pending source of the lowest rank, or there is none.
pub Highest : ℕ → ℕ → Option Source → Type 0
Highest req fcw none = (s : Source) → pending req fcw s ≡ false
Highest req fcw (some s) =
    (pending req fcw s ≡ true) × ((t : Source) → rank t < rank s → pending req fcw t ≡ false)

source : ℕ → Source
source n =
    if n == 0
    then epu
    else if n == 1
    then trap
    else if n == 2
    then syscall
    else if n == 3
    then segtrap
    else if n == 4
    then nmi
    else if n == 5
    then nvi
    else vi

source-rank : (s : Source) → source (rank s) ≡ s
unfolding source
source-rank epu = refl
source-rank trap = refl
source-rank syscall = refl
source-rank segtrap = refl
source-rank nmi = refl
source-rank nvi = refl
source-rank vi = refl

rank-lt : (s : Source) → rank s < 7
rank-lt epu = omega arith
rank-lt trap = omega arith
rank-lt syscall = omega arith
rank-lt segtrap = omega arith
rank-lt nmi = omega arith
rank-lt nvi = omega arith
rank-lt vi = omega arith

module _ (req fcw : ℕ) where
  -- No source of a rank below `n` is pending.
  Clear : ℕ → Type 0
  Clear n = (t : Source) → rank t < n → pending req fcw t ≡ false

  more : (n : ℕ) → Clear n → pending req fcw (source n) ≡ false → Clear (suc n)
  unfolding Clear
  more n h e t lt = elim (ℕ_discrete (rank t) n) [
    | yes same ↦ subst (λ s. pending req fcw s ≡ false) (ap source (sym same) ∙ source-rank t) e
    | no other ↦ h t (omega arith)
  ]

  step :
      (n : ℕ) (b : Bool) (o : Option Source)
      → pending req fcw (source n) ≡ b
      → rank (source n) ≡ n
      → Clear n
      → (Clear (suc n) → Highest req fcw o)
      → Highest req fcw (if b then some (source n) else o)
  unfolding Clear Highest
  step n true o e r h k = (e, λ t lt. h t (omega arith))
  step n false o e r h k = k (more n h e)

-- The interrupt that is taken is pending, enabled by the FCW if it is one of the two that can be masked,
-- and none of a higher priority is, in the order EPU, TRAP, SYSCALL, SEGTRAP, NMI, NVI, VI; and if none
-- is taken, none is pending and enabled, whatever the requests and the FCW are.
pub select-Highest : (req fcw : ℕ) → Highest req fcw (select req fcw)
unfolding select Highest Clear source
select-Highest req fcw =
    step req fcw 0 _ _ refl refl (λ t lt. absurd (omega arith))
      (λ h0. step req fcw 1 _ _ refl refl h0 (λ h1. step req fcw 2 _ _ refl refl h1 (λ h2.
        step req fcw 3 _ _ refl refl h2 (λ h3. step req fcw 4 _ _ refl refl h3 (λ h4.
          step req fcw 5 _ _ refl refl h4
            (λ h5. step req fcw 6 _ _ refl refl h5 (λ h6 s. h6 s (rank-lt s))))))))

sample_lines-quiet :
    (c : Cpu)
    → c.irq_req ≡ 0
    → c.nmi_line ≡ false
    → c.segt_line ≡ false
    → (c.nvi_line && has c.fcw fcw_nvie) ≡ false
    → (c.vi_line && has c.fcw fcw_vie) ≡ false
    → sample_lines c ≡ 0
unfolding sample_lines
sample_lines-quiet c quiet no_nmi no_segt no_nvi no_vi =
    simp (quiet, no_nmi, no_segt, no_nvi, no_vi)

-- With nothing requested, no line of NMI or a segment trap, and the lines of NVI and VI off or masked by
-- the FCW, no interrupt is taken and the machine stays as it is.
pub handle_interrupts-masked :
    (hook : Hook) (m : Machine)
    → m.cpu.irq_req ≡ 0
    → m.cpu.nmi_line ≡ false
    → m.cpu.segt_line ≡ false
    → (m.cpu.nvi_line && has m.cpu.fcw fcw_nvie) ≡ false
    → (m.cpu.vi_line && has m.cpu.fcw fcw_vie) ≡ false
    → handle_interrupts hook m ≡ (false, m)
unfolding handle_interrupts dispatch get_cpu pure ◌>>=◌
handle_interrupts-masked hook m quiet no_nmi no_segt no_nvi no_vi =
    let none_left = sample_lines-quiet m.cpu quiet no_nmi no_segt no_nvi no_vi in
    ap
      (λ (k : ℕ).
        dispatch hook (if k == 0 then none else select k m.cpu.fcw)
          (record m { cpu = record m.cpu { irq_req = k } }))
      none_left
    ∙ ap (λ (k : ℕ). (false, record m { cpu = record m.cpu { irq_req = k } })) (sym quiet)
