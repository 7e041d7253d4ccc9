-- ===== src/Engine/Confinement.antt =====
-- `execute` of src/cpu.c in normal mode: `check_priv` lets nothing through, and no handler that does
-- without it reaches the state of the system.
use commodore_900_emulator.Base.{
  ℕ, ◌<◌, ◌≡◌, ◌≢◌, refl, sym, ◌∙◌, ap, subst, arith, Bool, true, false, not, ◌&&◌, bit_and, bit_or,
  bit_xor, complement, has, ◌==◌, if_cases, some,
}
use commodore_900_emulator.Base.High.{high_or, high_xor, high_clear, high_and, low_of_mask}
use commodore_900_emulator.Cpu.{
  CtrlWord, FcwOpKind, set_flags, clear_flags, toggle_flags, load_lo, store_lo, sys_mode,
}
use commodore_900_emulator.Decode.{decode_lookup}
use commodore_900_emulator.Decode.Check.{is_toggle}
use commodore_900_emulator.Decode.Words.{decode_lookup-mask}
use commodore_900_emulator.Engine.State.{Machine, Run, privileged}
use commodore_900_emulator.Engine.System.{exec_io, exec_ldctl, exec_ldps, exec_iret}
use commodore_900_emulator.Engine.Block.{exec_block_io}
use commodore_900_emulator.Engine.Execute.{
  exec_fcw_op, change_flags, sets_or_clears, set_fcw, execute,
}
use commodore_900_emulator.Engine.Keeps.{Keeps}
use commodore_900_emulator.Engine.AccessKeeps.{stack_Keeps}
use commodore_900_emulator.Engine.ExecuteKeeps.{Guarded, execute-Keeps}
use commodore_900_emulator.Engine.Confined.{
  Confined, Confined-Stable, mode-sys_mode, set_fcw-Keeps, with_cpu, plain,
}

true≢false : true ≢ false
true≢false e = cc

-- The kinds that have a mask.
abbrev has_mask : FcwOpKind → Bool
has_mask set_flags = true
has_mask clear_flags = true
has_mask toggle_flags = true
has_mask _ = false

-- A mask of SETFLG or RESFLG that needs no privilege lies in the low byte.
unprivileged-low : (mask : ℕ) → mask < 65536 → has mask (complement 32 0x00FC) ≡ false → mask < 256
unprivileged-low mask wide e = low_of_mask mask wide (clear (bit_and mask (complement 32 0x00FC)) e)
  where
    clear : (x : ℕ) → not (x == 0) ≡ false → x ≡ 0
    clear x h = ground arith

module _ (a : Machine) (fits : a.cpu.fcw < 65536) where
  load_flags :
      (v : ℕ)
      → Keeps
          (Confined a)
          (set_fcw (λ f. bit_or (bit_and f (complement 32 0x00FC)) (bit_and v 0x00FC)))
  load_flags v =
      set_fcw-Keeps a fits (λ f. bit_or (bit_and f (complement 32 0x00FC)) (bit_and v 0x00FC))
        (λ x s.
          high_or (bit_and x (complement 32 0x00FC)) (bit_and v 0x00FC)
            (high_and v 0x00FC (omega arith))
          ∙ high_clear x 0x00FC s (omega arith))

  change_flags-Confined :
      (k : FcwOpKind) (mask : ℕ)
      → (has_mask k ≡ true → mask < 256)
      → Keeps (Confined a) (change_flags k mask)
  unfolding change_flags
  change_flags-Confined set_flags mask low =
      set_fcw-Keeps a fits (λ f. bit_or f mask) (λ x _. high_or x mask (low refl))
  change_flags-Confined clear_flags mask low =
      set_fcw-Keeps a fits (λ f. bit_and f (complement 32 mask))
        (λ x s. high_clear x mask s (low refl))
  change_flags-Confined toggle_flags mask low =
      set_fcw-Keeps a fits (λ f. bit_xor f mask) (λ x _. high_xor x mask (low refl))
  change_flags-Confined load_lo mask low =
      let stable = Confined-Stable a fits in search (stack_Keeps, load_flags)
  change_flags-Confined store_lo mask low =
      let stable = Confined-Stable a fits in search stack_Keeps

  narrow :
      (w : CtrlWord)
      → w.fcw_mask < 65536
      → (is_toggle w.fcw_op ≡ true → w.fcw_mask < 256)
      → (sets_or_clears w.fcw_op && has w.fcw_mask (complement 32 0x00FC)) ≡ false
      → (k : FcwOpKind) → w.fcw_op ≡ k
      → has_mask k ≡ true
      → w.fcw_mask < 256
  narrow w wide low e set_flags q h =
      unprivileged-low w.fcw_mask wide
        (subst (λ k. (sets_or_clears k && has w.fcw_mask (complement 32 0x00FC)) ≡ false) q e)
  narrow w wide low e clear_flags q h =
      unprivileged-low w.fcw_mask wide
        (subst (λ k. (sets_or_clears k && has w.fcw_mask (complement 32 0x00FC)) ≡ false) q e)
  narrow w wide low e toggle_flags q h = low (ap is_toggle q)
  narrow w wide low e load_lo q h = absurd (true≢false (sym h))
  narrow w wide low e store_lo q h = absurd (true≢false (sym h))

module _ (a : Machine) (fits : a.cpu.fcw < 65536) (normal : sys_mode a.cpu ≡ false) where
  privileged-Confined : (x : Run) → Keeps (Confined a) (privileged x)
  unfolding privileged
  privileged-Confined x = record {
    at = λ m h.
        let off : sys_mode m.cpu ≡ false = mode-sys_mode a.cpu m.cpu h.control ∙ normal in
        if_cases (λ (r : Unit {0} × Machine). Confined a r.1) (sys_mode m.cpu)
          (λ on. absurd (true≢false (sym on ∙ off)))
          (λ _. with_cpu a m _ (plain a fits m.cpu _ refl refl refl refl refl refl h.control) h);
  }

  exec_fcw_op-Confined :
      (w : CtrlWord)
      → w.fcw_mask < 65536
      → (is_toggle w.fcw_op ≡ true → w.fcw_mask < 256)
      → Keeps (Confined a) (exec_fcw_op w)
  unfolding exec_fcw_op
  exec_fcw_op-Confined w wide low =
      if_cases (λ (x : Run). Keeps (Confined a) x)
        (sets_or_clears w.fcw_op && has w.fcw_mask (complement 32 0x00FC))
        (λ _. privileged-Confined (change_flags w.fcw_op w.fcw_mask))
        (λ e.
          change_flags-Confined a fits w.fcw_op w.fcw_mask
            (narrow a fits w wide low e w.fcw_op refl))

  guarded :
      (w : CtrlWord)
      → w.fcw_mask < 65536
      → (is_toggle w.fcw_op ≡ true → w.fcw_mask < 256)
      → Guarded (Confined a) w
  unfolding exec_io exec_ldctl exec_block_io exec_ldps exec_iret
  guarded w wide low = record {
    fcw_op = exec_fcw_op-Confined w wide low;
    io = privileged-Confined _;
    ldctl = privileged-Confined _;
    block_io = privileged-Confined _;
    multi_proc = privileged-Confined _;
    ldps = privileged-Confined _;
    halt = privileged-Confined _;
    iret = privileged-Confined _;
  }

-- Every word of the decoder keeps a program in normal mode confined.
pub decoded-Keeps :
    (a : Machine)
    → a.cpu.fcw < 65536
    → sys_mode a.cpu ≡ false
    → (op : ℕ) (v : ℕ → ℕ) (n : ℕ) (w : CtrlWord) → decode_lookup op v n ≡ some w
    → Keeps (Confined a) (execute w)
decoded-Keeps a fits normal op v n w e =
    let (wide, low) = decode_lookup-mask op v n w e in
    execute-Keeps (Confined-Stable a fits) w (guarded a fits normal w (omega arith) low)
