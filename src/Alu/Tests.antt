-- ===== src/Alu/Tests.antt =====
-- Runs of the ALU, and its theorems at concrete inputs.
use commodore_900_emulator.Base.{◌≡◌, refl, false}
use commodore_900_emulator.Alu.Defs.{byte}
use commodore_900_emulator.Alu.Carry.{carry_chain, do_add, do_sub}
use commodore_900_emulator.Alu.Sum.{IsSum, do_add-IsSum}
use commodore_900_emulator.Alu.Difference.{IsDifference, do_sub-IsDifference}

-- 0x7F + 1 as bytes: S, PV and H.
add_overflows : do_add 0x7F 1 false byte ≡ record { value = 0x80; flags = 0x34; mask = 0xFC }
unfolding do_add carry_chain
add_overflows = refl

do_add-IsSum_example : IsSum 7 0x7F 1 false 0x80 0x34
unfolding do_add carry_chain
do_add-IsSum_example = do_add-IsSum 0x7F 1 false byte

do_sub-IsDifference_example :
    IsDifference 7 1 2 false (do_sub 1 2 false byte).value (do_sub 1 2 false byte).flags
do_sub-IsDifference_example = do_sub-IsDifference 1 2 false byte
