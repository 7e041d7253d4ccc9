-- ===== src/Decode/Length.antt =====
-- `decode_length_compute`, `seg_addr_w1` and `seg_addr_w2` of src/decode.c.
use commodore_900_emulator.Base.{ℕ, ◌+◌, Bool, not, ◌&&◌, ◌||◌, ◌==◌, leb, if◌then◌else◌, has, shr}
use commodore_900_emulator.Cpu.{nib2, nib3}

abbrev between : ℕ → ℕ → ℕ → Bool
between lo hi x = leb lo x && leb x hi

abbrev is_159 : ℕ → Bool
is_159 l = (l == 0x01) || (l == 0x05) || (l == 0x09)

abbrev is_ldm : ℕ → Bool
is_ldm l = (l == 0x01) || (l == 0x09)

-- The words of an instruction of the high byte `hi`, whose lower nibbles are `n2` and `l`, where an
-- address takes `aw` words.
unfoldable pub length_of : ℕ → ℕ → ℕ → ℕ → ℕ
length_of hi n2 l aw =
    if leb hi 0x0B
    then (if n2 == 0 then 2 else 1)
    else if leb hi 0x0D
    then (if is_159 l then 2 else 1)
    else if leb hi 0x0F
    then 1
    else if leb hi 0x17
    then (if (n2 == 0) && ((hi == 0x10) || (hi == 0x12) || (hi == 0x14) || (hi == 0x16))
        then 3
        else 1)
    else if hi == 0x18
    then (if n2 == 0 then 3 else 1)
    else if hi == 0x19
    then (if n2 == 0 then 2 else 1)
    else if hi == 0x1A
    then (if n2 == 0 then 3 else 1)
    else if hi == 0x1B
    then (if n2 == 0 then 2 else 1)
    else if hi == 0x1C
    then (if is_ldm l then 2 else 1)
    else if between 0x1D 0x1F hi
    then 1
    else if between 0x20 0x27 hi
    then (if n2 == 0 then 2 else 1)
    else if between 0x28 0x2F hi
    then 1
    else if between 0x30 0x37 hi
    then 2
    else if between 0x38 0x39 hi
    then 1
    else if between 0x3A 0x3B hi
    then 2
    else if between 0x3C 0x3F hi
    then 1
    else if between 0x40 0x6F hi
    then (if ((hi == 0x4C) || (hi == 0x4D)) && is_159 l
        then 1 + aw + 1
        else if (hi == 0x5C) && is_ldm l
        then 1 + aw + 1
        else 1 + aw)
    else if between 0x70 0x77 hi
    then 1 + aw
    else if hi == 0x79
    then 1 + aw
    else if between 0x8E 0x8F hi
    then 2
    else if between 0xB0 0xBF hi
    then (if ((hi == 0xB2) || (hi == 0xB3)) && has l 1
        then 2
        else if (hi == 0xB8) || (hi == 0xBA) || (hi == 0xBB)
        then 2
        else 1)
    else 1

unfoldable pub decode_length : ℕ → Bool → ℕ
decode_length op segmented = length_of (shr op 8) (nib2 op) (nib3 op) (if segmented then 2 else 1)

unfoldable pub seg_addr_w1 : ℕ → Bool → Bool
seg_addr_w1 op segmented =
    let hi = shr op 8 in
    segmented
    && not ((hi == 0x5C) && is_ldm (nib3 op))
    && (between 0x40 0x6F hi || between 0x70 0x77 hi || (hi == 0x79))

unfoldable pub seg_addr_w2 : ℕ → Bool → Bool
seg_addr_w2 op segmented = segmented && (shr op 8 == 0x5C) && is_ldm (nib3 op)
