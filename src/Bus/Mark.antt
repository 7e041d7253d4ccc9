-- ===== src/Bus/Mark.antt =====
-- `mark_advance` of src/bus.c: one character of the search for a mark in the output of a port. A mark is
-- the characters of a C string with its terminator: what lies after that is not the mark's, and the code
-- reads it only if a zero is printed right after a whole mark.
use commodore_900_emulator.Base.{ℕ, zero, suc, ◌+◌, ◌-◌, Bool, true, ◌&&◌, ◌==◌, if◌then◌else◌}

-- `memcmp(mark, mark + d, k) == 0`
unfoldable pub memeq : (ℕ → ℕ) → ℕ → ℕ → Bool
memeq mark d zero = true
memeq mark d (suc k) = memeq mark d k && (mark k == mark (d + k))

-- `while (k > 0 && memcmp(mark, mark + pos - k, k) != 0) k--;`
unfoldable pub fall_back : (ℕ → ℕ) → ℕ → ℕ → ℕ
unfolding memeq
fall_back mark pos zero = zero
fall_back mark pos (suc k) =
    let rest = fall_back mark pos k in if memeq mark (pos - suc k) (suc k) then suc k else rest

-- The rounds of `for (;;)`, at most `fuel` of them.
unfoldable pub advance_from : ℕ → (ℕ → ℕ) → ℕ → ℕ → ℕ
unfolding fall_back
advance_from zero mark pos v = zero
advance_from (suc fuel) mark pos v =
    let rest = advance_from fuel mark (fall_back mark pos (pos - 1)) v in
    if mark pos == v then pos + 1 else if pos == 0 then 0 else rest

-- `pos` falls in each round but the last, so `pos + 1` rounds are enough.
unfoldable pub mark_advance : (ℕ → ℕ) → ℕ → ℕ → ℕ
unfolding advance_from
mark_advance mark pos v = advance_from (pos + 1) mark pos v

-- How much of the mark has matched after the first `n` characters of `out`.
unfoldable pub position : (ℕ → ℕ) → (ℕ → ℕ) → ℕ → ℕ
unfolding mark_advance
position mark out zero = 0
position mark out (suc n) = mark_advance mark (position mark out n) (out n)
