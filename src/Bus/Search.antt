-- ===== src/Bus/Search.antt =====
-- What `mark_advance` finds: after each character, the longest beginning of the mark that the
-- output ends with.
use commodore_900_emulator.Base.{
  ℕ, zero, suc, ◌+◌, ◌-◌, ◌≤◌, ◌<◌, ◌≡◌, ◌≢◌, refl, sym, ◌∙◌, ap, arith, Bool, true, false, ◌==◌,
  if◌then◌else◌, dec_lt, ==_iff, subst, ◌↔◌,
}
use mathlib.Core.Bool.{true≢false}
use commodore_900_emulator.Bus.Mark.{fall_back, advance_from, mark_advance, position}
use commodore_900_emulator.Bus.Border.{IsBorder, fall_back-IsLongestBorder}

-- The last `j` of the first `n` characters of `out` are the first `j` of the mark.
pub record IsTail (mark out : ℕ → ℕ) (n j : ℕ) : Type 0 where
  pub within : j ≤ n
  pub equal : (i : ℕ) → i < j → mark i ≡ out (n - j + i)

-- No longer beginning of the mark ends the first `n` characters.
pub record IsLongest (mark out : ℕ → ℕ) (n j : ℕ) : Type 0 where
  pub tail : IsTail mark out n j
  pub most : (k : ℕ) → IsTail mark out n k → k ≤ j

border-IsTail :
    (mark out : ℕ → ℕ) (n pos k : ℕ)
    → IsTail mark out n pos
    → IsBorder mark pos k
    → IsTail mark out n k
border-IsTail mark out n pos k t b = record {
  within = omega (arith, t.within, b.within);
  equal = λ i lt.
      b.equal i lt
      ∙ t.equal (pos - k + i) (omega (arith, b.within))
      ∙ ap out (omega (arith, t.within, b.within));
}

tail-IsBorder :
    (mark out : ℕ → ℕ) (n pos k : ℕ)
    → k ≤ pos
    → IsTail mark out n pos
    → IsTail mark out (suc n) (suc k)
    → IsBorder mark pos k
tail-IsBorder mark out n pos k le t u = record {
  within = le;
  equal = λ i lt.
      u.equal i (omega arith)
      ∙ sym (t.equal (pos - k + i) (omega arith) ∙ ap out (omega (arith, t.within)));
}

extend-IsTail :
    (mark out : ℕ → ℕ) (n pos : ℕ)
    → IsTail mark out n pos
    → mark pos ≡ out n
    → IsTail mark out (suc n) (pos + 1)
extend-IsTail mark out n pos t e = record {
  within = omega (arith, t.within);
  equal = λ i lt. elim (dec_lt i pos) [
    | yes before ↦ t.equal i before ∙ ap out (omega (arith, t.within))
    | no after ↦ ap mark (omega arith) ∙ e ∙ ap out (omega (arith, t.within))
  ];
}

last_char : (mark out : ℕ → ℕ) (n k : ℕ) → IsTail mark out (suc n) (suc k) → mark k ≡ out n
last_char mark out n k t = t.equal k (omega arith) ∙ ap out (omega (arith, t.within))

-- A tail after a mismatch at `pos` is no longer than the fall-back allows.
shorter :
    (mark out : ℕ → ℕ) (n pos j : ℕ)
    → IsTail mark out n pos
    → mark pos ≢ out n
    → IsTail mark out (suc n) j
    → j ≤ pos + 1
    → j ≤ fall_back mark pos (pos - 1) + 1
shorter mark out n pos zero t ne u le = omega arith
shorter mark out n pos (suc k) t ne u le = elim (dec_lt k pos) [
  | yes lt ↦
      let longest = fall_back-IsLongestBorder mark pos (pos - 1) (omega arith) in
      omega (arith, longest.most k (omega arith) (tail-IsBorder mark out n pos k (omega arith) t u))
  | no high ↦ absurd (ne (ap mark (omega arith) ∙ last_char mark out n k u))
]

ne_of : {x y : ℕ} → (x == y) ≡ false → x ≢ y
ne_of {x} {y} e eq = true≢false (sym ((==_iff x y).1 eq) ∙ e)

step_IsLongest :
    (mark out : ℕ → ℕ) (n pos rest : ℕ) (b z : Bool)
    → (mark pos == out n) ≡ b
    → (pos == 0) ≡ z
    → IsTail mark out n pos
    → ((k : ℕ) → IsTail mark out (suc n) k → k ≤ pos + 1)
    → (mark pos ≢ out n → pos ≢ 0 → IsLongest mark out (suc n) rest)
    → IsLongest mark out (suc n) (if b then pos + 1 else if z then 0 else rest)
step_IsLongest mark out n pos rest true z e f t most next = record {
  tail = extend-IsTail mark out n pos t ((==_iff (mark pos) (out n)).0 e);
  most = most;
}
step_IsLongest mark out n pos rest false true e f t most next = record {
  tail = record { within = omega arith; equal = λ i lt. absurd (omega arith) };
  most = λ k u. elim (dec_lt 0 k) [
    | yes some ↦
        let le = most k u in
        let zero_pos = (==_iff pos 0).0 f in
        absurd (
          ne_of e (
            ap mark (omega arith)
            ∙ last_char mark out n (k - 1) (record {
              within = omega (arith, u.within);
              equal = λ i lt. u.equal i (omega arith) ∙ ap out (omega arith);
            })))
    | no none ↦ omega arith
  ];
}
step_IsLongest mark out n pos rest false false e f t most next = next (ne_of e) (ne_of f)

advance_from-IsLongest :
    (fuel : ℕ) (mark out : ℕ → ℕ) (n pos : ℕ)
    → pos < fuel
    → IsTail mark out n pos
    → ((k : ℕ) → IsTail mark out (suc n) k → k ≤ pos + 1)
    → IsLongest mark out (suc n) (advance_from fuel mark pos (out n))
unfolding advance_from
advance_from-IsLongest zero mark out n pos lt t most = absurd (omega arith)
advance_from-IsLongest (suc fuel) mark out n pos lt t most =
    let longest = fall_back-IsLongestBorder mark pos (pos - 1) in
    let k = fall_back mark pos (pos - 1) in
    step_IsLongest mark out n pos _ (mark pos == out n) (pos == 0) refl refl t most (λ ne some.
      advance_from-IsLongest fuel mark out n k (omega (arith, (longest (omega arith)).below))
        (border-IsTail mark out n pos k t (longest (omega arith)).border)
        (λ j u. shorter mark out n pos j t ne u (most j u)))

pub mark_advance-IsLongest :
    (mark out : ℕ → ℕ) (n pos : ℕ)
    → IsLongest mark out n pos
    → IsLongest mark out (suc n) (mark_advance mark pos (out n))
unfolding mark_advance
mark_advance-IsLongest mark out n pos l =
    advance_from-IsLongest (pos + 1) mark out n pos (omega arith) l.tail limit
  where
    shrink : (k : ℕ) → IsTail mark out (suc n) (suc k) → IsTail mark out n k
    shrink k t = record {
      within = omega (arith, t.within);
      equal = λ i lt. t.equal i (omega arith) ∙ ap out (omega arith);
    }

    limit : (k : ℕ) → IsTail mark out (suc n) k → k ≤ pos + 1
    limit zero t = omega arith
    limit (suc k) t = omega (arith, l.most k (shrink k t))

-- The invariant of the search, for a mark that is read as far as need be.
unbounded-IsLongest : (mark out : ℕ → ℕ) (n : ℕ) → IsLongest mark out n (position mark out n)
unfolding position
unbounded-IsLongest mark out zero = record {
  tail = record { within = omega arith; equal = λ i lt. absurd (omega arith) };
  most = λ k t. t.within;
}
unbounded-IsLongest mark out (suc n) =
    mark_advance-IsLongest mark out n (position mark out n) (unbounded-IsLongest mark out n)

-- A mark of `len` characters without a zero, ended by a zero.
pub record IsText (mark : ℕ → ℕ) (len : ℕ) : Type 0 where
  pub ends : mark len ≡ 0
  pub chars : (i : ℕ) → i < len → mark i ≢ 0

position_short :
    (mark out : ℕ → ℕ) (n len : ℕ)
    → mark len ≡ 0
    → ((i : ℕ) → i < n → out i ≢ 0)
    → position mark out n ≤ len
position_short mark out n len ends chars = elim (dec_lt len (position mark out n)) [
  | yes lt ↦
      let l = unbounded-IsLongest mark out n in
      absurd (
        chars (n - position mark out n + len) (omega (arith, l.tail.within))
          (sym (l.tail.equal len lt) ∙ ends))
  | no high ↦ omega arith
]

-- For a mark of `len` characters without a zero, ended by a zero, and after an output without a zero, the
-- matched length is the longest beginning of the mark that the output ends with, and the watch has not
-- gone past the terminator of the mark.
pub position-IsLongest :
    (mark out : ℕ → ℕ) (n len : ℕ)
    → IsText mark len
    → ((i : ℕ) → i < n → out i ≢ 0)
    → IsLongest mark out n (position mark out n) × (position mark out n ≤ len)
position-IsLongest mark out n len text chars =
    (unbounded-IsLongest mark out n, position_short mark out n len text.ends chars)

-- For a mark of `len` characters without a zero, ended by a zero, and an output without a zero,
-- the watch stands at the terminator exactly when the output ends with the whole mark.
pub position-finds :
    (mark out : ℕ → ℕ) (n len : ℕ)
    → mark len ≡ 0
    → ((i : ℕ) → i < len → mark i ≢ 0)
    → ((i : ℕ) → i < n → out i ≢ 0)
    → (mark (position mark out n) ≡ 0) ↔ IsTail mark out n len
position-finds mark out n len ends text chars =
    let l = unbounded-IsLongest mark out n in
    let p = position mark out n in
    (
      λ found. subst (λ j. IsTail mark out n j) (end_of found) l.tail,
      λ t. ap mark (both (l.most len t)) ∙ ends,
    )
  where
    short : position mark out n ≤ len
    short = position_short mark out n len ends chars

    both : len ≤ position mark out n → position mark out n ≡ len
    both le = omega (arith, short)

    end_of : mark (position mark out n) ≡ 0 → position mark out n ≡ len
    end_of found = elim (dec_lt (position mark out n) len) [
      | yes lt ↦ absurd (text (position mark out n) lt found)
      | no high ↦ omega (arith, short)
    ]
