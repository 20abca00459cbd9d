-- ===== src/Restart/Luby.antt =====
-- `luby_multiplier` against the Luby sequence, built block by block
-- (source/library/src/kmx/sat/cdcl/controller/restart.cpp).
use kmx_sat.Base.{
  ℕ, zero, suc, ◌+◌, ◌-◌, ◌*◌, ◌/◌, ◌%◌, ◌^◌, ◌≤◌, ◌<◌, ◌≡◌, refl, ap, sym, subst, ◌∙◌, inl, inr,
  false, not, ◌&&◌, arith, ltb, ◌==◌, Bool-cases, length, get_or,
}
use native.Mathlib.Nat.{pow-le-pow_right, mod-lt, mod-eq_of_lt, mod-eq-sub-mod}
use native.Mathlib.Numerals.{unary_clauses}
use kmx_sat.Restart.{word, grow, shrink, luby_multiplier}
use kmx_sat.Restart.Sequence.{
  luby_sequence, size_of, length-luby_sequence, size_of-pos, luby_first, luby_second, luby_last,
}

-- A step of the second loop, away from the end of a block.
shrink_step :
    (steps i k : ℕ)
    → (2 * size_of k == i) ≡ false
    → shrink (suc steps) i (size_of (suc k)) (suc k) ≡ shrink steps (i % size_of k) (size_of k) k
unfolding shrink size_of
shrink_step steps i k h =
    let half : (2 * size_of k + 1 - 1) / 2 ≡ size_of k = omega arith in
    let pred : 2 * size_of k + 1 - 1 ≡ 2 * size_of k = omega arith in
    let level : suc k - 1 ≡ k = omega arith in
    let pos = size_of-pos k in rw (half, pred, level, h) (ground arith)

shrink_end :
    (steps k : ℕ) → shrink (suc steps) (2 * size_of k) (size_of (suc k)) (suc k) ≡ 2 ^ suc k
unfolding shrink size_of
shrink_end steps k = ground arith

-- The second loop, on an index inside a block, reads the block.
shrink-reads :
    (k steps i : ℕ)
    → k ≤ steps
    → i < size_of k
    → shrink steps i (size_of k) k ≡ get_or (luby_sequence k) i 0
unfolding shrink size_of luby_sequence
shrink-reads zero zero zero enough inside = refl
shrink-reads zero (suc steps) zero enough inside = ground arith
shrink-reads zero steps (suc i) enough inside = absurd (omega arith)
shrink-reads (suc k) zero i enough inside = absurd (omega arith)
shrink-reads (suc k) (suc steps) i enough inside = elim (Bool-cases (2 * size_of k == i)) [
  | inl last ↦
      let at : 2 * size_of k ≡ i = ground arith in
      subst
        (λ j. shrink (suc steps) j (size_of (suc k)) (suc k) ≡ get_or (luby_sequence (suc k)) j 0)
        at (shrink_end steps k ∙ sym (luby_last k))
  | inr before ↦
      let near : i < 2 * size_of k = ground arith in
      shrink_step steps i k before
      ∙ shrink-reads k steps (i % size_of k) (omega arith) (mod-lt i (size_of-pos k))
      ∙ elim (Bool-cases (ltb i (size_of k))) [
        | inl low ↦
            let small : i < size_of k = ground arith in
            ap (λ n. get_or (luby_sequence k) n 0) (mod-eq_of_lt small) ∙ sym (luby_first k i small)
        | inr high ↦
            let large : size_of k ≤ i = ground arith in
            let rest : i - size_of k < size_of k = omega arith in
            ap (λ n. get_or (luby_sequence k) n 0) (mod-eq-sub-mod large ∙ mod-eq_of_lt rest)
            ∙ sym (luby_second k i large near)
      ]
]

size_of_mono : (j steps : ℕ) → size_of j ≤ size_of (j + steps)
unfolding size_of
size_of_mono j zero = simp unary_clauses (omega arith)
size_of_mono j (suc steps) = simp unary_clauses (omega (arith, size_of_mono j steps))

size_of-le_24 : (j : ℕ) → j ≤ 24 → size_of j ≤ 33554431
unfolding size_of
size_of-le_24 j h =
    let e : j + (24 - j) ≡ 24 = omega arith in
    subst (λ n. size_of j ≤ size_of n) e (size_of_mono j (24 - j))

-- What the first loop reaches: the size of a block, which holds the index where one up to the
-- last does.
record Reached (index start steps : ℕ) (r : ℕ × ℕ) : Type 0 where
  block : ℕ
  result : r ≡ (size_of block, block)
  bounded : block ≤ start + steps
  holds : index < size_of (start + steps) → index < size_of block

grow-Reached :
    (steps index start : ℕ)
    → start + steps ≤ 24
    → index + 1 < 2 ^ 64
    → Reached index start steps (grow steps index (size_of start) start)
unfolding grow size_of
grow-Reached zero index start limit fits = record {
  block = start;
  result = refl;
  bounded = omega arith;
  holds = λ h. simp unary_clauses at h;
}
grow-Reached (suc steps) index start limit fits =
    let unwrapped : word (index + 1) ≡ index + 1 = mod-eq_of_lt fits in
    let bound = size_of-le_24 start (omega arith) in
    let doubled : word (2 * size_of start + 1) ≡ 2 * size_of start + 1 =
      mod-eq_of_lt (omega (arith, bound)) in
    elim (Bool-cases (ltb (size_of start) (index + 1))) [
      | inl on ↦
          let next = grow-Reached steps index (suc start) (omega arith) fits in
          let one_more : start + 1 ≡ suc start = omega arith in
          let shifted : suc start + steps ≡ start + suc steps = omega arith in
          rw (unwrapped, on, doubled, one_more)
            (record {
              block = next.block;
              result = next.result;
              bounded = omega (arith, next.bounded);
              holds = λ h. next.holds (subst (λ n. index < size_of n) (sym shifted) h);
            })
      | inr done ↦
          rw (unwrapped, done)
            (record {
              block = start;
              result = refl;
              bounded = omega arith;
              holds = λ h. (ground arith);
            })
    ]

luby_prefix :
    (k steps i : ℕ)
    → i < size_of k
    → get_or (luby_sequence (k + steps)) i 0 ≡ get_or (luby_sequence k) i 0
luby_prefix k zero i h = simp unary_clauses refl
luby_prefix k (suc steps) i h =
    let inside : i < size_of (k + steps) = omega (arith, size_of_mono k steps) in
    let step : k + suc steps ≡ suc (k + steps) = omega arith in
    ap (λ n. get_or (luby_sequence n) i 0) step
    ∙ luby_first (k + steps) i inside
    ∙ luby_prefix k steps i h

luby_in_24 :
    (k i : ℕ)
    → k ≤ 24
    → i < size_of k
    → get_or (luby_sequence 24) i 0 ≡ get_or (luby_sequence k) i 0
luby_in_24 k i limit h =
    let whole : k + (24 - k) ≡ 24 = omega arith in
    ap (λ n. get_or (luby_sequence n) i 0) (sym whole) ∙ luby_prefix k (24 - k) i h

-- For each block up to 2 ^ 24, the code's multiplier at an index inside the block is the entry of
-- the Luby sequence there.
pub luby_multiplier-reads :
    (k index : ℕ)
    → k ≤ 24
    → index < length (luby_sequence k)
    → luby_multiplier index ≡ get_or (luby_sequence k) index 0
unfolding luby_multiplier size_of
luby_multiplier-reads k index limit inside =
    let within : index < size_of k = omega (arith, length-luby_sequence k) in
    let small = size_of-le_24 k limit in
    let grown = grow-Reached 24 index 0 (omega arith) (omega (arith, small)) in
    let whole : k + (24 - k) ≡ 24 = omega arith in
    let top : index < size_of 24 =
      subst (λ n. index < size_of n) whole (omega (arith, size_of_mono k (24 - k))) in
    let held = grown.holds top in
    ap (λ r. shrink 24 index r.0 r.1) grown.result
    ∙ shrink-reads grown.block 24 index grown.bounded held
    ∙ sym (luby_in_24 grown.block index grown.bounded held)
    ∙ luby_in_24 k index limit within

shrink-le : (steps index size sequence : ℕ) → shrink steps index size sequence ≤ 2 ^ sequence
unfolding shrink
shrink-le zero index size sequence = omega arith
shrink-le (suc steps) index size sequence =
    let rest = shrink-le steps (index % ((size - 1) / 2)) ((size - 1) / 2) (sequence - 1) in
    let lower : 2 ^ (sequence - 1) ≤ 2 ^ sequence = pow-le-pow_right (omega arith) (omega arith) in
    elim (Bool-cases (not (size - 1 == index) && ltb 1 size)) [
      | inl on ↦ rw on (omega (arith, rest, lower))
      | inr done ↦ rw done (omega arith)
    ]

grow-le : (steps index size sequence : ℕ) → (grow steps index size sequence).1 ≤ sequence + steps
unfolding grow
grow-le zero index size sequence = omega arith
grow-le (suc steps) index size sequence =
    let rest = grow-le steps index (word (2 * size + 1)) (sequence + 1) in
    elim (Bool-cases (ltb size (word (index + 1)))) [
      | inl on ↦ rw on (omega (arith, rest))
      | inr done ↦ rw done (omega arith)
    ]

-- The multiplier is at most 2 ^ 24, at every index.
pub luby_multiplier-le : (index : ℕ) → luby_multiplier index ≤ 2 ^ 24
unfolding luby_multiplier
luby_multiplier-le index =
    let grown = grow 24 index 1 0 in
    let below = shrink-le 24 index grown.0 grown.1 in
    let power : 2 ^ grown.1 ≤ 2 ^ 24 = pow-le-pow_right (omega arith) (grow-le 24 index 1 0) in
    omega (arith, below, power)
