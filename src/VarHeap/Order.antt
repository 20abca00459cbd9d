-- ===== src/VarHeap/Order.antt =====
-- What the candidates of the heap are ordered by (source/library/src/kmx/sat/cdcl/var_heap.cpp,
-- `ranks_below`), and that its top is the best.
use kmx_sat.Base.{ℕ, ◌<◌, ◌≡◌, Bool, true, false, not, ◌&&◌, arith}
use kmx_sat.Literal.{Variable}
use kmx_sat.VarHeap.{Scores, VarHeap, ranks_below, parent_of}
use kmx_sat.VarHeap.Placed.{is_held, Placed}

-- What the code relies on of `double`: no score is a NaN, so that `<` is a linear order.
pub record IsLinear {S : Type 0} (order : Scores S) : Type 0 where
  pub less_asym : (a b : S) → Scores.less order a b ≡ true → Scores.less order b a ≡ false
  pub less_split :
      (a b c : S)
      → Scores.less order a b ≡ false
      → Scores.less order b c ≡ false
      → Scores.less order a c ≡ false
  pub same_unless :
      (a b : S) → Scores.same order a b ≡ not (Scores.less order a b) && not (Scores.less order b a)

module _ {S : Type 0} (order : Scores S) (linear : IsLinear order) (scores : Variable → S) where
  pub ranks_below_asym :
      (a b : Variable) → ranks_below order scores a b ≡ true → ranks_below order scores b a ≡ false
  unfolding ranks_below
  ranks_below_asym a b h =
      let p = IsLinear.less_asym linear (scores a) (scores b) in
      let q = IsLinear.same_unless linear (scores a) (scores b) in
      let r = IsLinear.same_unless linear (scores b) (scores a) in ground arith

  pub ranks_below_split :
      (a b c : Variable)
      → ranks_below order scores a b ≡ false
      → ranks_below order scores b c ≡ false
      → ranks_below order scores a c ≡ false
  unfolding ranks_below
  ranks_below_split a b c h k =
      let p = IsLinear.less_split linear (scores a) (scores b) (scores c) in
      let q = IsLinear.less_split linear (scores b) (scores c) (scores a) in
      let r = IsLinear.less_split linear (scores c) (scores a) (scores b) in
      let u = IsLinear.same_unless linear (scores a) (scores b) in
      let v = IsLinear.same_unless linear (scores b) (scores c) in
      let w = IsLinear.same_unless linear (scores a) (scores c) in ground arith

-- Every entry but the first ranks at most as high as its parent.
abbrev pub Ordered : (Variable → Variable → Bool) → (ℕ → Variable) → ℕ → Type 0
Ordered below heap count = (k : ℕ) → 0 < k → k < count → below (heap (parent_of k)) (heap k) ≡ false

-- A heap `t` in order with the scores and the number of entries of `h`, of the variables `held`.
abbrev pub Sifted : {S : Type 0} → Scores S → VarHeap S → (Variable → Bool) → VarHeap S → Type 0
Sifted order h held t =
    Placed t.heap t.positions h.count
    × Ordered (ranks_below order h.scores) t.heap h.count
    × (t.count ≡ h.count)
    × (t.scores ≡ h.scores)
    × ((v : Variable) → is_held (t.positions v) ≡ held v)
