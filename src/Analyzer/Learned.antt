-- ===== src/Analyzer/Learned.antt =====
-- The result of the resolution loop
-- (source/library/src/kmx/sat/cdcl/conflict_analyzer.cpp).
use kmx_sat.Base.{
  ℕ, zero, suc, ◌-◌, ◌<◌, ◌≡◌, subst, ◌⊎◌, inl, inr, false, Option, some, List, arith, ◌==◌,
  Bool-cases, Option-cases, length, Entry,
}
use kmx_sat.Literal.{Variable, Literal, variable_of}
use kmx_sat.Literal.Meaning.{Assignment}
use kmx_sat.Analyzer.{Marks, is_pivot, mark_literals, find_pivot, resolve_loop}
use kmx_sat.Analyzer.Marking.{Falsified, open_count, Distinct}
use kmx_sat.Analyzer.Invariant.{Marked, mark_literals-Marked}
use kmx_sat.Analyzer.Search.{Justified, Justified-Distinct, Walked, find_pivot-Walked}
use kmx_sat.Analyzer.Live.{
  Pivot, Derived, Live, Fit, RootTrue, Fit-Live, Live-grows, Live-closed, taken_off, Marked-taken,
  Live-last, Live-step, off_pivot, derived-tail,
}

module _ (level_of : Variable → ℕ) (current_level : ℕ) (reason_of : Variable → List Literal)
    (m : Assignment) (trail : List Literal) where
  pub resolve_loop-Derived :
      (turns : ℕ) (pivot : Option Literal) (literals cursor : List Literal) (marks : Marks)
      → length cursor < turns
      → 0 < current_level
      → RootTrue level_of current_level reason_of m trail
      → Distinct trail
      → Justified level_of current_level reason_of m cursor
      → ((t : Literal) → Entry t cursor → Entry t trail)
      → ((c : Literal) → Entry c literals → is_pivot pivot c ≡ false → Falsified cursor c)
      → Pivot level_of current_level reason_of m trail pivot
      → Marked level_of current_level trail cursor marks
      → Live level_of current_level reason_of m trail cursor marks
        ⊎ Fit level_of current_level reason_of m trail pivot cursor literals
      → Derived level_of current_level reason_of m trail
          (resolve_loop level_of current_level reason_of turns pivot literals cursor marks)
  unfolding resolve_loop
  resolve_loop-Derived zero pivot literals cursor marks enough positive root distinct just sub off
        good inv state =
      absurd (omega arith)
  resolve_loop-Derived (suc turns) pivot literals cursor marks enough positive root distinct just
        sub off good inv state =
      let marked = mark_literals level_of current_level pivot marks literals in
      let inv' =
        mark_literals-Marked level_of current_level pivot literals marks positive distinct
          (Justified-Distinct level_of current_level reason_of m cursor just) sub off inv in
      let live : Live level_of current_level reason_of m trail cursor marked = elim state [
        | inl old ↦ Live-grows level_of current_level reason_of m trail pivot literals marks old
        | inr fit ↦
            Fit-Live level_of current_level reason_of m trail pivot literals marks root sub off inv'
              fit
      ] in
      let walk = find_pivot-Walked level_of current_level reason_of m marked.seen cursor just in
      elim (Bool-cases (marked.unresolved == 0)) [
        | inl closed ↦
            let none_open : open_count level_of current_level marked.seen cursor ≡ 0 =
              ground (arith, inv'.count) in
            rw (closed, resolve_loop)
              (record {
                holds =
                    derived-tail level_of current_level reason_of m trail pivot marked
                      (Live-closed level_of current_level reason_of m trail marked none_open live);
                pivot = good;
                tail_low = inv'.tail_low;
                tail_falsified = inv'.tail_falsified;
              })
        | inr opened ↦ elim (Option-cases (find_pivot level_of current_level marked.seen cursor)) [
          | inl e ↦
              let none_open =
                subst (Walked level_of current_level reason_of m marked.seen cursor) e walk in
              rw (opened, e, resolve_loop)
                (record {
                  holds =
                      Live-closed level_of current_level reason_of m trail marked none_open live;
                  pivot = tt;
                  tail_low = inv'.tail_low;
                  tail_falsified = inv'.tail_falsified;
                })
          | inr ((p, rest), e) ↦
              let found =
                subst (Walked level_of current_level reason_of m marked.seen cursor) e walk in
              let next = Marked-taken level_of current_level reason_of m trail marked found inv' in
              let on : Entry p trail = sub p found.on in
              elim (Bool-cases (marked.unresolved - 1 == 0)) [
                | inl last ↦
                    let none_open : open_count level_of current_level marked.seen rest ≡ 0 =
                      ground (arith, next.count) in
                    rw (opened, e, last, resolve_loop)
                      (record {
                        holds =
                            Live-last level_of current_level reason_of m trail marked found
                              none_open live;
                        pivot = (on, found.level);
                        tail_low = inv'.tail_low;
                        tail_falsified = inv'.tail_falsified;
                      })
                | inr more ↦
                    let some_open : 0 < open_count level_of current_level marked.seen rest =
                      ground (arith, next.count) in
                    rw (opened, e, more, resolve_loop)
                      (resolve_loop-Derived turns (some p) (reason_of (variable_of p)) rest
                        (taken_off level_of current_level reason_of m trail marked)
                        (omega (arith, found.shorter, enough)) positive root distinct
                        found.justified (λ t h. sub t (found.later t h))
                        (off_pivot level_of current_level reason_of m trail p found.step)
                        (on, found.level) next
                        (Live-step level_of current_level reason_of m trail marked found some_open
                          live))
              ]
        ]
      ]
