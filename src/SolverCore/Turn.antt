-- ===== src/SolverCore/Turn.antt =====
-- One turn of the propagation loop (source/library/src/kmx/sat/cdcl/solver_core.cpp, `propagate`).
use kmx_sat.Base.{ℕ, ◌+◌, sym, subst, Option, none, some, List, [], ◌∷◌, ◌++◌, put}
use kmx_sat.Literal.{Literal, negated}
use kmx_sat.Literal.Encoding.{negated-negated}
use kmx_sat.SolverCore.{Watch, SolverCore, propagate_literal}
use kmx_sat.SolverCore.Visiting.{AllFalse}
use kmx_sat.SolverCore.Scan.{
  Scanned, scan_watches-Scanned, IsPropagating, start_scan, finish_scan, stop_scan,
}

-- One turn: the literal is propagated, or a clause is falsified.
abbrev pub Turn :
    {H : Type 0}
    → (ℕ → List Literal)
    → List Literal
    → List Literal
    → Literal
    → SolverCore H × Option ℕ
    → Type 0
Turn original done tail lit (t, none) =
    (more : List Literal) × IsPropagating original (done ++ lit ∷ []) (tail ++ more) t
Turn original done tail lit (t, some ref) =
    (more : List Literal) × IsPropagating original done (lit ∷ tail ++ more) t × AllFalse t ref

Turn-of_Scanned :
    {H : Type 0} (original : ℕ → List Literal) (done tail : List Literal) (k : Literal)
    (r : (SolverCore H × List Watch) × Option ℕ)
    → Scanned original done tail k r
    → Turn original done tail
        (negated k)
        (record r.0.0 { watches = put r.0.0.watches k.raw r.0.1 }, r.1)
Turn-of_Scanned original done tail k ((t, ws), none) (more, h) = (more, finish_scan k ws t h)
Turn-of_Scanned original done tail k ((t, ws), some ref) (more, read, rest, e, h, f) = (
  more,
  subst
      (λ (x : List Watch).
        IsPropagating original done (negated k ∷ tail ++ more)
          (record t { watches = put t.watches k.raw x }))
      (sym e) (stop_scan k read rest t h),
  f,
)

pub propagate_literal-Turn :
    {H : Type 0} (original : ℕ → List Literal) (done tail : List Literal) (lit : Literal)
    (s : SolverCore H)
    → IsPropagating original done (lit ∷ tail) s
    → Turn original done tail lit (propagate_literal s lit)
unfolding propagate_literal
propagate_literal-Turn {H} original done tail lit s h =
    let k = negated lit in
    let twice = negated-negated lit in
    let ready : SolverCore H = record s {
      propagated = s.propagated + 1;
      iterate_count = s.iterate_count + 1;
    } in
    let ready_ok : IsPropagating original done (lit ∷ tail) ready = record {
      trail = IsPropagating.trail h;
      watched = IsPropagating.watched h;
      settled = IsPropagating.settled h;
      reasoned = IsPropagating.reasoned h;
      within = IsPropagating.within h;
    } in
    let started = start_scan k ready (
      subst (λ (x : Literal). IsPropagating original done (x ∷ tail) ready) (sym twice) ready_ok) in
    subst (λ (x : Literal). Turn original done tail x (propagate_literal s lit)) twice
      (Turn-of_Scanned original done tail k _
        (scan_watches-Scanned k tail [] (s.watches k.raw) ready started))
