-- ===== src/SolverCore/Scan.antt =====
-- The pass over one watch list and one turn of the propagation loop
-- (source/library/src/kmx/sat/cdcl/solver_core.cpp, `propagate`).
use kmx_sat.Base.{
  ℕ, ◌+◌, ◌≡◌, refl, sym, ap, subst, ◌∙◌, inl, inr, Option, none, some, List, [], ◌∷◌, ◌++◌,
  append-nil, append_assoc, arith, ◌==◌, Bool-cases, put, Entry, here, there, Entry-inv,
  Entry-single, Entry-append, Entry-append_left, Entry-append_right,
}
use kmx_sat.Literal.{Literal, variable_of, negated}
use kmx_sat.Literal.Encoding.{negated-negated}
use kmx_sat.Analyzer.Marking.{Distinct, Fresh-Entry}
use kmx_sat.SolverCore.{Watch, SolverCore, kept, moved, conflicting, visit_watch, scan_watches}
use kmx_sat.SolverCore.Trail.{TrailView, IsTrail, view, put_self, put_other}
use kmx_sat.SolverCore.Watching.{IsWatched}
use kmx_sat.SolverCore.Rewatch.{same_literal}
use kmx_sat.SolverCore.Propagated.{Settled, IsReasoned, Within}
use kmx_sat.SolverCore.Scanning.{Scanning}
use kmx_sat.SolverCore.Visiting.{Outcome, AllFalse, counting, no_more}
use kmx_sat.SolverCore.Visited.{visit_watch-Outcome}

abbrev pub Scanned :
    {H : Type 0}
    → (ℕ → List Literal)
    → List Literal
    → List Literal
    → Literal
    → (SolverCore H × List Watch) × Option ℕ
    → Type 0
Scanned original done tail k ((t, ws), none) =
    (more : List Literal) × Scanning original done (tail ++ more) k ws [] t
Scanned original done tail k ((t, ws), some ref) =
    (more : List Literal) × (read rest : List Watch) × (ws ≡ read ++ rest)
    × Scanning original done (tail ++ more) k read rest t
    × AllFalse t ref

Scanned-more :
    {H : Type 0} (original : ℕ → List Literal) (done : List Literal) (k : Literal)
    (tail more : List Literal) (r : (SolverCore H × List Watch) × Option ℕ)
    → Scanned original done (tail ++ more) k r
    → Scanned original done tail k r
Scanned-more original done k tail more ((t, ws), none) (again, h) = (
  more ++ again,
  subst (λ (q : List Literal). Scanning original done q k ws [] t) (append_assoc tail more again) h,
)
Scanned-more original done k tail more ((t, ws), some ref) (again, read, rest, e, h, f) = (
  more ++ again,
  read,
  rest,
  e,
  subst (λ (q : List Literal). Scanning original done q k read rest t)
      (append_assoc tail more again) h,
  f,
)

module _ {H : Type 0} {original : ℕ → List Literal} {done : List Literal} (k : Literal) where
  pub scan_watches-Scanned :
      (tail : List Literal) (written rest : List Watch) (s : SolverCore H)
      → Scanning original done tail k written rest s
      → Scanned original done tail k (scan_watches k s written rest)
  unfolding scan_watches
  scan_watches-Scanned tail written [] s h =
      no_more (λ q. Scanning original done q k written [] s) tail h
  scan_watches-Scanned tail written (w ∷ rest) s h =
      elim (visit_watch k (record s { watch_entry_scan_count = s.watch_entry_scan_count + 1 }) w)
          as (λ v.
            Outcome original done tail k written rest v
            → Scanned {H = H} original done tail k (elim v [
              | kept t w ↦ scan_watches k t (written ++ w ∷ []) rest
              | moved t ↦ scan_watches k t written rest
              | conflicting t w ref ↦ ((t, written ++ w ∷ rest), some ref)
            ])) [
              | kept t v ↦ λ (more, h).
                  Scanned-more original done k tail more _
                    (scan_watches-Scanned (tail ++ more) (written ++ v ∷ []) rest t h)
              | moved t ↦ λ h. scan_watches-Scanned tail written rest t h
              | conflicting t v ref ↦ λ (h, f).
                  let (more, again) =
                    no_more (λ q. Scanning original done q k written (v ∷ rest) t) tail h in
                  (more, written, v ∷ rest, refl, again, f)
            ]
        (visit_watch-Outcome written rest _ w (counting s (s.watch_entry_scan_count + 1) _ _ h))

-- What holds between two turns: `done` is propagated, `queue` is still to be.
pub record IsPropagating {H : Type 0} (original : ℕ → List Literal) (done queue : List Literal)
    (s : SolverCore H) : Type 0 where
  pub trail : IsTrail done queue (view s)
  pub watched : IsWatched s.clauses s.watches
  pub settled : Settled done s.clauses s.watches (view s)
  pub reasoned : IsReasoned s.clauses s.reasons (view s)
  pub within : Within original s.clauses (s.variable_count + 1) (view s)

put_idle_at : {A : Type 0} (f : ℕ → A) (i j : ℕ) → put f i (f i) j ≡ f j
put_idle_at f i j = elim (Bool-cases (i == j)) [
  | inl e ↦
      let at : i ≡ j = ground arith in
      subst (λ (n : ℕ). put f i (f i) n ≡ f n) at (put_self f i (f i))
  | inr n ↦ put_other f i j (f i) n
]

put_idle : {A : Type 0} (f : ℕ → A) (i : ℕ) → put f i (f i) ≡ f
put_idle f i = λ t j. put_idle_at f i j t

-- The literal of a watched list is the last propagated one, or its list is another.
Settled-start :
    (done : List Literal) (clauses : ℕ → List Literal) (watches : ℕ → List Watch) (s : TrailView)
    (k : Literal)
    → Settled done clauses watches s
    → Settled (done ++ negated k ∷ []) clauses (put watches k.raw []) s
Settled-start done clauses watches s k h l u e d = elim (Bool-cases (k.raw == l.raw)) [
  | inl hit ↦
      let at = put_self watches k.raw [] in
      let none_there =
        subst (λ (x : Literal). Entry u (put watches k.raw [] x.raw)) (sym (same_literal k l hit))
          e in
      elim (subst (Entry u) at none_there) [ ]
  | inr n ↦
      let old = subst (Entry u) (put_other watches k.raw l.raw [] n) e in
      elim (Entry-append done (negated k ∷ []) d) [
        | inl d ↦ h l u old d
        | inr d ↦
            let twin = sym (negated-negated l) ∙ ap negated (Entry-single d) ∙ negated-negated k in
            absurd (ground arith)
      ]
]

-- A literal of the queue is none of those that are propagated.
queue_apart :
    (done tail : List Literal) (l : Literal) → Distinct (done ++ l ∷ tail) → Entry l done → ⊥
queue_apart [] tail l h e = elim e [ ]
queue_apart (x ∷ done) tail l h e = elim (Entry-inv e) [
  | inl at ↦
      let n = Fresh-Entry (variable_of x) (done ++ l ∷ tail) l h.0 (Entry-append_right done here) in
      absurd (ground arith)
  | inr e ↦ queue_apart done tail l h.1 e
]

module _ {H : Type 0} {original : ℕ → List Literal} {done : List Literal} (k : Literal) where
  pub start_scan :
      {tail : List Literal} (s : SolverCore H)
      → IsPropagating original done (negated k ∷ tail) s
      → Scanning original done tail k [] (s.watches k.raw) s
  start_scan s h = record {
    trail = IsPropagating.trail h;
    watched =
        subst (IsWatched s.clauses) (sym (put_idle s.watches k.raw)) (IsPropagating.watched h);
    settled = Settled-start done s.clauses s.watches (view s) k (IsPropagating.settled h);
    reasoned = IsPropagating.reasoned h;
    within = IsPropagating.within h;
  }

  pub finish_scan :
      {tail : List Literal} (ws : List Watch) (t : SolverCore H)
      → Scanning original done tail k ws [] t
      → IsPropagating original
          (done ++ negated k ∷ [])
          tail
          (record t { watches = put t.watches k.raw ws })
  finish_scan {tail} ws t h =
      let trail = Scanning.trail h in
      record {
        trail = record {
          splits = IsTrail.splits trail ∙ sym (append_assoc done (negated k ∷ []) tail);
          opposites = IsTrail.opposites trail;
          listed = IsTrail.listed trail;
          holds = IsTrail.holds trail;
          bounded = IsTrail.bounded trail;
          recent = λ l e. IsTrail.recent trail l (there e);
          placed = IsTrail.placed trail;
          distinct = IsTrail.distinct trail;
          frames = IsTrail.frames trail;
          cuts = IsTrail.cuts trail;
        };
        watched =
            subst (λ (x : List Watch). IsWatched t.clauses (put t.watches k.raw x)) (append-nil ws)
              (Scanning.watched h);
        settled = Scanning.settled h;
        reasoned = Scanning.reasoned h;
        within = Scanning.within h;
      }

  pub stop_scan :
      {tail : List Literal} (read rest : List Watch) (t : SolverCore H)
      → Scanning original done tail k read rest t
      → IsPropagating original done
          (negated k ∷ tail)
          (record t { watches = put t.watches k.raw (read ++ rest) })
  stop_scan {tail} read rest t h = record {
    trail = Scanning.trail h;
    watched = Scanning.watched h;
    settled = λ l u e d. elim (Bool-cases (k.raw == l.raw)) [
      | inr n ↦
          let old =
            put_other t.watches k.raw l.raw (read ++ rest) n
            ∙ sym (put_other t.watches k.raw l.raw read n) in
          Scanning.settled h l u (subst (Entry u) old e) (Entry-append_left _ d)
      | inl hit ↦
          let twin = ap negated (sym (same_literal k l hit)) in
          let all =
            subst Distinct (IsTrail.splits (Scanning.trail h))
              (IsTrail.distinct (Scanning.trail h)) in
          absurd
            (queue_apart done tail (negated k) all (subst (λ (x : Literal). Entry x done) twin d))
    ];
    reasoned = Scanning.reasoned h;
    within = Scanning.within h;
  }
