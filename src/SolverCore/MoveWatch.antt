-- ===== src/SolverCore/MoveWatch.antt =====
-- A watch moves to another literal of its clause: the clause is reordered, its entry leaves one
-- list and enters another (source/library/src/kmx/sat/cdcl/solver_core.cpp, `propagate`).
use kmx_sat.Base.{
  ℕ, ◌≡◌, ◌≢◌, refl, sym, subst, ◌∙◌, inl, inr, false, List, [], ◌∷◌, ◌++◌, arith, ◌==◌, Bool-cases,
  put, Entry, here, there, Entry-append, Entry-append_left, Entry-append_right, Entry-single,
}
use kmx_sat.Literal.{Literal, variable_of}
use kmx_sat.Analyzer.Marking.{Distinct}
use kmx_sat.SolverCore.{Watch}
use kmx_sat.SolverCore.Trail.{put_other}
use kmx_sat.SolverCore.Watching.{
  IsWatch, IsWatched, Watches, Absent, Absent-Entry, OncePerClause, OncePerClause-remove,
  OncePerClause-push, Entry-remove, Watches-remove,
}
use kmx_sat.SolverCore.Replacement.{Swapped, found, skipped, Swapped-Entry, Swapped-Distinct}
use kmx_sat.SolverCore.Rewatch.{
  Heads, Heads-Entry, Heads-Distinct, Heads-watched, put-cases, same_literal, Heads-watches,
}

-- The tables before and after.
pub record Move (k r : Literal) (old new : ℕ → List Watch) (xs ys : List Watch) (w v : Watch)
    : Type 0 where
  pub before : old k.raw ≡ xs ++ w ∷ ys
  pub left : new k.raw ≡ xs ++ ys
  pub entered : new r.raw ≡ old r.raw ++ v ∷ []
  pub apart : (k.raw == r.raw) ≡ false
  pub elsewhere :
      (l : Literal) → (k.raw == l.raw) ≡ false → (r.raw == l.raw) ≡ false → new l.raw ≡ old l.raw

module _ {k r : Literal} {old new : ℕ → List Watch} (xs ys : List Watch) (w v : Watch)
    (m : Move k r old new xs ys w v) where
  pub Move-cases :
      (P : Literal → List Watch → Type 0)
      → P k (xs ++ ys)
      → P r (old r.raw ++ v ∷ [])
      → (l : Literal) → ((k.raw == l.raw) ≡ false → P l (old l.raw))
      → P l (new l.raw)
  Move-cases P at_k at_r l miss = elim (Bool-cases (k.raw == l.raw)) [
    | inl e ↦
        subst (λ (x : Literal). P x (new x.raw)) (same_literal k l e)
          (subst (P k) (sym (Move.left m)) at_k)
    | inr n ↦ elim (Bool-cases (r.raw == l.raw)) [
      | inl e ↦
          subst (λ (x : Literal). P x (new x.raw)) (same_literal r l e)
            (subst (P r) (sym (Move.entered m)) at_r)
      | inr n2 ↦ subst (P l) (sym (Move.elsewhere m l n n2)) (miss n)
    ]
  ]

pub raw_apart :
    (a b : Literal) → (variable_of a == variable_of b) ≡ false → (a.raw == b.raw) ≡ false
unfolding variable_of
raw_apart a b h = ground arith

pub Absent-of_entries :
    (ref : ℕ) (ws : List Watch)
    → ((u : Watch) → Entry u ws → (u.clause_ref == ref) ≡ false)
    → Absent ref ws
Absent-of_entries ref [] h = tt
Absent-of_entries ref (w ∷ ws) h = (h w here, Absent-of_entries ref ws (λ u e. h u (there e)))

Heads-rest :
    {c : List Literal} {k o l : Literal} {rest : List Literal} {u : Watch}
    → Heads c k o rest
    → (f : IsWatch c l u) → rest ≡ IsWatch.rest f
Heads-rest (inl h) f = elim (IsWatch.heads f) [ inl e ↦ cc (h, e) | inr e ↦ cc (h, e) ]
Heads-rest (inr h) f = elim (IsWatch.heads f) [ inl e ↦ cc (h, e) | inr e ↦ cc (h, e) ]

Swapped-long : {k r : Literal} {cs ds : List Literal} → Swapped k cs r ds → cs ≢ []
Swapped-long found e = cc
Swapped-long (skipped s) e = cc

-- A watch of the clause in another list stays one.
IsWatch-moved :
    {c : List Literal} {k o r l : Literal} {rest after : List Literal} {u : Watch}
    → Heads c k o rest
    → Swapped k rest r after
    → (k.raw == l.raw) ≡ false
    → IsWatch c l u
    → IsWatch (o ∷ r ∷ after) l u
IsWatch-moved {c} {k} {o} {r} {l} {rest} {after} {u} heads s n f =
    let inside = Heads-Entry heads _ (IsWatch.blocks f) in
    let outside = Swapped-Entry found _ (Swapped-Entry (skipped s) _ inside) in
    elim (Heads-watched heads f) [
      | inl e ↦ absurd (ground arith)
      | inr e ↦ record {
        other = r;
        rest = after;
        heads = inl (rw e refl);
        blocks = outside;
        binary = λ b. absurd (Swapped-long s (Heads-rest heads f ∙ (IsWatch.binary f b).0));
      }
    ]

module _ {k o r : Literal} {old new : ℕ → List Watch} (clauses : ℕ → List Literal)
    (ok : IsWatched clauses old) (xs ys : List Watch) (w v : Watch) (m : Move k r old new xs ys w v)
    (same : v.clause_ref ≡ w.clause_ref) (blocks : v.blocking_literal ≡ o)
    (long : v.is_binary ≡ false) (rest after : List Literal)
    (heads : Heads (clauses w.clause_ref) k o rest) (s : Swapped k rest r after) where
  split_first : Absent w.clause_ref (xs ++ ys) × OncePerClause (xs ++ ys)
  split_first =
      OncePerClause-remove w xs ys (subst OncePerClause (Move.before m) (IsWatched.once ok k))

  Distinct-all : Distinct (k ∷ o ∷ rest)
  Distinct-all = Heads-Distinct heads (IsWatched.distinct ok w.clause_ref)

  Distinct-new : Distinct (r ∷ o ∷ after)
  Distinct-new = Swapped-Distinct (skipped s) Distinct-all

  apart_other : (k.raw == o.raw) ≡ false
  apart_other = raw_apart k o Distinct-all.0.0

  other_apart : (r.raw == o.raw) ≡ false
  other_apart = raw_apart r o Distinct-new.0.0

  abbrev rewritten : ℕ → List Literal
  rewritten = put clauses w.clause_ref (o ∷ r ∷ after)

  stays :
      (l : Literal) (u : Watch)
      → (k.raw == l.raw) ≡ false
      → Entry u (old l.raw)
      → IsWatch (rewritten u.clause_ref) l u
  stays l u n e =
      put-cases (λ j c. (j ≡ u.clause_ref) → IsWatch c l u) clauses w.clause_ref (o ∷ r ∷ after)
        (λ at.
          IsWatch-moved heads s n
            (subst (λ (j : ℕ). IsWatch (clauses j) l u) (sym at) (IsWatched.watch ok l u e)))
        u.clause_ref (λ d at. IsWatched.watch ok l u e) refl

  stays_left : (u : Watch) → Entry u (xs ++ ys) → IsWatch (rewritten u.clause_ref) k u
  stays_left u e =
      let d = Absent-Entry w.clause_ref u (xs ++ ys) split_first.0 e in
      let f =
        IsWatched.watch ok k u (subst (Entry u) (sym (Move.before m)) (Entry-remove w xs ys u e)) in
      subst (λ (c : List Literal). IsWatch c k u)
        (sym (put_other clauses w.clause_ref u.clause_ref (o ∷ r ∷ after) (ground arith))) f

  enters : IsWatch (rewritten v.clause_ref) r v
  enters =
      put-cases (λ j c. IsWatch c r v) clauses w.clause_ref (o ∷ r ∷ after)
        (record {
          other = o;
          rest = after;
          heads = inr refl;
          blocks = rw blocks here;
          binary = λ b. absurd (cc (b, long));
        })
        v.clause_ref (λ n. absurd (ground arith))

  absent : Absent v.clause_ref (old r.raw)
  absent = Absent-of_entries v.clause_ref (old r.raw) (λ u e.
      elim (Bool-cases (u.clause_ref == v.clause_ref)) [
        | inr n ↦ n
        | inl h ↦
            let at : u.clause_ref ≡ w.clause_ref = ground arith in
            let f = subst (λ (j : ℕ). IsWatch (clauses j) r u) at (IsWatched.watch ok r u e) in
            elim (Heads-watched heads f) [
              | inl e ↦ absurd (let d = Move.apart m in ground arith)
              | inr e ↦ absurd (let d = other_apart in ground arith)
            ]
      ])

  carry :
      (j : ℕ) (l : Literal)
      → (w.clause_ref == j) ≡ false
      → Watches (old l.raw) j
      → Watches (new l.raw) j
  carry j l n h =
      Move-cases xs ys w v m (λ l ws. Watches (old l.raw) j → Watches ws j)
        (λ h.
          Watches-remove w xs ys j n (subst (λ (ws : List Watch). Watches ws j) (Move.before m) h))
        (λ (u, e, q). (u, Entry-append_left _ e, q)) l (λ d h. h) h

  other_watched : Watches (new o.raw) w.clause_ref
  other_watched =
      subst (λ (ws : List Watch). Watches ws w.clause_ref)
        (sym (Move.elsewhere m o apart_other other_apart))
        (Heads-watches clauses old ok k o w.clause_ref rest heads).1

  pub move-IsWatched : IsWatched (put clauses w.clause_ref (o ∷ r ∷ after)) new
  move-IsWatched = record {
    watch = λ l u e.
        Move-cases xs ys w v m (λ l ws. Entry u ws → IsWatch (rewritten u.clause_ref) l u)
          (stays_left u)
          (λ e. elim (Entry-append (old r.raw) (v ∷ []) e) [
            | inl e ↦ stays r u (Move.apart m) e
            | inr e ↦
                subst (λ (x : Watch). IsWatch (rewritten x.clause_ref) r x) (sym (Entry-single e))
                  enters
          ])
          l (λ n e. stays l u n e) e;
    once = λ l.
        Move-cases xs ys w v m (λ l ws. OncePerClause ws) split_first.1
          (OncePerClause-push (old r.raw) v (IsWatched.once ok r) absent) l
          (λ n. IsWatched.once ok l);
    first = λ j a b cs.
        put-cases (λ j c. c ≡ a ∷ b ∷ cs → Watches (new a.raw) j) clauses w.clause_ref
          (o ∷ r ∷ after)
          (λ e.
            let at : o ≡ a = cc e in
            subst (λ (x : Literal). Watches (new x.raw) w.clause_ref) at other_watched)
          j (λ n e. carry j a n (IsWatched.first ok j a b cs e));
    second = λ j a b cs.
        put-cases (λ j c. c ≡ a ∷ b ∷ cs → Watches (new b.raw) j) clauses w.clause_ref
          (o ∷ r ∷ after)
          (λ e.
            let at : r ≡ b = cc e in
            let pushed =
              subst (Entry v) (sym (Move.entered m)) (Entry-append_right (old r.raw) here) in
            subst (λ (x : Literal). Watches (new x.raw) w.clause_ref) at (v, pushed, same))
          j (λ n e. carry j b n (IsWatched.second ok j a b cs e));
    distinct = λ j.
        put-cases (λ r c. Distinct c) clauses w.clause_ref (o ∷ r ∷ after)
          (Swapped-Distinct found Distinct-new) j (λ n. IsWatched.distinct ok j);
  }
