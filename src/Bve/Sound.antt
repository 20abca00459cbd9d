-- ===== src/Bve/Sound.antt =====
-- Elimination and reconstruction together: `bounded::emit_extension_record`
-- (source/library/src/kmx/sat/simplify/eliminator/variable/bounded.cpp) and the replay of the
-- record (source/library/src/kmx/sat/cdcl/model_reconstructor.cpp).
use kmx_sat.Base.{
  ◌^◌, ◌<◌, ◌≡◌, refl, ap, sym, ◌∙◌, subst, inl, inr, true, false, some, List, [], ◌∷◌, ◌++◌, arith,
  ◌==◌, Bool-cases, Entry, All, All-of_entries, All-entry, length, get_elem?,
}
use kmx_sat.Literal.{Variable, Literal, variable_of, negated}
use kmx_sat.Literal.Encoding.{variable_of-negated, is_negated-negated}
use kmx_sat.Literal.Meaning.{Clause}
use kmx_sat.Extension.{Extension, bve_elimination, witness_mark, push_bve_elimination}
use kmx_sat.Reconstruct.{
  Table, set_value, literal_satisfied, clause_is_satisfied, visit_eliminated, Replay,
  apply_extension_record,
}
use kmx_sat.Reconstruct.Values.{
  IsTable, is_present, value, set_value-IsTable, value-set_value, is_present-set_value,
  literal_satisfied_lem, clause_is_satisfied-of_Entry, Entry-of_clause_is_satisfied,
}
use kmx_sat.Reconstruct.Witness.{IsEncodable, append_all, records-append_all, for_each-append_all}
use kmx_sat.Reconstruct.Repair.{
  OnlySign, Occurs, Raised, Witnesses, visit_all, visit_all-Raised, visit_all-satisfied,
  visit_all-cause,
}
use kmx_sat.Bve.{
  Ref, ClauseStore, Occurrences, Bounded, resolve, build_resolvents, emit_extension_record,
}
use kmx_sat.Bve.Resolve.{resolve-dropped, resolve-from}
use kmx_sat.Bve.Resolvents.{Live, Complete, build_resolvents-Complete}
use kmx_sat.Bve.LiveClauses.{live_clauses, ref_of_Live, Live-of_ref, append_live-eq}

-- The occurrence lists of `v` are right: its live clauses hold it with the one sign only.
pub record IsIndexed (store : ClauseStore) (v : Variable) (entry : Occurrences) : Type 0 where
  pub positive :
      (p : Ref)
      → Entry p entry.positive
      → Live store p
      → OnlySign false v (store.view_literals p) × Occurs v (store.view_literals p)
  pub negative :
      (n : Ref)
      → Entry n entry.negative
      → Live store n
      → OnlySign true v (store.view_literals n) × Occurs v (store.view_literals n)

-- The model gives every variable of a live clause a value.
abbrev pub IsCovered : ClauseStore → Table → List Ref → Type 0
IsCovered store t rs =
    (r : Ref) (l : Literal)
    → Entry r rs
    → Live store r
    → Entry l (store.view_literals r)
    → is_present t (variable_of l) ≡ true

-- What reconstruction owes to the clauses that an elimination deleted.
pub record Restored (store : ClauseStore) (v : Variable) (entry : Occurrences) (t u : Table)
    : Type 0 where
  pub positive :
      (p : Ref)
      → Entry p entry.positive
      → Live store p
      → clause_is_satisfied u (store.view_literals p) ≡ true
  pub negative :
      (n : Ref)
      → Entry n entry.negative
      → Live store n
      → clause_is_satisfied u (store.view_literals n) ≡ true
  pub others :
      (w : Variable)
      → (v == w) ≡ false
      → (value u w ≡ value t w) × (is_present u w ≡ is_present t w)

module _ (store : ClauseStore) (b : Bounded) (v : Variable) (entry : Occurrences) (rs : List Clause)
    (t : Table) (complete : Complete store b v entry rs) (indexed : IsIndexed store v entry)
    (w : IsTable t) (covered : IsCovered store t entry.negative)
    (model : (c : Clause) → Entry c rs → clause_is_satisfied t c ≡ true) where
  abbrev lowered : Table
  lowered = set_value t v false

  abbrev repaired : Table
  repaired = visit_all v lowered (live_clauses store entry.positive)

  witnesses : Witnesses v (live_clauses store entry.positive)
  witnesses = All-of_entries _ (live_clauses store entry.positive) λ c e.
      let (p, wp, lp, s) = ref_of_Live store entry.positive e in
      subst (λ c. OnlySign false v c × Occurs v c) s (indexed.positive p wp lp)

  lowered_present : is_present lowered v ≡ true
  lowered_present = ground (arith, is_present-set_value t v false w v)

  lowered-IsTable : IsTable lowered
  lowered-IsTable = set_value-IsTable t v false w

  raised : Raised v lowered repaired
  raised =
      visit_all-Raised v lowered (live_clauses store entry.positive) witnesses lowered-IsTable
        lowered_present

  -- A literal over another variable reads the same throughout.
  same_lowered :
      (l : Literal)
      → (variable_of l == v) ≡ false
      → literal_satisfied lowered l ≡ literal_satisfied t l
  same_lowered l free = ground (
    arith,
    literal_satisfied_lem lowered l,
    literal_satisfied_lem t l,
    value-set_value t v false w (variable_of l),
    is_present-set_value t v false w (variable_of l),
  )

  same_repaired :
      (l : Literal)
      → (variable_of l == v) ≡ false
      → literal_satisfied repaired l ≡ literal_satisfied t l
  same_repaired l free = ground (
    arith,
    same_lowered l free,
    literal_satisfied_lem lowered l,
    literal_satisfied_lem repaired l,
    raised.kept_value (variable_of l),
    raised.kept_present (variable_of l),
  )

  -- The clause that forced `v` up resolves with each negative clause.
  negative_by_resolvent :
      (p n : Ref)
      → Entry p entry.positive
      → Live store p
      → Entry n entry.negative
      → Live store n
      → clause_is_satisfied lowered (store.view_literals p) ≡ false
      → clause_is_satisfied repaired (store.view_literals n) ≡ true
  negative_by_resolvent p n wp lp wn ln unsat =
      let c = store.view_literals p in
      let d = store.view_literals n in
      elim (Bool-cases (resolve c d v).1) [
        | inl kept ↦
            let sat = model (resolve c d v).0 (complete.covers p n wp lp wn ln kept) in
            let (l, e, s) = Entry-of_clause_is_satisfied t _ sat in
            let (side, free) = resolve-from c d v e in
            elim side [
              | inl in_c ↦
                  ground (arith, same_lowered l free, clause_is_satisfied-of_Entry lowered c in_c)
              | inr in_d ↦ clause_is_satisfied-of_Entry repaired d in_d (same_repaired l free ∙ s)
            ]
        | inr dropped ↦
            let (k, l, (ek, fk), (el, fl), s) = resolve-dropped c d v dropped in
            let absent : literal_satisfied lowered k ≡ false =
              ground (arith, clause_is_satisfied-of_Entry lowered c ek) in
            let there_l = covered n l wn ln el in
            clause_is_satisfied-of_Entry repaired d el (
              ground (
                arith,
                same_repaired l fl,
                same_lowered k fk,
                literal_satisfied_lem t k,
                literal_satisfied_lem t l,
                ap (λ x. literal_satisfied t x) s,
                literal_satisfied_lem t (negated l),
                variable_of-negated l,
                is_negated-negated l,
              ))
      ]

  negative_restored :
      (n : Ref)
      → Entry n entry.negative
      → Live store n
      → clause_is_satisfied repaired (store.view_literals n) ≡ true
  negative_restored n wn ln = elim (Bool-cases (value repaired v)) [
    | inr low ↦
        let (only, (l, e, over)) = indexed.negative n wn ln in
        clause_is_satisfied-of_Entry repaired (store.view_literals n) e
          (rw (literal_satisfied_lem repaired l, over, raised.present, low, only l e over) refl)
    | inl high ↦ elim (visit_all-cause v lowered (live_clauses store entry.positive) high) [
      | inl was ↦ ground (arith, value-set_value t v false w v)
      | inr (c, e, unsat) ↦
          let (p, wp, lp, s) = ref_of_Live store entry.positive e in
          negative_by_resolvent p n wp lp wn ln
            (subst (λ c. clause_is_satisfied lowered c ≡ false) (sym s) unsat)
    ]
  ]

  restored : Restored store v entry t repaired
  restored = record {
    positive = λ p wp lp.
        All-entry _ (live_clauses store entry.positive)
          (visit_all-satisfied v lowered (live_clauses store entry.positive) witnesses
            lowered-IsTable lowered_present)
          (Live-of_ref store entry.positive wp lp);
    negative = negative_restored;
    others = λ x other. (
      raised.kept_value x other ∙ ground (arith, value-set_value t v false w x),
      raised.kept_present x other ∙ ground (arith, is_present-set_value t v false w x),
    );
  }

-- Elimination followed by reconstruction keeps a model a model. Let the resolvents of `v` be
-- built within the limits, its live clauses be indexed rightly and without the literal of raw
-- value 0, and the witness vector stay below 2 ^ 32. Then the elimination appends one record, and
-- replaying it, whatever witnesses follow, on a table that satisfies all the resolvents and gives
-- a value to the variables of the live negative clauses, satisfies every live clause of `v` and
-- changes no other variable.
pub elimination_restores :
    (store : ClauseStore) (b : Bounded) (v : Variable) (entry : Occurrences) (rs : List Clause)
    (e : Extension) (later : List Literal) (r : Replay)
    → get_elem? b.occurrences v ≡ some entry
    → build_resolvents store b v ≡ some rs
    → IsIndexed store v entry
    → All IsEncodable (live_clauses store entry.positive)
    → length (emit_extension_record store b v e).witness_literals < 2 ^ 32
    → IsTable r.table
    → IsCovered store r.table entry.negative
    → ((c : Clause) → Entry c rs → clause_is_satisfied r.table c ≡ true)
    → let e' = emit_extension_record store b v e in
      let journalled = bve_elimination v (witness_mark e) (witness_mark e') in
      (e'.records ≡ e.records ++ journalled ∷ [])
      × Restored store v entry r.table
          (apply_extension_record (e'.witness_literals ++ later) r journalled).table
unfolding emit_extension_record push_bve_elimination witness_mark apply_extension_record
elimination_restores store b v entry rs e later r at built indexed encodable fits w covered model =
    let cs = live_clauses store entry.positive in
    let emitted : emit_extension_record store b v e
        ≡ push_bve_elimination (append_all e cs) v (witness_mark e) =
      rw (at, emit_extension_record)
        (ap (λ x. push_bve_elimination x v (witness_mark e))
          (append_live-eq store e entry.positive)) in
    let complete = build_resolvents-Complete store b v entry rs at built in
    let replayed =
      for_each-append_all (visit_eliminated v) e cs later (set_value r.table v false) encodable
        (subst (λ (x : Extension). length x.witness_literals < 2 ^ 32) emitted fits) in
    rw emitted (
      ap (λ x. x ++ bve_elimination v (witness_mark e) (witness_mark (append_all e cs)) ∷ [])
          (records-append_all e cs),
      subst (Restored store v entry r.table) (sym replayed)
          (restored store b v entry rs r.table complete indexed w covered model),
    )
