-- ===== src/Bve/Tests.antt =====
-- The elimination of one variable from two clauses.
use kmx_sat.Base.{
  ℕ, ◌^◌, ◌≡◌, refl, ap, sym, subst, ◌<◌, get_or, inl, inr, true, false, some, List, [], ◌∷◌, ◌++◌,
  arith, ◌==◌, if◌then◌else◌, Entry, here, Entry-single, Entry-inv, length,
}
use kmx_sat.Base.Int.{pos}
use kmx_sat.Literal.{Literal, variable_of, is_negated, negated}
use kmx_sat.Literal.Meaning.{Clause, clause_true}
use kmx_sat.Extension.{
  empty, bve_elimination, witness_mark, append_witness_clause, push_bve_elimination,
}
use kmx_sat.Reconstruct.{Table, literal_satisfied, clause_is_satisfied, apply_extension_record}
use kmx_sat.Reconstruct.Repair.{OnlySign, Occurs}
use kmx_sat.Bve.{
  ClauseStore, Occurrences, Bounded, can_eliminate, has_raw, append_literals, clashes, any_clash,
  resolve, keep_resolvent, resolve_with_negatives, resolve_positives, none_empty,
  keep_if_none_empty, build_resolvents, append_live, emit_extension_record,
}
use kmx_sat.Bve.Resolve.{resolve_sound}
use kmx_sat.Bve.Resolvents.{Complete, build_resolvents-Complete}
use kmx_sat.Bve.Sound.{IsIndexed, IsCovered, Restored, elimination_restores}

abbrev lit : ℕ → Literal
lit raw = record { raw = raw }

-- x ∨ a and ¬x ∨ b, with x = 1, a = 2 and b = 3.
abbrev store : ClauseStore
store = record {
  view_literals = λ r. if r == 0 then lit 2 ∷ lit 4 ∷ [] else lit 3 ∷ lit 6 ∷ [];
  is_garbage = λ r. false;
}

abbrev entry : Occurrences
entry = record { positive = 0 ∷ []; negative = 1 ∷ [] }

abbrev nothing : Occurrences
nothing = record { positive = []; negative = [] }

abbrev pass : Bounded
pass = record {
  frozen = 9 ∷ [];
  clause_growth_limit = pos 0;
  resolvent_width_limit = 16;
  occurrences = nothing ∷ entry ∷ [];
}

abbrev resolvents : List Clause
resolvents = (lit 4 ∷ lit 6 ∷ []) ∷ []

candidates : (can_eliminate pass 1 ≡ true) × (can_eliminate pass 0 ≡ false)
unfolding can_eliminate
candidates = (refl, refl)

built : build_resolvents store pass 1 ≡ some resolvents
unfolding build_resolvents resolve_positives resolve_with_negatives keep_resolvent resolve
    append_literals has_raw any_clash clashes keep_if_none_empty none_empty negated variable_of
built = refl

positive_only : OnlySign false 1 (lit 2 ∷ lit 4 ∷ [])
unfolding variable_of is_negated
positive_only l e v = elim (Entry-inv e) [
  | inl s ↦ ap is_negated (sym s)
  | inr w ↦ ap is_negated (Entry-single w)
]

negative_only : OnlySign true 1 (lit 3 ∷ lit 6 ∷ [])
unfolding variable_of is_negated
negative_only l e v = elim (Entry-inv e) [
  | inl s ↦ ap is_negated (sym s)
  | inr w ↦ absurd (omega (arith, v, ap variable_of (Entry-single w)))
]

indexed : IsIndexed store 1 entry
unfolding variable_of
indexed = record {
  positive = λ p w l.
      subst (λ q. OnlySign false 1 (store.view_literals q) × Occurs 1 (store.view_literals q))
        (sym (Entry-single w)) (positive_only, (lit 2, here, refl));
  negative = λ n w l.
      subst (λ q. OnlySign true 1 (store.view_literals q) × Occurs 1 (store.view_literals q))
        (sym (Entry-single w)) (negative_only, (lit 3, here, refl));
}

-- a is false and b is true: the model of the resolvent leaves x open.
abbrev model : Table
model = record {
  values = false ∷ false ∷ false ∷ true ∷ [];
  present = true ∷ true ∷ true ∷ true ∷ [];
}

covered : IsCovered store model (1 ∷ [])
unfolding variable_of
covered n l w live e =
    subst (λ q. Entry l (store.view_literals q) → get_or model.present (variable_of l) false ≡ true)
      (sym (Entry-single w))
      (λ e. elim (Entry-inv e) [
        | inl s ↦ subst (λ k. get_or model.present (variable_of k) false ≡ true) s refl
        | inr r ↦
            subst (λ k. get_or model.present (variable_of k) false ≡ true) (sym (Entry-single r))
              refl
      ])
      e

resolve_sound_example :
    (clause_true (λ v. v == 3) (lit 2 ∷ lit 4 ∷ []) ≡ true
      → clause_true (λ v. v == 3) (lit 3 ∷ lit 6 ∷ []) ≡ true
      → clause_true (λ v. v == 3) (resolve (lit 2 ∷ lit 4 ∷ []) (lit 3 ∷ lit 6 ∷ []) 1).0 ≡ true)
    × ((resolve (lit 2 ∷ lit 4 ∷ []) (lit 3 ∷ lit 6 ∷ []) 1).1 ≡ false
        → clause_true (λ v. v == 3) (resolve (lit 2 ∷ lit 4 ∷ []) (lit 3 ∷ lit 6 ∷ []) 1).0 ≡ true)
resolve_sound_example =
    resolve_sound (lit 2 ∷ lit 4 ∷ []) (lit 3 ∷ lit 6 ∷ []) 1 (λ v. v == 3) positive_only
      negative_only

build_resolvents-Complete_example : Complete store pass 1 entry resolvents
build_resolvents-Complete_example =
    build_resolvents-Complete store pass 1 entry resolvents refl built

satisfied : (c : Clause) → Entry c resolvents → clause_is_satisfied model c ≡ true
unfolding clause_is_satisfied literal_satisfied variable_of is_negated
satisfied c e = subst (λ d. clause_is_satisfied model d ≡ true) (sym (Entry-single e)) refl

short : length (emit_extension_record store pass 1 empty).witness_literals < 2 ^ 32
unfolding emit_extension_record append_live append_witness_clause push_bve_elimination
short = omega arith

elimination_restores_example :
    let e' = emit_extension_record store pass 1 empty in
    let journalled = bve_elimination 1 (witness_mark empty) (witness_mark e') in
    (e'.records ≡ [] ++ journalled ∷ [])
    × Restored store 1 entry model
        (apply_extension_record
          (e'.witness_literals ++ [])
          (record { table = model; internal_only = [] })
          journalled).table
elimination_restores_example =
    elimination_restores store pass 1 entry resolvents empty []
      (record { table = model; internal_only = [] }) refl built indexed (ground arith) short refl
      covered satisfied
