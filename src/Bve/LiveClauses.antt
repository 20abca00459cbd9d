-- ===== src/Bve/LiveClauses.antt =====
-- The live clauses of a list of references, which `bounded::emit_extension_record` journals
-- (source/library/src/kmx/sat/simplify/eliminator/variable/bounded.cpp).
use kmx_sat.Base.{
  ◌≡◌, refl, inl, inr, List, [], ◌∷◌, if◌then◌else◌, Bool-cases, Entry, here, there, Entry-inv,
}
use kmx_sat.Literal.Meaning.{Clause}
use kmx_sat.Extension.{Extension, append_witness_clause}
use kmx_sat.Reconstruct.Witness.{append_all}
use kmx_sat.Bve.{Ref, ClauseStore, append_live}
use kmx_sat.Bve.Resolvents.{Live}

-- The live clauses of a list of references.
abbrev pub live_clauses : ClauseStore → List Ref → List Clause
live_clauses store [] = []
live_clauses store (r ∷ rs) =
    let rest = live_clauses store rs in
    if store.is_garbage r then rest else store.view_literals r ∷ rest

pub ref_of_Live :
    (store : ClauseStore) (rs : List Ref) {c : Clause}
    → Entry c (live_clauses store rs)
    → (r : Ref) × Entry r rs × Live store r × (store.view_literals r ≡ c)
ref_of_Live store [] e = elim e [ ]
ref_of_Live store (r ∷ rs) {c} e = elim (Bool-cases (store.is_garbage r)) [
  | inl dead ↦ let (k, w, l, s) = ref_of_Live store rs (rw dead at e) in (k, there w, l, s)
  | inr live ↦
      let at_front : Entry c (store.view_literals r ∷ live_clauses store rs) = rw live at e in
      elim (Entry-inv at_front) [
        | inl s ↦ (r, here, live, s)
        | inr w ↦ let (k, w', l, s) = ref_of_Live store rs w in (k, there w', l, s)
      ]
]

pub Live-of_ref :
    (store : ClauseStore) (rs : List Ref) {r : Ref}
    → Entry r rs
    → Live store r
    → Entry (store.view_literals r) (live_clauses store rs)
Live-of_ref store (r ∷ rs) here live = rw live here
Live-of_ref store (k ∷ rs) (there w) live = elim (Bool-cases (store.is_garbage k)) [
  | inl dead ↦ rw dead (Live-of_ref store rs w live)
  | inr alive ↦ rw alive (there (Live-of_ref store rs w live))
]
Live-of_ref store [] w live = elim w [ ]

pub append_live-eq :
    (store : ClauseStore) (e : Extension) (rs : List Ref)
    → append_live store e rs ≡ append_all e (live_clauses store rs)
unfolding append_live
append_live-eq store e [] = refl
append_live-eq store e (r ∷ rs) = elim (Bool-cases (store.is_garbage r)) [
  | inl dead ↦ rw (dead, append_live) (append_live-eq store e rs)
  | inr live ↦
      rw (live, append_live)
        (append_live-eq store (append_witness_clause e (store.view_literals r)) rs)
]
