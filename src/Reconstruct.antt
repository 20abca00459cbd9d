-- ===== src/Reconstruct.antt =====
-- Model reconstruction (source/library/inc/kmx/sat/cdcl/model_reconstructor.hpp and
-- source/library/src/kmx/sat/cdcl/model_reconstructor.cpp): the records of the extension stack
-- are replayed in reverse over a table of values.
pub mod Values
pub mod Witness
pub mod Repair
mod Tests
use Prim.Native.Nat.{min}
use kmx_sat.Base.{
  ℕ, zero, suc, ◌+◌, ◌-◌, Bool, true, false, not, ◌&&◌, ◌||◌, Option, none, some, List, [], ◌∷◌,
  ◌++◌, ltb, leb, ◌==◌, if◌then◌else◌, differs, length, get_or, set, take, drop, replicate,
}
use kmx_sat.Literal.{Variable, Literal, no_literal, literal, variable_of, is_negated}
use kmx_sat.Literal.Meaning.{Clause}
use kmx_sat.Extension.{
  ExtensionRecord, bve_elimination, bce_blocking, factor_transformation, Extension,
}

-- `values_` and `present_`, indexed by variable.
pub record Table : Type 0 where
  pub values : List Bool
  pub present : List Bool

-- `resize`, to a size that is no smaller.
abbrev pub grow : List Bool → ℕ → List Bool
grow xs n = xs ++ replicate (n - length xs) false

unfoldable pub set_value : Table → Variable → Bool → Table
set_value t v b =
    let wide =
      if leb (length t.values) v
      then record { values = grow t.values (v + 1); present = grow t.present (v + 1) }
      else t in
    record { values = set wide.values v b; present = set wide.present v true }

-- A literal is satisfied by a variable that is present and has the value that makes it true.
unfoldable pub literal_satisfied : Table → Literal → Bool
literal_satisfied t l =
    if leb (length t.present) (variable_of l) || not (get_or t.present (variable_of l) false)
    then false
    else differs (get_or t.values (variable_of l) false) (is_negated l)

unfoldable pub clause_is_satisfied : Table → Clause → Bool
clause_is_satisfied t [] = false
clause_is_satisfied t (l ∷ c) =
    let rest = clause_is_satisfied t c in if literal_satisfied t l then true else rest

-- `for_each_witness_clause`: the visitor is given the literals between two closing marks.
unfoldable pub visit_range {ℓ} : {S : Type ℓ} → (S → Clause → S) → List Literal → ℕ → ℕ → ℕ → S → S
visit_range visitor witness clause_begin index zero s = s
visit_range visitor witness clause_begin index (suc rounds) s =
    elim ((get_or witness index no_literal).raw == 0) [
      | false ↦ visit_range visitor witness clause_begin (index + 1) rounds s
      | true ↦
          visit_range visitor witness (index + 1) (index + 1) rounds
            (visitor s (take (index - clause_begin) (drop clause_begin witness)))
    ]

unfoldable pub for_each_witness_clause {ℓ} :
    {S : Type ℓ} → (S → Clause → S) → List Literal → ℕ → ℕ → S → S
for_each_witness_clause visitor witness begin end =
    let range_end = if ltb end (length witness) then end else length witness in
    visit_range visitor witness begin begin (range_end - begin)

-- The visitor for an eliminated variable: an unsatisfied clause sets its literals over it.
unfoldable pub set_literals_over : Variable → Table → Clause → Table
set_literals_over v t [] = t
set_literals_over v t (l ∷ c) =
    set_literals_over v
      (if variable_of l == v then set_value t (variable_of l) (not (is_negated l)) else t) c

unfoldable pub visit_eliminated : Variable → Table → Clause → Table
visit_eliminated v t c = if clause_is_satisfied t c then t else set_literals_over v t c

-- The visitor for a blocked clause: an unsatisfied clause sets the blocking literal.
unfoldable pub visit_blocked : Literal → Table → Clause → Table
visit_blocked l t c =
    if clause_is_satisfied t c then t else set_value t (variable_of l) (not (is_negated l))

-- What the replay changes: the table and the variables never to be exposed.
pub record Replay : Type 0 where
  pub table : Table
  pub internal_only : List Variable

unfoldable pub apply_extension_record : List Literal → Replay → ExtensionRecord → Replay
apply_extension_record witness r (factor_transformation v begin end) = record r {
  internal_only = v ∷ r.internal_only;
}
apply_extension_record witness r (bve_elimination v begin end) = record r {
  table =
      for_each_witness_clause (visit_eliminated v) witness begin end (set_value r.table v false);
}
apply_extension_record witness r (bce_blocking l begin end) = record r {
  table = for_each_witness_clause (visit_blocked l) witness begin end r.table;
}

-- The loop over the records, from the last to the first.
unfoldable pub replay_records : List Literal → List ExtensionRecord → Replay → Replay
replay_records witness [] r = r
replay_records witness (e ∷ es) r = apply_extension_record witness (replay_records witness es r) e

-- `load_values_from_initial_model`
unfoldable pub highest_variable : ℕ → List Literal → ℕ
highest_variable n [] = n
highest_variable n (l ∷ ls) =
    highest_variable (if ltb n (variable_of l) then variable_of l else n) ls

unfoldable pub load_literals : Table → List Literal → Table
load_literals t [] = t
load_literals t (l ∷ ls) =
    load_literals
      (record {
        values = set t.values (variable_of l) (not (is_negated l));
        present = set t.present (variable_of l) true;
      })
      ls

unfoldable pub load_values : List Literal → Table
unfolding highest_variable load_literals
load_values model =
    let slots = highest_variable 0 model + 1 in
    load_literals (record { values = replicate slots false; present = replicate slots false }) model

abbrev pub contains : List ℕ → ℕ → Bool
contains [] v = false
contains (x ∷ xs) v = x == v || contains xs v

-- The last loop of `reconstruct_full_model`, over the indices from `index`.
unfoldable pub collect_model : Replay → ℕ → ℕ → List Literal
collect_model r index zero = []
collect_model r index (suc rounds) =
    let rest = collect_model r (index + 1) rounds in
    if not (get_or r.table.present index false)
    then rest
    else if contains r.internal_only index
    then rest
    else literal index (not (get_or r.table.values index false)) ∷ rest

unfoldable pub reconstruct_full_model : Extension → List Variable → List Literal → List Literal
unfolding load_values replay_records collect_model
reconstruct_full_model e internal_only model =
    let r =
      replay_records e.witness_literals e.records
        (record { table = load_values model; internal_only = internal_only }) in
    collect_model r 1 (length r.table.values - 1)

unfoldable pub drop_internal_only : List Variable → List Literal → List Literal
drop_internal_only internal_only [] = []
drop_internal_only internal_only (l ∷ ls) =
    let rest = drop_internal_only internal_only ls in
    if contains internal_only (variable_of l) then rest else l ∷ rest
