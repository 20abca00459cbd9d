-- ===== src/VariableMapper/Mapping.antt =====
-- The bijection of external and internal variables, and literals there and back
-- (source/library/src/kmx/sat/cdcl/variable_mapper.cpp).
use native.Mathlib.Nat.{mod-eq_of_lt}
use kmx_sat.Base.{◌+◌, ◌%◌, ◌^◌, ◌<◌, ◌≡◌, refl, ap, ◌∙◌, inl, inr, some, arith, Option-cases}
use kmx_sat.Dict.{find, find-insert}
use kmx_sat.Literal.{Variable, Literal, literal, variable_of, is_negated}
use kmx_sat.Literal.Encoding.{literal_round_trip, eq_of_parts}
use kmx_sat.VariableMapper.{
  VariableMapper, ensure_external_variable, to_internal_literal, to_external_literal,
}

pub record Consistent (s : VariableMapper) : Type 0 where
  pub forward :
      (v i : Variable)
      → find v s.external_to_internal ≡ some i
      → find i s.internal_to_external ≡ some v
  pub backward :
      (i v : Variable)
      → find i s.internal_to_external ≡ some v
      → find v s.external_to_internal ≡ some i
  pub issued : (i v : Variable) → find i s.internal_to_external ≡ some v → i < s.next_internal_index

-- Mapping a variable keeps the bijection, up to the last index of 32 bits, and maps the variable
-- to the internal one returned.
pub ensure_external_variable-Consistent :
    (s : VariableMapper) (v : Variable)
    → Consistent s
    → s.next_internal_index + 1 < 2 ^ 32
    → Consistent (ensure_external_variable s v).1
      × (find v (ensure_external_variable s v).1.external_to_internal
          ≡ some (ensure_external_variable s v).0)
unfolding ensure_external_variable
ensure_external_variable-Consistent s v c range =
    elim (Option-cases (find v s.external_to_internal)) [
      | inr (internal, old) ↦ rw (old, ensure_external_variable) (c, old)
      | inl new ↦
          let next = s.next_internal_index in
          let wrapped : (next + 1) % 2 ^ 32 ≡ next + 1 = mod-eq_of_lt range in
          rw (new, wrapped, ensure_external_variable)
            (
              record {
                forward = λ w i e.
                    (ground (
                      arith,
                      find-insert v w next s.external_to_internal,
                      find-insert next i v s.internal_to_external,
                      c.forward w i,
                      c.issued i w,
                    ));
                backward = λ i w e.
                    (ground (
                      arith,
                      find-insert v w next s.external_to_internal,
                      find-insert next i v s.internal_to_external,
                      c.backward i w,
                    ));
                issued = λ i w e.
                    (ground (arith, find-insert next i v s.internal_to_external, c.issued i w));
              },
              ground (arith, find-insert v v next s.external_to_internal),
            )
    ]

external_of :
    (s : VariableMapper) (l : Literal) (v : Variable)
    → find (variable_of l) s.internal_to_external ≡ some v
    → to_external_literal s l ≡ literal v (is_negated l)
unfolding to_external_literal
external_of s l v e = rw (e, to_external_literal) refl

-- Where the maps are inverse, a literal of a mapped variable goes to its internal literal and back, where both indices fit the
-- 31 bits of a literal.
pub external-internal :
    (s : VariableMapper) (l : Literal) (internal : Variable)
    → Consistent s
    → find (variable_of l) s.external_to_internal ≡ some internal
    → internal < 2 ^ 31
    → variable_of l < 2 ^ 31
    → to_external_literal s (to_internal_literal s l) ≡ l
unfolding to_internal_literal to_external_literal
external-internal s l internal c mapped small_internal small =
    let inside = literal_round_trip internal (is_negated l) small_internal in
    let back = literal_round_trip (variable_of l) (is_negated l) small in
    let inverse = c.forward (variable_of l) internal mapped in
    let going : to_internal_literal s l ≡ literal internal (is_negated l) =
      rw (mapped, to_internal_literal) refl in
    let coming : to_external_literal s (literal internal (is_negated l))
        ≡ literal (variable_of l) (is_negated l) =
      external_of s (literal internal (is_negated l)) (variable_of l)
        (ap (λ v. find v s.internal_to_external) inside.0 ∙ inverse)
      ∙ ap (literal (variable_of l)) inside.1 in
    ap (to_external_literal s) going
    ∙ coming
    ∙ eq_of_parts (literal (variable_of l) (is_negated l)) l back.0 back.1
