-- ===== src/VariableMapper/Tests.antt =====
-- A mapper that has seen one variable.
use kmx_sat.Base.{◌^◌, ◌≡◌, refl, arith, some, []}
use kmx_sat.Dict.{find}
use kmx_sat.Literal.{Literal, variable_of}
use kmx_sat.VariableMapper.{
  VariableMapper, ensure_external_variable, to_internal_literal, to_external_literal,
}
use kmx_sat.VariableMapper.Mapping.{
  Consistent, ensure_external_variable-Consistent, external-internal,
}

abbrev unmapped : VariableMapper
unmapped = record {
  external_to_internal = [];
  internal_to_external = [];
  inactive_variables = [];
  eliminated_variables = [];
  next_internal_index = 2 ^ 30;
}

unmapped-Consistent : Consistent unmapped
unmapped-Consistent = record {
  forward = λ v i e. absurd cc;
  backward = λ i v e. absurd cc;
  issued = λ i v e. absurd cc;
}

ensure_external_variable-Consistent_example :
    Consistent (ensure_external_variable unmapped 6).1
    × (find 6 (ensure_external_variable unmapped 6).1.external_to_internal
        ≡ some (ensure_external_variable unmapped 6).0)
ensure_external_variable-Consistent_example =
    ensure_external_variable-Consistent unmapped 6 unmapped-Consistent (omega arith)

abbrev negative : Literal
negative = record { raw = 13 }

external-internal_example :
    to_external_literal
      (ensure_external_variable unmapped 6).1
      (to_internal_literal (ensure_external_variable unmapped 6).1 negative)
    ≡ negative
unfolding ensure_external_variable variable_of
external-internal_example =
    external-internal (ensure_external_variable unmapped 6).1 negative (2 ^ 30)
      (ensure_external_variable-Consistent unmapped 6 unmapped-Consistent (omega arith)).0 refl
      (omega arith) (omega arith)
