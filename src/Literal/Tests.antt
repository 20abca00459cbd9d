-- ===== src/Literal/Tests.antt =====
-- Literals at concrete words.
use kmx_sat.Base.{◌+◌, ◌≡◌, refl, true, not, arith}
use kmx_sat.Literal.{literal, variable_of, is_negated, negated}
use kmx_sat.Literal.Encoding.{literal_round_trip}

-- The shift drops the top bit of an index.
literal_wraps : literal (2147483648 + 5) true ≡ literal 5 true
unfolding literal
literal_wraps = refl

literal_round_trip_example :
    (variable_of (literal 7 true) ≡ 7)
    × (is_negated (literal 7 true) ≡ true)
    × (negated (literal 7 true) ≡ literal 7 (not true))
literal_round_trip_example = literal_round_trip 7 true (omega arith)
