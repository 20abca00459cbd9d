-- ===== src/Literal/Encoding.antt =====
-- The encoding of literals (source/library/api/kmx/sat/literal.hpp).
use kmx_sat.Base.{◌^◌, ◌<◌, ◌≡◌, Bool, true, false, not, arith}
use kmx_sat.Literal.{Variable, Literal, literal, variable_of, is_negated, negated}

pub variable_of-negated : (l : Literal) → variable_of (negated l) ≡ variable_of l
unfolding variable_of negated
variable_of-negated l = ground arith

pub is_negated-negated : (l : Literal) → is_negated (negated l) ≡ not (is_negated l)
unfolding is_negated negated
is_negated-negated l = ground arith

pub negated-negated : (l : Literal) → negated (negated l) ≡ l
unfolding negated
negated-negated l = ground arith

-- Two literals over one variable are the same or complementary.
pub eq_of_parts :
    (k l : Literal) → variable_of k ≡ variable_of l → is_negated k ≡ is_negated l → k ≡ l
unfolding variable_of is_negated
eq_of_parts k l v s = ground arith

pub negated_of_parts :
    (k l : Literal)
    → variable_of k ≡ variable_of l
    → is_negated k ≡ not (is_negated l)
    → k ≡ negated l
unfolding variable_of is_negated negated
negated_of_parts k l v s = ground arith

-- Encoding and decoding a literal gives back its variable and its sign, and negation flips the
-- sign and keeps the variable, for every variable index below 2 ^ 31.
pub literal_round_trip :
    (v : Variable) (s : Bool)
    → v < 2 ^ 31
    → (variable_of (literal v s) ≡ v)
      × (is_negated (literal v s) ≡ s)
      × (negated (literal v s) ≡ literal v (not s))
unfolding variable_of is_negated literal negated
literal_round_trip v true h = ground arith
literal_round_trip v false h = ground arith
