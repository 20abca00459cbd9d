-- ===== src/Literal.antt =====
-- Literals and variables (source/library/api/kmx/sat/literal.hpp, variable.hpp): a literal is
-- a 32-bit word, the variable's index shifted left by one, with the sign in the low bit.
pub mod Encoding
pub mod Meaning
mod Tests
use kmx_sat.Base.{ℕ, ◌+◌, ◌-◌, ◌*◌, ◌/◌, ◌%◌, ◌^◌, Bool, true, false, ◌==◌, if◌then◌else◌}

-- `variable`: its index, a 32-bit word.
abbrev pub Variable : Type 0
Variable = ℕ

pub record Literal : Type 0 where
  pub raw : ℕ

-- `literal {}`
abbrev pub no_literal : Literal
no_literal = record { raw = 0 }

-- `literal (variable, bool)`: the shift drops what leaves the 32 bits.
unfoldable pub literal : Variable → Bool → Literal
literal index negated = record { raw = (index * 2 + (if negated then 1 else 0)) % 2 ^ 32 }

unfoldable pub variable_of : Literal → Variable
variable_of l = l.raw / 2

unfoldable pub is_negated : Literal → Bool
is_negated l = l.raw % 2 == 1

-- `raw_ ^ 1u`: the low bit is flipped.
unfoldable pub negated : Literal → Literal
negated l = record { raw = if l.raw % 2 == 0 then l.raw + 1 else l.raw - 1 }
