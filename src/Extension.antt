-- ===== src/Extension.antt =====
-- The extension stack (source/library/inc/kmx/sat/cdcl/extension_record.hpp and
-- source/library/inc/kmx/sat/cdcl/stack/extension.hpp): the journal of the transformations that
-- model reconstruction reverses, with the witness clauses in one vector of literals.
use kmx_sat.Base.{ℕ, ◌%◌, ◌^◌, List, [], ◌∷◌, ◌++◌, length}
use kmx_sat.Literal.{Variable, Literal, no_literal}
use kmx_sat.Literal.Meaning.{Clause}

-- `extension_record`, with the ends of its range of witness literals.
pub data ExtensionRecord : Type 0 where
  bve_elimination : (eliminated : Variable) (witness_begin witness_end : ℕ) → ExtensionRecord
  bce_blocking : (blocking : Literal) (witness_begin witness_end : ℕ) → ExtensionRecord
  factor_transformation : (introduced : Variable) (witness_begin witness_end : ℕ) → ExtensionRecord

pub record Extension : Type 0 where
  pub records : List ExtensionRecord
  pub witness_literals : List Literal

abbrev pub empty : Extension
empty = record { records = []; witness_literals = [] }

unfoldable pub push_bve_record : Extension → ExtensionRecord → Extension
push_bve_record e entry = record e { records = e.records ++ entry ∷ [] }

unfoldable pub push_bce_record : Extension → ExtensionRecord → Extension
push_bce_record e entry = record e { records = e.records ++ entry ∷ [] }

unfoldable pub push_factor_record : Extension → ExtensionRecord → Extension
push_factor_record e entry = record e { records = e.records ++ entry ∷ [] }

-- The cast of the size to 32 bits.
unfoldable pub witness_mark : Extension → ℕ
witness_mark e = length e.witness_literals % 2 ^ 32

-- A clause is closed by the literal of raw value 0.
unfoldable pub append_witness_clause : Extension → Clause → Extension
append_witness_clause e c = record e {
  witness_literals = (e.witness_literals ++ c) ++ no_literal ∷ [];
}

unfoldable pub push_bve_elimination : Extension → Variable → ℕ → Extension
unfolding witness_mark
push_bve_elimination e v mark = record e {
  records = e.records ++ bve_elimination v mark (witness_mark e) ∷ [];
}

unfoldable pub push_bce_blocking : Extension → Literal → ℕ → Extension
unfolding witness_mark
push_bce_blocking e l mark = record e {
  records = e.records ++ bce_blocking l mark (witness_mark e) ∷ [];
}

unfoldable pub push_factor_transformation : Extension → Variable → ℕ → Extension
unfolding witness_mark
push_factor_transformation e v mark = record e {
  records = e.records ++ factor_transformation v mark (witness_mark e) ∷ [];
}

pub clear_epoch_local : Extension → Extension
clear_epoch_local e = empty

pub clear_all : Extension → Extension
clear_all e = empty
