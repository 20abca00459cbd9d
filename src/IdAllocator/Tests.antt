-- ===== src/IdAllocator/Tests.antt =====
-- The issuer after two clauses.
use kmx_sat.Base.{arith, some}
use kmx_sat.IdAllocator.{
  IdAllocator, fresh_allocator, allocate_for_new_clause, preserve_on_relocation, retire_on_delete,
}
use kmx_sat.IdAllocator.Bijection.{
  Bijective, allocate_for_new_clause-Bijective, preserve_on_relocation-Bijective,
  retire_on_delete-Bijective,
}

start : Bijective fresh_allocator
start = record {
  refs = tt;
  ids = tt;
  forward = λ k i e. absurd cc;
  backward = λ i k e. absurd cc;
  issued = λ i k e. absurd cc;
}

abbrev one_clause : IdAllocator
unfolding allocate_for_new_clause
one_clause = (allocate_for_new_clause fresh_allocator (some 40)).1

allocate_for_new_clause-Bijective_example : Bijective one_clause
unfolding one_clause allocate_for_new_clause
allocate_for_new_clause-Bijective_example =
    allocate_for_new_clause-Bijective fresh_allocator (some 40) start (omega arith)

one_clause-Bijective : Bijective one_clause
unfolding one_clause allocate_for_new_clause
one_clause-Bijective =
    allocate_for_new_clause-Bijective fresh_allocator (some 40) start (omega arith)

preserve_on_relocation-Bijective_example :
    Bijective (preserve_on_relocation one_clause (some 40) (some 80))
preserve_on_relocation-Bijective_example =
    preserve_on_relocation-Bijective one_clause (some 40) (some 80) one_clause-Bijective

retire_on_delete-Bijective_example : Bijective (retire_on_delete one_clause 1)
retire_on_delete-Bijective_example = retire_on_delete-Bijective one_clause 1 one_clause-Bijective
