-- ===== src/Lib.antt =====
-- A verification library for kmx-sat, a CDCL satisfiability solver in C++ (source/library).
--
-- The solver searches with a trail of assigned literals, propagates clauses, analyzes conflicts into
-- learned clauses, backjumps and restarts; it simplifies the formula by eliminating variables, which a
-- stack of extension records undoes in the model; it journals proofs, which checkers replay. Each
-- module here stands for one part, with its state as a record and one function per operation, and its
-- children prove what the part promises:
--
--   Literal         api/kmx/sat/literal.hpp, variable.hpp: literals as 32-bit words. Literal.Meaning
--                   says what clauses mean under an assignment; the other parts are held against it.
--   Analyzer        cdcl/conflict_analyzer: the resolution loop to the first unique implication
--                   point (`analyze_via_resolution`), and in Analyzer.Levels `analyze`.
--                   The marks are kept in Analyzer.Marking and Analyzer.Invariant, the walk along
--                   the trail in Analyzer.Search, the loop in Analyzer.Live and Analyzer.Learned. Kept
--                   and Backjump are about what `analyze` keeps of the clause and of its levels, which
--                   Guidance puts together.
--   SolverCore      cdcl/solver_core, cdcl/watch.hpp: the search state and propagation over the
--                   watch lists. SolverCore.Setup builds the lists, decides and reads the model,
--                   SolverCore.Backjump unwinds, SolverCore.Learn adds a clause, and SolverCore.Run
--                   composes them as the steps of `run_search`. Trail, Watching and Propagated below
--                   it say what agrees; Replacement, Rewatch and MoveWatch are about the writes of
--                   propagation to clauses and lists, Scanning, Writes, Visiting, Visited, Scan, Turn
--                   and Propagation about its loops, Fixpoint and Decide about its result, Attach and
--                   Rebuilt about the rebuild, Cut, Restore, Rollback and Backtracked about
--                   backtracking, Added and Learned about learned clauses.
--   VarHeap         cdcl/var_heap: the heap of branching candidates, which backtracking fills. Order
--                   and Placed say what its order and positions are, SiftUp and SiftDown are about
--                   its loops, Candidates and Popped about what enters and leaves it, Unwound about
--                   backtracking.
--   Assignment      cdcl/store/assignment: values, reasons and levels by variable, dense and sparse.
--   Backtrack       cdcl/trail, cdcl/stack/decision_frame, cdcl/engine/backtrack: unwinding.
--   Propagator      cdcl/propagator: the watch registry and the queue of staged conflicts.
--   VariableMapper  cdcl/variable_mapper: external and internal variables.
--   Restart         cdcl/controller/restart: the schedules and the Luby sequence.
--   Bve             simplify/eliminator/variable/bounded: resolution and the limits of elimination.
--   Extension       cdcl/stack/extension, cdcl/extension_record.hpp: the records of what was removed.
--   Reconstruct     cdcl/model_reconstructor: the records replayed over a model.
--   Lrat            proof/checker/lrat: chains replayed by reverse unit propagation.
--   IdAllocator     proof/clause/id_allocator: proof identities of clause references.
--   OnlineChecker   proof/checker/online: structural events and counters.
--   WitnessChecker  cdcl/witness_checker: models against the clauses.
--   Base, Dict      Shared names, lists over the native numbers, and std::unordered_map as the list
--                   of its entries, whose order stands for the order, left open, of a walk.
--
-- The parts meet where Bve writes Extension records that Reconstruct replays, where Backtrack unwinds
-- the Assignment store with the trail, and where proof identities of IdAllocator are those of Lrat.
--
-- Numbers are the native natural numbers. The wrap-around of 64 bits is written out in Restart and in
-- IdAllocator, that of 32 bits in Literal, in Extension and in VariableMapper; counters that only
-- report are not wrapped. Loops are structural recursion but for four: the outer loop
-- of `propagate` has a turn for each literal to propagate and for each open variable, since a turn takes
-- a literal off the queue and each literal that enters it closes a variable; the resolution loop of Analyzer
-- has as many turns as the trail has literals, and one more, each of them taking a literal off the
-- trail; the loops of the heap move an entry to a lower or to a higher place on each turn; the loops
-- of `luby_multiplier` have 24 steps, which the exponent bounds.
--
-- A clause database and the callbacks of conflict analysis are parameters. Left out are the moving
-- averages of the restart controller, which are floating-point numbers, raw arenas, threads, files,
-- tracers and telemetry. Of the search core, its own conflict analysis with minimization, probing,
-- walks and inprocessing are left out; its branching heap is a parameter of SolverCore.Backjump, which
-- VarHeap fills, and no relocation of clauses is pending. Of the heap, the scores are a parameter, and
-- the bumps that compute with them are left out.
pub mod Base
pub mod Dict
pub mod Literal
pub mod Lrat
pub mod Extension
pub mod Reconstruct
pub mod Bve
pub mod Assignment
pub mod Backtrack
pub mod Propagator
pub mod VariableMapper
pub mod Restart
pub mod Analyzer
pub mod IdAllocator
pub mod OnlineChecker
pub mod WitnessChecker
pub mod SolverCore
pub mod VarHeap
