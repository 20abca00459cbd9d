-- ===== src/IdAllocator/Bijection.antt =====
-- The bijection of identities and references
-- (source/library/src/kmx/sat/proof/clause/id_allocator.cpp).
use native.Mathlib.Nat.{mod-eq_of_lt}
use kmx_sat.Base.{
  ℕ, ◌+◌, ◌%◌, ◌^◌, ◌<◌, ◌≡◌, inl, inr, false, none, some, arith, ◌==◌, Bool-cases, Option-cases,
}
use kmx_sat.Dict.{find, insert, erase, IsMap, find-insert, find-erase, insert-IsMap, erase-IsMap}
use kmx_sat.Assignment.{Ref}
use kmx_sat.Lrat.{ClauseId, valid}
use kmx_sat.IdAllocator.{
  IdAllocator, allocate_for_new_clause, preserve_on_relocation, taken, retire_on_delete,
}

pub record Bijective (a : IdAllocator) : Type 0 where
  pub refs : IsMap a.ref_to_id
  pub ids : IsMap a.id_to_ref
  pub forward : (k : ℕ) (i : ClauseId) → find k a.ref_to_id ≡ some i → find i a.id_to_ref ≡ some k
  pub backward : (i : ClauseId) (k : ℕ) → find i a.id_to_ref ≡ some k → find k a.ref_to_id ≡ some i
  pub issued : (i : ClauseId) (k : ℕ) → find i a.id_to_ref ≡ some k → i < a.next_id

allocate-new :
    (a : IdAllocator) (key : ℕ)
    → Bijective a
    → a.next_id + 1 < 2 ^ 64
    → find key a.ref_to_id ≡ none
    → Bijective (allocate_for_new_clause a (some key)).1
unfolding allocate_for_new_clause
allocate-new a key b range new =
    let next : (a.next_id + 1) % 2 ^ 64 ≡ a.next_id + 1 = mod-eq_of_lt range in
    rw (new, next, allocate_for_new_clause)
      (record {
        refs = insert-IsMap key a.next_id a.ref_to_id b.refs;
        ids = insert-IsMap a.next_id key a.id_to_ref b.ids;
        forward = λ k i e.
            (ground (
              arith,
              find-insert key k a.next_id a.ref_to_id,
              find-insert a.next_id i key a.id_to_ref,
              b.forward k i,
              b.issued i k,
            ));
        backward = λ i k e.
            (ground (
              arith,
              find-insert key k a.next_id a.ref_to_id,
              find-insert a.next_id i key a.id_to_ref,
              b.backward i k,
            ));
        issued = λ i k e. (ground (arith, find-insert a.next_id i key a.id_to_ref, b.issued i k));
      })

-- While the counter of identities stays in 64 bits, giving a clause its identity keeps the
-- bijection of identities and references, with every identity in it below the counter.
pub allocate_for_new_clause-Bijective :
    (a : IdAllocator) (ref : Ref)
    → Bijective a
    → a.next_id + 1 < 2 ^ 64
    → Bijective (allocate_for_new_clause a ref).1
unfolding allocate_for_new_clause
allocate_for_new_clause-Bijective a none b range = b
allocate_for_new_clause-Bijective a (some key) b range =
    elim (Option-cases (find key a.ref_to_id)) [
      | inl new ↦ allocate-new a key b range new
      | inr (id, old) ↦ rw (old, allocate_for_new_clause) b
    ]

relocate-moved :
    (a : IdAllocator) (old_key new_key : ℕ) (moved : ClauseId)
    → Bijective a
    → (old_key == new_key) ≡ false
    → find old_key a.ref_to_id ≡ some moved
    → find new_key a.ref_to_id ≡ none
    → Bijective (record a {
      ref_to_id = insert new_key moved (erase old_key a.ref_to_id);
      id_to_ref = insert moved new_key a.id_to_ref;
      active_ids = insert moved tt a.active_ids;
    })
relocate-moved a old_key new_key moved b differ held vacant =
    let on = b.forward old_key moved held in
    record {
      refs =
          insert-IsMap new_key moved (erase old_key a.ref_to_id)
            (erase-IsMap old_key a.ref_to_id b.refs);
      ids = insert-IsMap moved new_key a.id_to_ref b.ids;
      forward = λ k i e.
          (ground (
            arith,
            find-insert new_key k moved (erase old_key a.ref_to_id),
            find-erase old_key k a.ref_to_id b.refs,
            find-insert moved i new_key a.id_to_ref,
            b.forward k i,
            on,
          ));
      backward = λ i k e.
          (ground (
            arith,
            find-insert new_key k moved (erase old_key a.ref_to_id),
            find-erase old_key k a.ref_to_id b.refs,
            find-insert moved i new_key a.id_to_ref,
            b.backward i k,
            held,
            vacant,
          ));
      issued = λ i k e.
          (ground (
            arith,
            find-insert moved i new_key a.id_to_ref,
            b.issued i k,
            b.issued moved old_key on,
          ));
    }

-- Relocation from one reference to another keeps the bijection, on every branch.
pub preserve_on_relocation-Bijective :
    (a : IdAllocator) (old_ref new_ref : Ref)
    → Bijective a
    → Bijective (preserve_on_relocation a old_ref new_ref)
unfolding preserve_on_relocation
preserve_on_relocation-Bijective a none new_ref b = b
preserve_on_relocation-Bijective a (some old_key) none b = b
preserve_on_relocation-Bijective a (some old_key) (some new_key) b =
    elim (Bool-cases (old_key == new_key)) [
      | inl same ↦ rw same b
      | inr differ ↦ elim (Option-cases (find old_key a.ref_to_id)) [
        | inl unknown ↦ rw (differ, unknown) b
        | inr (moved, held) ↦ elim (Bool-cases (taken a new_key moved)) [
          | inl other ↦ rw (differ, held, other) b
          | inr free ↦ elim (Option-cases (find new_key a.ref_to_id)) [
            | inl vacant ↦
                rw (differ, held, free)
                  (relocate-moved a old_key new_key moved b differ held vacant)
            | inr (id, full) ↦ absurd (
                let first = b.forward old_key moved held in
                let second = b.forward new_key id full in
                ground (arith, first, second, free, full, differ))
          ]
        ]
      ]
    ]

retire-known :
    (a : IdAllocator) (id : ClauseId) (key : ℕ)
    → Bijective a
    → find id a.id_to_ref ≡ some key
    → Bijective (record a {
      ref_to_id = erase key a.ref_to_id;
      id_to_ref = erase id a.id_to_ref;
      active_ids = erase id a.active_ids;
    })
retire-known a id key b held =
    let on = b.backward id key held in
    record {
      refs = erase-IsMap key a.ref_to_id b.refs;
      ids = erase-IsMap id a.id_to_ref b.ids;
      forward = λ k i e.
          (ground (
            arith,
            find-erase key k a.ref_to_id b.refs,
            find-erase id i a.id_to_ref b.ids,
            b.forward k i,
            held,
          ));
      backward = λ i k e.
          (ground (
            arith,
            find-erase key k a.ref_to_id b.refs,
            find-erase id i a.id_to_ref b.ids,
            b.backward i k,
            on,
          ));
      issued = λ i k e. (ground (arith, find-erase id i a.id_to_ref b.ids, b.issued i k));
    }

-- Retiring an identity, known or not, keeps the bijection.
pub retire_on_delete-Bijective :
    (a : IdAllocator) (id : ClauseId) → Bijective a → Bijective (retire_on_delete a id)
unfolding retire_on_delete
retire_on_delete-Bijective a id b = elim (Bool-cases (valid id)) [
  | inr invalid ↦ rw invalid b
  | inl known ↦ elim (Option-cases (find id a.id_to_ref)) [
    | inl gone ↦
        rw (known, gone)
          (record {
            refs = b.refs;
            ids = b.ids;
            forward = b.forward;
            backward = b.backward;
            issued = b.issued;
          })
    | inr (key, held) ↦ rw (known, held) (retire-known a id key b held)
  ]
]
