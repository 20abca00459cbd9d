-- ===== src/Reconstruct/Witness.antt =====
-- The witness clauses of a record, written by `append_witness_clause`
-- (source/library/inc/kmx/sat/cdcl/stack/extension.hpp) and read back by
-- `for_each_witness_clause` (source/library/inc/kmx/sat/cdcl/model_reconstructor.hpp).
use native.Mathlib.Nat.{mod-eq_of_lt}
use kmx_sat.Base.{
  ℕ, ◌+◌, ◌-◌, ◌%◌, ◌^◌, ◌≤◌, ◌<◌, ◌≡◌, refl, ap, sym, ◌∙◌, inl, inr, true, false, List, [], ◌∷◌,
  ◌++◌, arith, append_assoc, append-nil, ltb, ◌==◌, Bool-cases, All, length, length-append, get_or,
  take, drop,
}
use kmx_sat.Literal.{Literal, no_literal}
use kmx_sat.Literal.Meaning.{Clause}
use kmx_sat.Extension.{Extension, witness_mark, append_witness_clause}
use kmx_sat.Reconstruct.{visit_range, for_each_witness_clause}

-- No literal of the clause reads as the closing mark.
abbrev pub IsEncodable : Clause → Type 0
IsEncodable c = All (λ (l : Literal). (l.raw == 0) ≡ false) c

-- The clauses, appended in order.
abbrev pub append_all : Extension → List Clause → Extension
append_all e [] = e
append_all e (c ∷ cs) = append_all (append_witness_clause e c) cs

abbrev pub encoded : List Clause → List Literal
encoded [] = []
encoded (c ∷ cs) = (c ++ no_literal ∷ []) ++ encoded cs

abbrev pub fold {ℓ} : {S : Type ℓ} → (S → Clause → S) → S → List Clause → S
fold f s [] = s
fold f s (c ∷ cs) = fold f (f s c) cs

-- The visits, read off the literals themselves.
split_visit {ℓ} : {S : Type ℓ} → (S → Clause → S) → Clause → List Literal → S → S
split_visit f seen [] s = s
split_visit f seen (l ∷ ls) s = elim (l.raw == 0) [
  | true ↦ split_visit f [] ls (f s seen)
  | false ↦ split_visit f (seen ++ l ∷ []) ls s
]

get_or-middle {ℓ} :
    {A : Type ℓ} (xs ys : List A) (y d : A) → get_or (xs ++ y ∷ ys) (length xs) d ≡ y
get_or-middle [] ys y d = refl
get_or-middle (x ∷ xs) ys y d = get_or-middle xs ys y d

take-drop-middle {ℓ} :
    {A : Type ℓ} (xs ys zs : List A) → take (length ys) (drop (length xs) (xs ++ (ys ++ zs))) ≡ ys
take-drop-middle [] [] zs = refl
take-drop-middle [] (y ∷ ys) zs = ap (◌∷◌ y) (take-drop-middle [] ys zs)
take-drop-middle (x ∷ xs) ys zs = take-drop-middle xs ys zs

visit_range-eq-split {ℓ} :
    {S : Type ℓ} (f : S → Clause → S) (w before seen range after : List Literal) (b i : ℕ) (s : S)
    → w ≡ before ++ (seen ++ (range ++ after))
    → b ≡ length before
    → i ≡ length before + length seen
    → visit_range f w b i (length range) s ≡ split_visit f seen range s
unfolding visit_range split_visit
visit_range-eq-split f w before seen [] after b i s e eb ei = refl
visit_range-eq-split f w before seen (l ∷ range) after b i s e eb ei =
    let at : get_or w i no_literal ≡ l =
      rw (e, ei, ← append_assoc before seen (l ∷ (range ++ after)), ← length-append before seen)
        (get_or-middle (before ++ seen) (range ++ after) l no_literal) in
    let size : i - b ≡ length seen = omega arith in
    let cut : take (i - b) (drop b w) ≡ seen =
      rw (size, e, eb) (take-drop-middle before seen (l ∷ (range ++ after))) in
    let grown = length-append before (seen ++ l ∷ []) in
    let one = length-append seen (l ∷ []) in
    elim (Bool-cases (l.raw == 0)) [
      | inl close ↦
          rw (at, close, cut, visit_range, split_visit)
            (visit_range-eq-split f w (before ++ (seen ++ l ∷ [])) [] range after (i + 1) (i + 1)
              (f s seen) (e ∙ simp append_assoc) (omega (arith, grown, one))
              (omega (arith, grown, one)))
      | inr more ↦
          rw (at, more, visit_range, split_visit)
            (visit_range-eq-split f w before (seen ++ l ∷ []) range after b (i + 1) s
              (e ∙ simp append_assoc) eb (omega (arith, one)))
    ]

split_visit-encoded_clause {ℓ} :
    {S : Type ℓ} (f : S → Clause → S) (seen c : Clause) (rest : List Literal) (s : S)
    → IsEncodable c
    → split_visit f seen (c ++ no_literal ∷ rest) s ≡ split_visit f [] rest (f s (seen ++ c))
unfolding split_visit
split_visit-encoded_clause f seen [] rest s h = rw (append-nil seen) refl
split_visit-encoded_clause f seen (l ∷ c) rest s h =
    rw (h.0, split_visit)
      (split_visit-encoded_clause f (seen ++ l ∷ []) c rest s h.1
        ∙ rw (append_assoc seen (l ∷ []) c) refl)

split_visit-encoded {ℓ} :
    {S : Type ℓ} (f : S → Clause → S) (cs : List Clause) (s : S)
    → All IsEncodable cs
    → split_visit f [] (encoded cs) s ≡ fold f s cs
unfolding split_visit
split_visit-encoded f [] s h = refl
split_visit-encoded f (c ∷ cs) s h =
    rw (append_assoc c (no_literal ∷ []) (encoded cs))
      (split_visit-encoded_clause f [] c (encoded cs) s h.0 ∙ split_visit-encoded f cs (f s c) h.1)

witness-append_all :
    (e : Extension) (cs : List Clause)
    → (append_all e cs).witness_literals ≡ e.witness_literals ++ encoded cs
unfolding append_witness_clause
witness-append_all e [] = sym (append-nil e.witness_literals)
witness-append_all e (c ∷ cs) =
    witness-append_all (append_witness_clause e c) cs ∙ simp append_assoc

pub records-append_all : (e : Extension) (cs : List Clause) → (append_all e cs).records ≡ e.records
unfolding append_witness_clause
records-append_all e [] = refl
records-append_all e (c ∷ cs) = records-append_all (append_witness_clause e c) cs

for_each_inside {ℓ} :
    {S : Type ℓ} (f : S → Clause → S) (w : List Literal) (b e n : ℕ) (s : S)
    → e ≤ length w
    → e ≡ b + n
    → for_each_witness_clause f w b e s ≡ visit_range f w b b n s
unfolding for_each_witness_clause
for_each_inside f w b e n s inside size = elim (Bool-cases (ltb e (length w))) [
  | inl short ↦ let rounds : e - b ≡ n = omega arith in rw (short, rounds) refl
  | inr whole ↦ let rounds : length w - b ≡ n = ground arith in rw (whole, rounds) refl
]

-- Where no clause that was appended between the two marks of a record has the literal of raw value
-- 0, with which a clause is closed, and the vector of witness literals is below 2 ^ 32 at the second
-- mark, reading the record's range visits exactly those clauses, in order, whatever is appended later.
pub for_each-append_all {ℓ} :
    {S : Type ℓ} (f : S → Clause → S) (e : Extension) (cs : List Clause) (later : List Literal)
    (s : S)
    → All IsEncodable cs
    → length (append_all e cs).witness_literals < 2 ^ 32
    → for_each_witness_clause f
        ((append_all e cs).witness_literals ++ later)
        (witness_mark e)
        (witness_mark (append_all e cs))
        s
      ≡ fold f s cs
unfolding witness_mark
for_each-append_all f e cs later s h fits =
    let w = witness-append_all e cs in
    let size = ap length w ∙ length-append e.witness_literals (encoded cs) in
    let whole = length-append (append_all e cs).witness_literals later in
    let low : length e.witness_literals % 2 ^ 32 ≡ length e.witness_literals =
      mod-eq_of_lt (omega arith) in
    let high : length (append_all e cs).witness_literals % 2 ^ 32
        ≡ length (append_all e cs).witness_literals =
      mod-eq_of_lt fits in
    rw (low, high)
      (for_each_inside f ((append_all e cs).witness_literals ++ later) (length e.witness_literals)
          (length (append_all e cs).witness_literals) (length (encoded cs)) s (omega arith)
          (omega arith)
        ∙ visit_range-eq-split f _ e.witness_literals [] (encoded cs) later _ _ s
            (ap (λ x. x ++ later) w ∙ append_assoc e.witness_literals (encoded cs) later) refl
            (omega arith)
        ∙ split_visit-encoded f cs s h)
