-- ===== src/Assignment/Slots.antt =====
-- Vectors of slots, by index.
use kmx_sat.Base.{
  ℕ, zero, suc, ◌+◌, ◌-◌, ◌<◌, ◌≡◌, refl, ap, inl, inr, none, some, List, [], ◌∷◌, ◌++◌, arith, ltb,
  leb, ◌==◌, if◌then◌else◌, Bool-cases, leb→le, length, length-append, get_elem?, set, replicate,
}
use kmx_sat.Assignment.{Slot, empty_slot, ensure_capacity, clear_above}

-- A read with the default.
abbrev pub read : List Slot → ℕ → Slot
read slots v = elim (get_elem? slots v) [ none ↦ empty_slot | some s ↦ s ]

read-replicate : (n v : ℕ) → read (replicate n empty_slot) v ≡ empty_slot
read-replicate zero v = refl
read-replicate (suc n) zero = refl
read-replicate (suc n) (suc v) = read-replicate n v

read-grown : (slots : List Slot) (n v : ℕ) → read (slots ++ replicate n empty_slot) v ≡ read slots v
read-grown [] n v = read-replicate n v
read-grown (s ∷ slots) n zero = refl
read-grown (s ∷ slots) n (suc v) = read-grown slots n v

read-set_inside :
    (slots : List Slot) (v w : ℕ) (s : Slot)
    → v < length slots
    → read (set slots v s) w ≡ (if v == w then s else read slots w)
read-set_inside [] v w s h = absurd (omega arith)
read-set_inside (x ∷ slots) zero zero s h = refl
read-set_inside (x ∷ slots) (suc v) (suc w) s h = ground (arith, read-set_inside slots v w s)
read-set_inside (x ∷ slots) v w s h = ground arith

length-replicate : (n : ℕ) → length (replicate n empty_slot) ≡ n
length-replicate zero = refl
length-replicate (suc n) = ap suc (length-replicate n)

-- Writing the default outside the vector, which changes nothing, reads as a write.
pub read-clear :
    (slots : List Slot) (v w : ℕ)
    → read (set slots v empty_slot) w ≡ (if v == w then empty_slot else read slots w)
read-clear [] v w = ground arith
read-clear (x ∷ slots) zero zero = refl
read-clear (x ∷ slots) (suc v) (suc w) = ground (arith, read-clear slots v w)
read-clear (x ∷ slots) v w = ground arith

pub read-set :
    (slots : List Slot) (v w : ℕ) (s : Slot)
    → read (set (ensure_capacity slots v) v s) w ≡ (if v == w then s else read slots w)
read-set slots v w s = elim (Bool-cases (leb (length slots) v)) [
  | inl outside ↦
      let n = v + 1 - length slots in
      let size = length-append slots (replicate n empty_slot) in
      rw outside (
        rw
          (
            read-set_inside (slots ++ replicate n empty_slot) v w s
                (omega (arith, size, length-replicate n, leb→le (length slots) v outside)),
            read-grown slots n w,
          )
          refl)
  | inr inside ↦ rw inside (read-set_inside slots v w s (ground arith))
]

pub read-clear_above :
    (level : ℕ) (slots : List Slot) (v : ℕ)
    → read (clear_above level slots) v ≡ (elim (read slots v).value [
      | none ↦ read slots v
      | some b ↦ if ltb level (read slots v).level then empty_slot else read slots v
    ])
unfolding clear_above
read-clear_above level [] v = refl
read-clear_above level (s ∷ slots) zero = refl
read-clear_above level (s ∷ slots) (suc v) = read-clear_above level slots v
