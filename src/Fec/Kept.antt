-- ===== src/Fec/Kept.antt =====
-- What reconstructInternal leaves alone.
use shredstream_sdk_go.Prelude.{
  ℕ, zero, suc, ◌+◌, ◌<◌, ◌≡◌, ◌≢◌, refl, ap, subst, ◌∙◌, List, [], ◌∷◌, Bool, true, false, some,
  ltb, Bool-cases, inl, inr, length, set, length-set, get_elem?, arith, All,
}
use shredstream_sdk_go.Matrix.{Matrix}
use shredstream_sdk_go.Fec.{ReedSolomon}
use shredstream_sdk_go.Fec.Reconstruct.{
  invalid_indices, below, from, write_shards, recode, fill_data, fill_parity, fill,
}

get_elem?-set_other :
    {A : Type 0} (xs : List A) (i j : ℕ) (v : A) → i ≢ j → get_elem? (set xs i v) j ≡ get_elem? xs j
get_elem?-set_other [] i j v h = refl
get_elem?-set_other (x ∷ xs) zero zero v h = absurd (h refl)
get_elem?-set_other (x ∷ xs) zero (suc j) v h = refl
get_elem?-set_other (x ∷ xs) (suc i) zero v h = refl
get_elem?-set_other (x ∷ xs) (suc i) (suc j) v h = get_elem?-set_other xs i j v (λ e. h (ap suc e))

-- The two agree in their lengths and at the shard `j`.
abbrev pub Agree : ℕ → List (List ℕ) → List (List ℕ) → Type 0
Agree j new old = (length new ≡ length old) × (get_elem? new j ≡ get_elem? old j)

abbrev Other : ℕ → ℕ → Type 0
Other j i = i ≢ j

write_shards-Agree :
    (j : ℕ) (is : List ℕ) (slices shards : List (List ℕ))
    → All (Other j) is
    → Agree j (write_shards is slices shards) shards
unfolding write_shards
write_shards-Agree j [] slices shards h = (refl, refl)
write_shards-Agree j (i ∷ is) [] shards h = (refl, refl)
write_shards-Agree j (i ∷ is) (s ∷ slices) shards (other, h) =
    let (len, same) = write_shards-Agree j is slices (set shards i s) h in
    (len ∙ length-set shards i s, same ∙ get_elem?-set_other shards i j s other)

below-Other : (j n : ℕ) (is : List ℕ) → All (Other j) is → All (Other j) (below n is)
unfolding below
below-Other j n [] h = tt
below-Other j n (i ∷ is) (other, h) = elim (Bool-cases (ltb i n)) [
  | inl low ↦ ground (arith, below-Other j n is h)
  | inr high ↦ ground arith
]

from-Other : (j n : ℕ) (is : List ℕ) → All (Other j) is → All (Other j) (from n is)
unfolding from
from-Other j n [] h = tt
from-Other j n (i ∷ is) (other, h) = elim (Bool-cases (ltb i n)) [
  | inl low ↦ ground (arith, from-Other j n is h)
  | inr high ↦ ground (arith, from-Other j n is h)
]

invalid_indices-Other_below :
    (j i : ℕ) (present : List Bool) → j < i → All (Other j) (invalid_indices i present)
unfolding invalid_indices
invalid_indices-Other_below j i [] h = tt
invalid_indices-Other_below j i (true ∷ present) h =
    invalid_indices-Other_below j (suc i) present (omega arith)
invalid_indices-Other_below j i (false ∷ present) h =
    (λ e. absurd (omega arith), invalid_indices-Other_below j (suc i) present (omega arith))

invalid_indices-Other :
    (j i : ℕ) (present : List Bool)
    → get_elem? present j ≡ some true
    → All (Other (i + j)) (invalid_indices i present)
unfolding invalid_indices
invalid_indices-Other j i [] h = tt
invalid_indices-Other zero i (true ∷ present) h =
    invalid_indices-Other_below (i + 0) (suc i) present (omega arith)
invalid_indices-Other zero i (false ∷ present) h = absurd cc
invalid_indices-Other (suc j) i (true ∷ present) h =
    let next : suc i + j ≡ i + suc j = omega arith in
    rw next at (invalid_indices-Other j (suc i) present h)
invalid_indices-Other (suc j) i (false ∷ present) h =
    let next : suc i + j ≡ i + suc j = omega arith in
    (λ e. absurd (omega arith), rw next at (invalid_indices-Other j (suc i) present h))

missing-Other :
    (j : ℕ) (present : List Bool)
    → get_elem? present j ≡ some true
    → All (Other j) (invalid_indices 0 present)
missing-Other j present h =
    let same : 0 + j ≡ j = omega arith in
    subst (λ (k : ℕ). All (Other k) (invalid_indices 0 present)) same
      (invalid_indices-Other j 0 present h)

pub fill-Agree :
    (rs : ReedSolomon) (shards : List (List ℕ)) (present : List Bool) (data_only : Bool) (n : ℕ)
    (decode : Matrix) (j : ℕ)
    → get_elem? present j ≡ some true
    → Agree j (fill rs shards present data_only n decode).0 shards
unfolding fill fill_data fill_parity recode
fill-Agree rs shards present true n decode j h =
    write_shards-Agree j _ _ shards
      (below-Other j rs.data_shards (invalid_indices 0 present) (missing-Other j present h))
fill-Agree rs shards present false n decode j h =
    let missing = missing-Other j present h in
    let (len, same) =
      write_shards-Agree j _ _ shards
        (below-Other j rs.data_shards (invalid_indices 0 present) missing) in
    let (len', same') =
      write_shards-Agree j _ _ (fill_data rs shards present n decode)
        (from-Other j rs.data_shards (invalid_indices 0 present) missing) in
    (len' ∙ len, same' ∙ same)
