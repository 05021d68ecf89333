-- ===== src/Fec/Rebuilt.antt =====
-- What a success of reconstructInternal leaves.
use shredstream_sdk_go.Prelude.{
  ℕ, zero, suc, ◌+◌, ◌≤◌, ◌<◌, ◌≡◌, refl, sym, subst, ◌∙◌, List, [], ◌∷◌, Bool, true, false, ◌&&◌,
  some, ltb, ◌==◌, ==_iff, Bool-cases, Option-cases, inl, inr, if◌then◌else◌, length, get_elem?,
  arith,
}
use shredstream_sdk_go.Matrix.{Matrix, inverse}
use shredstream_sdk_go.Fec.{Coded, ok, err, ◌>>=◌, ReedSolomon}
use shredstream_sdk_go.Fec.Reconstruct.{
  measure, mark_present, rows_used, fill, rebuild, reconstruct_internal,
}
use shredstream_sdk_go.Fec.Kept.{Agree, fill-Agree}

get_elem?-mark_present :
    (n i : ℕ) (present : List Bool)
    → i < n
    → i < length present
    → get_elem? (mark_present n present) i ≡ some true
unfolding mark_present
get_elem?-mark_present zero i present h k = absurd (omega arith)
get_elem?-mark_present (suc n) i [] h k = absurd (omega arith)
get_elem?-mark_present (suc n) zero (b ∷ present) h k = refl
get_elem?-mark_present (suc n) (suc i) (b ∷ present) h k =
    get_elem?-mark_present n i present (omega arith) (omega arith)

-- The first loop counts at most the shards there are, and all of them only if all are present.
abbrev Counted : ℕ → ℕ → List Bool → Type 0
Counted n num present =
    (num ≤ n + length present)
    × (num ≡ n + length present → (i : ℕ) → i < length present → get_elem? present i ≡ some true)

Counted-absent :
    (n num : ℕ) (present : List Bool) → Counted n num present → Counted n num (false ∷ present)
Counted-absent n num present (bound, all) = (omega arith, λ e. absurd (omega arith))

Counted-present :
    (n num : ℕ) (present : List Bool) → Counted (suc n) num present → Counted n num (true ∷ present)
Counted-present n num present (bound, all) = (
  omega arith,
  λ e i h.
      elim i as (λ j. j < suc (length present) → get_elem? (true ∷ present) j ≡ some true) [
        | zero ↦ λ low. refl
        | suc j ↦ λ low. all (omega arith) j (omega arith)
      ]
        h,
)

measure-Counted :
    (shards : List (List ℕ)) (present : List Bool) (l n l' num : ℕ)
    → length shards ≡ length present
    → measure shards present l n ≡ ok (l', num)
    → Counted n num present
unfolding measure
measure-Counted [] [] l n l' num h e =
    let same : n ≡ num = ground arith in (omega arith, λ full i low. absurd (omega arith))
measure-Counted [] (b ∷ present) l n l' num h e = absurd (omega arith)
measure-Counted (s ∷ shards) [] l n l' num h e = absurd (omega arith)
measure-Counted (s ∷ shards) (false ∷ present) l n l' num h e =
    Counted-absent n num present (measure-Counted shards present l n l' num (omega arith) e)
measure-Counted (s ∷ shards) (true ∷ present) l n l' num h e = elim (Bool-cases (length s == 0)) [
  | inl hollow ↦ absurd (ground arith)
  | inr some_byte ↦ elim (Bool-cases (l == 0)) [
    | inl first ↦
        let rest : measure shards present (length s) (suc n) ≡ ok (l', num) = ground arith in
        Counted-present n num present
          (measure-Counted shards present (length s) (suc n) l' num (omega arith) rest)
    | inr later ↦ elim (Bool-cases (length s == l)) [
      | inl same ↦
          let rest : measure shards present l (suc n) ≡ ok (l', num) = ground arith in
          Counted-present n num present
            (measure-Counted shards present l (suc n) l' num (omega arith) rest)
      | inr other ↦ absurd (ground arith)
    ]
  ]
]

-- What a success leaves: the shards that were present as they were, and the marks of the data shards, or
-- of all shards, set.
record Rebuilt (rs : ReedSolomon) (shards : List (List ℕ)) (present : List Bool) (data_only : Bool)
    (done : List (List ℕ) × List Bool) : Type 0 where
  kept : (j : ℕ) → get_elem? present j ≡ some true → Agree j done.0 shards
  marked :
      (i : ℕ)
      → i < (if data_only then rs.data_shards else rs.total_shards)
      → i < rs.total_shards
      → get_elem? done.1 i ≡ some true

fill-Rebuilt :
    (rs : ReedSolomon) (shards : List (List ℕ)) (present : List Bool) (data_only : Bool) (n : ℕ)
    (decode : Matrix)
    → length present ≡ rs.total_shards
    → Rebuilt rs shards present data_only (fill rs shards present data_only n decode)
fill-Rebuilt rs shards present true n decode h = record {
  kept = fill-Agree rs shards present true n decode;
  marked = λ i low bound.
      unfold fill in get_elem?-mark_present rs.data_shards i present low (omega arith);
}
fill-Rebuilt rs shards present false n decode h = record {
  kept = fill-Agree rs shards present false n decode;
  marked = λ i low bound.
      unfold fill in get_elem?-mark_present rs.total_shards i present low (omega arith);
}

rebuild-Rebuilt :
    (rs : ReedSolomon) (shards : List (List ℕ)) (present : List Bool) (data_only : Bool) (n num : ℕ)
    (done : List (List ℕ) × List Bool)
    → length present ≡ rs.total_shards
    → Counted 0 num present
    → rebuild rs shards present data_only (n, num) ≡ ok done
    → Rebuilt rs shards present data_only done
unfolding rebuild
rebuild-Rebuilt rs shards present data_only n num done h (bound, all) e =
    elim (Bool-cases (num == rs.total_shards)) [
      | inl full ↦
          let same : (shards, present) ≡ done = ground arith in
          let whole : num ≡ 0 + length present = ground (arith, ==_iff num rs.total_shards) in
          subst (Rebuilt rs shards present data_only) same (record {
            kept = λ j p. (refl, refl);
            marked = λ i low bound'. all whole i (omega arith);
          })
      | inr lacking ↦ elim (Bool-cases (ltb num rs.data_shards)) [
        | inl few ↦ absurd (ground arith)
        | inr enough ↦ elim (Option-cases (inverse (rows_used rs present))) [
          | inl singular_rows ↦ absurd (ground arith)
          | inr (decode, found) ↦
              let same : fill rs shards present data_only n decode ≡ done = ground arith in
              subst (Rebuilt rs shards present data_only) same
                (fill-Rebuilt rs shards present data_only n decode h)
        ]
      ]
    ]

measured-Rebuilt :
    (rs : ReedSolomon) (shards : List (List ℕ)) (present : List Bool) (data_only : Bool)
    (o : Coded (ℕ × ℕ)) (done : List (List ℕ) × List Bool)
    → length shards ≡ length present
    → length present ≡ rs.total_shards
    → measure shards present 0 0 ≡ o
    → (o >>= rebuild rs shards present data_only) ≡ ok done
    → Rebuilt rs shards present data_only done
measured-Rebuilt rs shards present data_only (err e) done h k m r = cc
measured-Rebuilt rs shards present data_only (ok (n, num)) done h k m r =
    rebuild-Rebuilt rs shards present data_only n num done k
      (measure-Counted shards present 0 0 n num h m) r

reconstruct_internal-Rebuilt :
    (rs : ReedSolomon) (shards : List (List ℕ)) (present : List Bool) (data_only : Bool)
    (done : List (List ℕ) × List Bool)
    → reconstruct_internal rs shards present data_only ≡ ok done
    → Rebuilt rs shards present data_only done
unfolding reconstruct_internal
reconstruct_internal-Rebuilt rs shards present data_only done e =
    elim (Bool-cases (length shards == rs.total_shards && length present == rs.total_shards)) [
      | inr wrong ↦ absurd (ground arith)
      | inl right ↦
          let (len, len') : (length shards ≡ rs.total_shards) × (length present ≡ rs.total_shards) =
            ground (
              arith,
              ==_iff (length shards) rs.total_shards,
              ==_iff (length present) rs.total_shards,
            ) in
          measured-Rebuilt rs shards present data_only (measure shards present 0 0) done
            (len ∙ sym len') len' refl (ground arith)
    ]

-- When the reconstruction succeeds, every shard that was present is unchanged, and all data shards are
-- marked as present, or all shards where not only the data are asked for.
pub reconstruct_internal-Agree :
    (rs : ReedSolomon) (shards : List (List ℕ)) (present : List Bool) (data_only : Bool)
    (done : List (List ℕ) × List Bool) (j i : ℕ)
    → reconstruct_internal rs shards present data_only ≡ ok done
    → get_elem? present j ≡ some true
    → i < (if data_only then rs.data_shards else rs.total_shards)
    → i < rs.total_shards
    → Agree j done.0 shards × (get_elem? done.1 i ≡ some true)
reconstruct_internal-Agree rs shards present data_only done j i e h low bound =
    let rebuilt = reconstruct_internal-Rebuilt rs shards present data_only done e in
    (rebuilt.kept j h, rebuilt.marked i low bound)
