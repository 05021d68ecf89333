-- ===== src/Accumulator/FecSet/Recorded.antt =====
-- What a sequence of coding shreds leaves in the buffer of their set.
use shredstream_sdk_go.Prelude.{
  ℕ, ◌≡◌, refl, sym, ap, subst, ◌∙◌, List, [], ◌∷◌, Bool, Option, none, some, Bool-cases,
  Option-cases, inl, inr, ◌==◌, ==_iff, if◌then◌else◌, arith,
}
use shredstream_sdk_go.Variant.{VariantKind}
use shredstream_sdk_go.Accumulator.FecSet.{FecSetBuffer, code_at, add_code, record_code}

-- The arguments of one call of recordCode.
pub record Coding : Type 0 where
  pub position : ℕ
  pub num_data : ℕ
  pub num_coding : ℕ
  pub raw : List ℕ
  pub variant : VariantKind

unfoldable pub record_all : FecSetBuffer → List Coding → FecSetBuffer
record_all f [] = f
record_all f (c ∷ cs) =
    record_all (record_code f c.position c.num_data c.num_coding c.raw c.variant) cs

-- The first shred of the sequence at a position.
unfoldable pub first_at : ℕ → List Coding → Option (List ℕ)
first_at position [] = none
first_at position (c ∷ cs) = if c.position == position then some c.raw else first_at position cs

abbrev pub or_else : Option (List ℕ) → Option (List ℕ) → Option (List ℕ)
or_else none other = other
or_else (some raw) other = some raw

or_else-none : (o : Option (List ℕ)) → o ≡ or_else o none
or_else-none none = refl
or_else-none (some raw) = refl

or_else_assoc : (a b c : Option (List ℕ)) → or_else (or_else a b) c ≡ or_else a (or_else b c)
or_else_assoc none b c = refl
or_else_assoc (some raw) b c = refl

abbrev when : Bool → List ℕ → Option (List ℕ)
when b raw = if b then some raw else none

first_at-when :
    (position : ℕ) (c : Coding) (cs : List Coding)
    → or_else (when (c.position == position) c.raw) (first_at position cs)
      ≡ first_at position (c ∷ cs)
unfolding first_at
first_at-when position c cs = elim (Bool-cases (c.position == position)) [
  | inl here ↦ ground arith
  | inr there ↦ ground arith
]

code_at-add_code :
    (position p : ℕ) (raw : List ℕ) (code : List (ℕ × List ℕ))
    → code_at position (add_code p raw code)
      ≡ or_else (code_at position code) (when (p == position) raw)
unfolding code_at add_code
code_at-add_code position p raw code =
    let kept = or_else-none (code_at position code) in
    elim (Bool-cases (p == position)) [
      | inl same ↦
          let equal : p ≡ position = ground (arith, ==_iff p position) in
          elim (Option-cases (code_at p code)) [
            | inl free ↦
                let free' : code_at position code ≡ none =
                  subst (λ (k : ℕ). code_at k code ≡ none) equal free in
                ground arith
            | inr (old, taken) ↦
                let taken' : code_at position code ≡ some old =
                  subst (λ (k : ℕ). code_at k code ≡ some old) equal taken in
                ground arith
          ]
      | inr other ↦ elim (Option-cases (code_at p code)) [
        | inl free ↦ ground (arith, kept)
        | inr (old, taken) ↦ ground (arith, kept)
      ]
    ]

-- No position stands twice.
abbrev pub IsMap : List (ℕ × List ℕ) → Type 0
IsMap [] = Unit
IsMap ((p, raw) ∷ code) = (code_at p code ≡ none) × IsMap code

add_code-IsMap :
    (p : ℕ) (raw : List ℕ) (code : List (ℕ × List ℕ)) → IsMap code → IsMap (add_code p raw code)
unfolding add_code
add_code-IsMap p raw code h = elim (Option-cases (code_at p code)) [
  | inl free ↦
      let stored : add_code p raw code ≡ (p, raw) ∷ code = ground arith in
      subst IsMap (sym stored) (free, h)
  | inr (old, taken) ↦
      let stored : add_code p raw code ≡ code = ground arith in subst IsMap (sym stored) h
]

-- Whatever coding shreds a set gets, a buffer that held no position twice holds none twice afterwards, and
-- at each position the shard that it held before or, where it held none, the first one that came for
-- the position.
pub record_all-first_at :
    (f : FecSetBuffer) (cs : List Coding)
    → IsMap f.code
    → IsMap (record_all f cs).code
      × ((position : ℕ)
          → code_at position (record_all f cs).code
            ≡ or_else (code_at position f.code) (first_at position cs))
unfolding record_all record_code
record_all-first_at f [] h =
    (h, λ position. unfold first_at in or_else-none (code_at position f.code))
record_all-first_at f (c ∷ cs) h =
    let next = record_code f c.position c.num_data c.num_coding c.raw c.variant in
    let (distinct, later) =
      record_all-first_at next cs (add_code-IsMap c.position c.raw f.code h) in
    (
      distinct,
      λ position.
          let old = code_at position f.code in
          let new = when (c.position == position) c.raw in
          later position
          ∙ ap (λ (o : Option (List ℕ)). or_else o (first_at position cs))
              (code_at-add_code position c.position c.raw f.code)
          ∙ or_else_assoc old new (first_at position cs)
          ∙ ap (or_else old) (first_at-when position c cs),
    )
