-- ===== src/Fec/Cache.antt =====
-- reedSolomonCache of fec.go: codes by their shard counts, the most recently used at the end.
pub mod Transparency
use shredstream_sdk_go.Prelude.{
  ℕ, zero, suc, ◌+◌, ◌≤◌, ◌<◌, ◌≡◌, refl, sym, ap, ap₂, subst, ◌∙◌, List, [], ◌∷◌, ◌++◌, Bool, true,
  false, ◌&&◌, Option, none, some, Option-cases, Bool-cases, inl, inr, ◌⊎◌, arith, leb, ◌==◌,
  ==_iff, if◌then◌else◌, length, length-append, drop, take, get_elem?,
}
use shredstream_sdk_go.Fec.{FecError, Coded, ok, err, ReedSolomon, new_reed_solomon}

abbrev pub Key : Type 0
Key = ℕ × ℕ

pub record ReedSolomonCache : Type 0 where
  pub keys : List Key
  pub values : List ReedSolomon
  pub capacity : ℕ

unfoldable pub new_reed_solomon_cache : ReedSolomonCache
new_reed_solomon_cache = record { keys = []; values = []; capacity = 32 }

abbrev pub same_key : Key → Key → Bool
same_key (a, b) (c, d) = a == c && b == d

-- The first index of the key.
unfoldable pub find_key : Key → List Key → Option ℕ
find_key key [] = none
find_key key (k ∷ keys) =
    if same_key k key
    then some 0
    else elim (find_key key keys) [ none ↦ none | some i ↦ some (suc i) ]

-- `append(append(s[:i], s[i+1:]...), x)`.
unfoldable pub move_to_end {ℓ} : {A : Type ℓ} → List A → ℕ → A → List A
move_to_end s i x = (take i s ++ drop (suc i) s) ++ (x ∷ [])

-- `if len(s) >= capacity { s = s[1:] }; append(s, x)`.
unfoldable pub push_evicting {ℓ} : {A : Type ℓ} → Bool → List A → A → List A
push_evicting full s x = (if full then drop 1 s else s) ++ (x ∷ [])

abbrev pub insert_built :
    ReedSolomonCache → Key → Coded ReedSolomon → ReedSolomonCache × Coded ReedSolomon
insert_built c key (err e) = (c, err e)
insert_built c key (ok rs) = (
  record c {
    keys = push_evicting (leb c.capacity (length c.keys)) c.keys key;
    values = push_evicting (leb c.capacity (length c.keys)) c.values rs;
  },
  ok rs,
)

-- `c.values[i]` at the index of the key; out of range it would panic, which the invariant excludes, and
-- the model then builds.
abbrev pub use_cached :
    ReedSolomonCache → Key → ℕ → Option ReedSolomon → ReedSolomonCache × Coded ReedSolomon
use_cached c key i none = insert_built c key (new_reed_solomon key.0 key.1)
use_cached c key i (some rs) =
    (record c { keys = move_to_end c.keys i key; values = move_to_end c.values i rs }, ok rs)

abbrev pub look_up : ReedSolomonCache → Key → Option ℕ → ReedSolomonCache × Coded ReedSolomon
look_up c key none = insert_built c key (new_reed_solomon key.0 key.1)
look_up c key (some i) = use_cached c key i (get_elem? c.values i)

unfoldable pub get_or_build : ReedSolomonCache → ℕ → ℕ → ReedSolomonCache × Coded ReedSolomon
get_or_build c num_data num_coding =
    look_up c (num_data, num_coding) (find_key (num_data, num_coding) c.keys)
