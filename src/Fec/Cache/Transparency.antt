-- ===== src/Fec/Cache/Transparency.antt =====
-- The cache gives the codes that are built anew.
use shredstream_sdk_go.Prelude.{
  ℕ, zero, suc, ◌≤◌, ◌<◌, ◌≡◌, refl, sym, ap, ap₂, subst, List, [], ◌∷◌, ◌++◌, Bool, true, false,
  Option, none, some, Option-cases, Bool-cases, inl, inr, arith, leb, ==_iff, length, length-append,
  drop, take, get_elem?,
}
use shredstream_sdk_go.Fec.{Coded, ok, err, ReedSolomon, new_reed_solomon}
use shredstream_sdk_go.Fec.Cache.{
  Key, ReedSolomonCache, new_reed_solomon_cache, same_key, find_key, move_to_end, push_evicting,
  insert_built, use_cached, look_up, get_or_build,
}

-- Every value is the code of its key.
abbrev pub Matches : List Key → List ReedSolomon → Type 0
Matches [] [] = Unit
Matches [] (v ∷ values) = ⊥
Matches (k ∷ keys) [] = ⊥
Matches (k ∷ keys) (v ∷ values) = (new_reed_solomon k.0 k.1 ≡ ok v) × Matches keys values

pub record IsCache (c : ReedSolomonCache) : Type 0 where
  pub codes : Matches c.keys c.values
  pub some_room : 0 < c.capacity
  pub bounded : length c.keys ≤ c.capacity

Matches-append :
    (keys more : List Key) (values others : List ReedSolomon)
    → Matches keys values
    → Matches more others
    → Matches (keys ++ more) (values ++ others)
Matches-append [] more [] others h k = k
Matches-append [] more (v ∷ values) others h k = absurd h
Matches-append (x ∷ keys) more [] others h k = absurd h
Matches-append (x ∷ keys) more (v ∷ values) others (e, h) k =
    (e, Matches-append keys more values others h k)

Matches-take :
    (i : ℕ) (keys : List Key) (values : List ReedSolomon)
    → Matches keys values
    → Matches (take i keys) (take i values)
Matches-take zero keys values h = tt
Matches-take (suc i) [] [] h = tt
Matches-take (suc i) [] (v ∷ values) h = absurd h
Matches-take (suc i) (x ∷ keys) [] h = absurd h
Matches-take (suc i) (x ∷ keys) (v ∷ values) (e, h) = (e, Matches-take i keys values h)

Matches-drop :
    (i : ℕ) (keys : List Key) (values : List ReedSolomon)
    → Matches keys values
    → Matches (drop i keys) (drop i values)
Matches-drop zero keys values h = h
Matches-drop (suc i) [] [] h = tt
Matches-drop (suc i) [] (v ∷ values) h = absurd h
Matches-drop (suc i) (x ∷ keys) [] h = absurd h
Matches-drop (suc i) (x ∷ keys) (v ∷ values) (e, h) = Matches-drop i keys values h

same_key-≡ : (k key : Key) → same_key k key ≡ true → k ≡ key
same_key-≡ (a, b) (c, d) e =
    let (first, second) : (a ≡ c) × (b ≡ d) = ground (arith, ==_iff a c, ==_iff b d) in
    ap₂ (λ (x y : ℕ). (x, y)) first second

length-take-drop :
    {A : Type 0} (i : ℕ) (s : List A)
    → i < length s
    → suc (length (take i s ++ drop (suc i) s)) ≡ length s
length-take-drop i [] h = absurd (omega arith)
length-take-drop zero (x ∷ s) h = refl
length-take-drop (suc i) (x ∷ s) h = ap suc (length-take-drop i s (omega arith))

-- The code at index `i` of the values, which is that of the key.
abbrev Found : Key → List Key → List ReedSolomon → ℕ → Type 0
Found key keys values i =
    (rs : ReedSolomon) × (get_elem? values i ≡ some rs)
    × (new_reed_solomon key.0 key.1 ≡ ok rs)
    × (i < length keys)

find_key-head :
    (key k : Key) (keys : List Key) → same_key k key ≡ true → find_key key (k ∷ keys) ≡ some 0
unfolding find_key
find_key-head key k keys same = ground arith

find_key-tail :
    (key k : Key) (keys : List Key) (i : ℕ)
    → same_key k key ≡ false
    → find_key key (k ∷ keys) ≡ some i
    → (j : ℕ) × (i ≡ suc j) × (find_key key keys ≡ some j)
unfolding find_key
find_key-tail key k keys i other e = elim (Option-cases (find_key key keys)) [
  | inl missing ↦ absurd (ground arith)
  | inr (j, there) ↦ (j, ground arith, there)
]

found :
    (key : Key) (keys : List Key) (values : List ReedSolomon) (i : ℕ)
    → Matches keys values
    → find_key key keys ≡ some i
    → Found key keys values i
found key [] [] i h e = unfold find_key in cc
found key [] (v ∷ values) i h e = absurd h
found key (k ∷ keys) [] i h e = absurd h
found key (k ∷ keys) (v ∷ values) i (c, h) e = elim (Bool-cases (same_key k key)) [
  | inl same ↦
      let zeroth : 0 ≡ i = ground (arith, find_key-head key k keys same) in
      subst (Found key (k ∷ keys) (v ∷ values)) zeroth (
        v,
        refl,
        subst (λ (x : Key). new_reed_solomon x.0 x.1 ≡ ok v) (same_key-≡ k key same) c,
        omega arith,
      )
  | inr other ↦
      let (j, next, rest) = find_key-tail key k keys i other e in
      let (rs, at, code, low) = found key keys values j h rest in
      subst (Found key (k ∷ keys) (v ∷ values)) (sym next) (rs, at, code, omega arith)
]

-- The cache holds what a call leaves, and the call gives the code that new_reed_solomon gives.
abbrev Transparent : Key → ReedSolomonCache × Coded ReedSolomon → Type 0
Transparent key (c, built) = IsCache c × (built ≡ new_reed_solomon key.0 key.1)

push_evicting-Matches :
    (full : Bool) (keys : List Key) (values : List ReedSolomon) (key : Key) (rs : ReedSolomon)
    → Matches keys values
    → new_reed_solomon key.0 key.1 ≡ ok rs
    → Matches (push_evicting full keys key) (push_evicting full values rs)
unfolding push_evicting
push_evicting-Matches true keys values key rs h k =
    Matches-append (drop 1 keys) (key ∷ []) (drop 1 values) (rs ∷ []) (Matches-drop 1 keys values h)
      (k, tt)
push_evicting-Matches false keys values key rs h k =
    Matches-append keys (key ∷ []) values (rs ∷ []) h (k, tt)

length-push_evicting :
    (keys : List Key) (key : Key) (capacity : ℕ)
    → 0 < capacity
    → length keys ≤ capacity
    → length (push_evicting (leb capacity (length keys)) keys key) ≤ capacity
unfolding push_evicting
length-push_evicting [] key capacity h k = ground arith
length-push_evicting (x ∷ keys) key capacity h k =
    let kept = length-append keys (key ∷ []) in ground arith

insert_built-Transparent :
    (c : ReedSolomonCache) (key : Key) (built : Coded ReedSolomon)
    → IsCache c
    → new_reed_solomon key.0 key.1 ≡ built
    → Transparent key (insert_built c key built)
insert_built-Transparent c key (err e) h k = (h, sym k)
insert_built-Transparent c key (ok rs) h k =
    let full = leb c.capacity (length c.keys) in
    (
      record {
        codes = push_evicting-Matches full c.keys c.values key rs h.codes k;
        some_room = h.some_room;
        bounded = length-push_evicting c.keys key c.capacity h.some_room h.bounded;
      },
      sym k,
    )

moved-IsCache :
    (c : ReedSolomonCache) (key : Key) (rs : ReedSolomon) (i : ℕ)
    → IsCache c
    → i < length c.keys
    → new_reed_solomon key.0 key.1 ≡ ok rs
    → IsCache (record c { keys = move_to_end c.keys i key; values = move_to_end c.values i rs })
unfolding move_to_end
moved-IsCache c key rs i h low k =
    let kept =
      Matches-append (take i c.keys) (drop (suc i) c.keys) (take i c.values) (drop (suc i) c.values)
        (Matches-take i c.keys c.values h.codes) (Matches-drop (suc i) c.keys c.values h.codes) in
    let len = length-take-drop i c.keys low in
    let len' = length-append (take i c.keys ++ drop (suc i) c.keys) (key ∷ []) in
    let room = h.bounded in
    record {
      codes =
          Matches-append (take i c.keys ++ drop (suc i) c.keys) (key ∷ [])
            (take i c.values ++ drop (suc i) c.values) (rs ∷ []) kept (k, tt);
      some_room = h.some_room;
      bounded = omega arith;
    }

use_cached-Transparent :
    (c : ReedSolomonCache) (key : Key) (i : ℕ)
    → IsCache c
    → find_key key c.keys ≡ some i
    → Transparent key (use_cached c key i (get_elem? c.values i))
use_cached-Transparent c key i h e =
    let (rs, at, code, low) = found key c.keys c.values i h.codes e in
    subst (λ (o : Option ReedSolomon). Transparent key (use_cached c key i o)) (sym at)
      (moved-IsCache c key rs i h low code, sym code)

look_up-Transparent :
    (c : ReedSolomonCache) (key : Key) (o : Option ℕ)
    → IsCache c
    → find_key key c.keys ≡ o
    → Transparent key (look_up c key o)
look_up-Transparent c key none h e =
    insert_built-Transparent c key (new_reed_solomon key.0 key.1) h refl
look_up-Transparent c key (some i) h e = use_cached-Transparent c key i h e

-- A cache in which every value is the code of its key, with at most as many codes as its capacity,
-- stays one at every call, and the call answers what building the code anew would answer, errors
-- included.
pub get_or_build-new_reed_solomon :
    (c : ReedSolomonCache) (num_data num_coding : ℕ)
    → IsCache c
    → IsCache (get_or_build c num_data num_coding).0
      × ((get_or_build c num_data num_coding).1 ≡ new_reed_solomon num_data num_coding)
unfolding get_or_build
get_or_build-new_reed_solomon c num_data num_coding h =
    look_up-Transparent c (num_data, num_coding) (find_key (num_data, num_coding) c.keys) h refl

pub new_reed_solomon_cache-IsCache : IsCache new_reed_solomon_cache
unfolding new_reed_solomon_cache
new_reed_solomon_cache-IsCache = record {
  codes = tt;
  some_room = omega arith;
  bounded = omega arith;
}
