-- ===== src/Base/Maps.antt =====
-- `std::map` and `std::unordered_map` as association lists in the order of first insertion, and
-- `std::set` as a list without repetition. The programs here never depend on the order of the keys.
use Prim.Native.Nat.{ℕ, ◌+◌, ◌≤◌}
use mathlib.Core.Path.{◌≡◌, refl}
use mathlib.Core.Logic.{◌↔◌, inl, inr}
use mathlib.Core.Bool.{Bool, true, false, ◌||◌}
use mathlib.Core.Option.{Option, none, some}
use mathlib.Core.List.{List, [], ◌∷◌}
use native.Mathlib.Omega.{arith}
use avb_introspection.Base.Loops.{
  Dict, AllEntries, map_values, count_values, one_if, count_if_found,
}
use avb_introspection.Base.Tests.{◌==◌ as nat_beq, ==_iff, if◌then◌else◌, Bool-cases, Option-cases}

-- What a key type gives: a test for equality.
pub record Key (K : Type 0) : Type 0 where
  pub beq : K → K → Bool
  pub beq_iff : (a b : K) → (beq a b ≡ true) ↔ (a ≡ b)

infix 50 ◌=?◌
abbrev pub ◌=?◌ : {K : Type 0} ⦃k : Key K⦄ → K → K → Bool
◌=?◌ ⦃k⦄ = k.beq

instance abbrev pub nat_key : Key ℕ
nat_key = record { beq = nat_beq; beq_iff = ==_iff }

module _ {K V : Type 0} ⦃key : Key K⦄ where
  -- `m.find(k)`.
  unfoldable pub find : K → Dict K V → Option V
  find k [] = none
  find k ((j, v) ∷ m) = if k =? j then some v else find k m

  -- `m[k]` read, where the key is made with the default value if it is missing.
  abbrev pub find_or : V → K → Dict K V → V
  find_or d k m = elim (find k m) [ none ↦ d | some v ↦ v ]

  -- `m[k] = v`.
  unfoldable pub insert : K → V → Dict K V → Dict K V
  insert k v [] = (k, v) ∷ []
  insert k v ((j, w) ∷ m) = if k =? j then (j, v) ∷ m else (j, w) ∷ insert k v m

  -- `m.erase(k)`; every entry of the key goes, and a map has at most one.
  unfoldable pub erase : K → Dict K V → Dict K V
  erase k [] = []
  erase k ((j, w) ∷ m) = let rest = erase k m in if k =? j then rest else (j, w) ∷ rest

  pub find-insert :
      (j k : K) (v : V) (m : Dict K V)
      → find j (insert k v m) ≡ (if j =? k then some v else find j m)
  unfolding find insert
  find-insert j k v [] = refl
  find-insert j k v ((i, w) ∷ m) =
      ground (arith, key.beq_iff j k, key.beq_iff k i, key.beq_iff j i, find-insert j k v m)

  pub find-insert_self : (k : K) (v : V) (m : Dict K V) → find k (insert k v m) ≡ some v
  find-insert_self k v m = rw (find-insert k k v m, (key.beq_iff k k).1 refl)

  pub find_or-insert :
      (d : V) (j k : K) (v : V) (m : Dict K V)
      → find_or d j (insert k v m) ≡ (if j =? k then v else find_or d j m)
  find_or-insert d j k v m = elim (Bool-cases (j =? k)) [
    | inl e ↦ ground (arith, find-insert j k v m)
    | inr e ↦ ground (arith, find-insert j k v m)
  ]

  pub find-erase :
      (j k : K) (m : Dict K V) → find j (erase k m) ≡ (if j =? k then none else find j m)
  unfolding find erase
  find-erase j k [] = ground arith
  find-erase j k ((i, w) ∷ m) =
      ground (arith, key.beq_iff j k, key.beq_iff k i, key.beq_iff j i, find-erase j k m)

  pub AllEntries-insert :
      (P : K → V → Type 0) (k : K) (v : V) (m : Dict K V)
      → P k v
      → AllEntries P m
      → AllEntries P (insert k v m)
  unfolding insert
  AllEntries-insert P k v [] p h = (p, tt)
  AllEntries-insert P k v ((j, w) ∷ m) p h = elim (Bool-cases (k =? j)) [
    | inl e ↦ rw e (rw ((key.beq_iff k j).0 e) at p, h.1)
    | inr e ↦ rw e (h.0, AllEntries-insert P k v m p h.1)
  ]

  pub AllEntries-find :
      (P : K → V → Type 0) (k : K) (v : V) (m : Dict K V)
      → AllEntries P m
      → find k m ≡ some v
      → P k v
  unfolding find
  AllEntries-find P k v [] h e = cc
  AllEntries-find P k v ((j, w) ∷ m) h e = elim (Bool-cases (k =? j)) [
    | inl same ↦
        let at_key : k ≡ j = (key.beq_iff k j).0 same in
        let the_value : w ≡ v = ground arith in rw (at_key, ← the_value) h.0
    | inr other ↦ AllEntries-find P k v m h.1 (ground arith)
  ]

  pub AllEntries-find_or :
      (P : K → V → Type 0) (d : V) (k : K) (m : Dict K V)
      → P k d
      → AllEntries P m
      → P k (find_or d k m)
  AllEntries-find_or P d k m p h = elim (Option-cases (find k m)) [
    | inl e ↦ rw (e, find_or) p
    | inr (v, e) ↦ rw (e, find_or) (AllEntries-find P k v m h e)
  ]

  pub find-map_values :
      (f : V → V) (k : K) (m : Dict K V)
      → find k (map_values f m) ≡ elim (find k m) [ none ↦ none | some v ↦ some (f v) ]
  unfolding find map_values
  find-map_values f k [] = refl
  find-map_values f k ((j, v) ∷ m) = ground (arith, find-map_values f k m)

  -- A map holds a key once.
  abbrev pub NodupKeys : Dict K V → Type 0
  NodupKeys [] = Unit
  NodupKeys ((k, v) ∷ m) = (find k m ≡ none) × NodupKeys m

  pub map_values-NodupKeys : (f : V → V) (m : Dict K V) → NodupKeys m → NodupKeys (map_values f m)
  unfolding map_values
  map_values-NodupKeys f [] u = tt
  map_values-NodupKeys f ((k, v) ∷ m) u =
      (ground (arith, find-map_values f k m), map_values-NodupKeys f m u.1)

  pub insert-NodupKeys : (k : K) (v : V) (m : Dict K V) → NodupKeys m → NodupKeys (insert k v m)
  unfolding insert
  insert-NodupKeys k v [] u = (unfold find in refl, tt)
  insert-NodupKeys k v ((j, w) ∷ m) u =
      ground
        (arith, insert-NodupKeys k v m u.1, find-insert j k v m, key.beq_iff j k, key.beq_iff k j)

  pub count_values-insert :
      (p : V → Bool) (k : K) (v : V) (m : Dict K V)
      → count_values p (insert k v m) + count_if_found p (find k m)
        ≡ count_values p m + one_if (p v)
  unfolding count_values insert find
  count_values-insert p k v [] = omega arith
  count_values-insert p k v ((j, w) ∷ m) = ground (arith, count_values-insert p k v m)

  -- The found value is among the counted ones.
  pub count_if_found-le :
      (p : V → Bool) (k : K) (m : Dict K V) → count_if_found p (find k m) ≤ count_values p m
  unfolding count_values find
  count_if_found-le p k [] = omega arith
  count_if_found-le p k ((j, w) ∷ m) = ground (arith, count_if_found-le p k m)

  pub one_if-find_or :
      (p : V → Bool) (d : V) (k : K) (m : Dict K V)
      → p d ≡ false
      → one_if (p (find_or d k m)) ≡ count_if_found p (find k m)
  one_if-find_or p d k m e = elim (Option-cases (find k m)) [
    | inl missing ↦ rw (missing, find_or) (rw e)
    | inr (v, found) ↦ rw (found, find_or)
  ]

  -- `m[k] = f(m[k])` moves the counter as it moves the one value.
  pub count_values-update :
      (p : V → Bool) (d : V) (k : K) (v : V) (m : Dict K V) (c c' : ℕ)
      → p d ≡ false
      → c ≡ count_values p m
      → (one_if (p (find_or d k m)) ≤ c → c' + one_if (p (find_or d k m)) ≡ c + one_if (p v))
      → c' ≡ count_values p (insert k v m)
  count_values-update p d k v m c c' e h step = omega (
    arith,
    step (omega (arith, one_if-find_or p d k m e, count_if_found-le p k m)),
    one_if-find_or p d k m e,
    count_values-insert p k v m,
  )

-- A set of numbers.
abbrev pub Set : Type 0
Set = List ℕ

unfoldable pub contains : ℕ → Set → Bool
contains a [] = false
contains a (x ∷ xs) = nat_beq a x || contains a xs

unfoldable pub add : ℕ → Set → Set
add a xs = if contains a xs then xs else a ∷ xs

unfoldable pub remove : ℕ → Set → Set
remove a [] = []
remove a (x ∷ xs) = let rest = remove a xs in if nat_beq a x then rest else x ∷ rest

pub contains-add : (b a : ℕ) (xs : Set) → contains b (add a xs) ≡ (nat_beq b a || contains b xs)
unfolding add contains
contains-add b a xs = elim (Bool-cases (nat_beq b a)) [
  | inl e ↦ ground (arith, contains b xs)
  | inr e ↦ ground arith
]

pub contains-remove :
    (b a : ℕ) (xs : Set) → contains b (remove a xs) ≡ (if nat_beq b a then false else contains b xs)
unfolding remove contains
contains-remove b a [] = ground arith
contains-remove b a (x ∷ xs) = ground (arith, contains-remove b a xs)
