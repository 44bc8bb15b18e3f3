-- ===== src/Base/Loops.antt =====
-- Maps as association lists, without a look-up: loops over the entries and what holds of all.
use Prim.Native.Nat.{ℕ, ◌+◌, ◌≤◌}
use mathlib.Core.Path.{◌≡◌, refl}
use mathlib.Core.Bool.{Bool, true, false}
use mathlib.Core.Option.{Option, none, some}
use mathlib.Core.List.{List, [], ◌∷◌}
use native.Mathlib.Omega.{arith}

abbrev pub Dict : Type 0 → Type 0 → Type 0
Dict K V = List (K × V)

abbrev pub one_if : Bool → ℕ
one_if true = 1
one_if false = 0

abbrev pub count_if_found {ℓ} : {V : Type ℓ} → (V → Bool) → Option V → ℕ
count_if_found p none = 0
count_if_found p (some v) = one_if (p v)

module _ {K V : Type 0} where
  -- Every value of the map satisfies the predicate, which may depend on the key.
  abbrev pub AllEntries : (K → V → Type 0) → Dict K V → Type 0
  AllEntries P [] = Unit
  AllEntries P ((k, v) ∷ m) = P k v × AllEntries P m

  -- A loop over the entries that changes each value.
  unfoldable pub map_values : (V → V) → Dict K V → Dict K V
  map_values f [] = []
  map_values f ((k, v) ∷ m) = (k, f v) ∷ map_values f m

  pub AllEntries-map_values :
      (P Q : K → V → Type 0) (f : V → V) (m : Dict K V)
      → ((k : K) (v : V) → P k v → Q k (f v))
      → AllEntries P m
      → AllEntries Q (map_values f m)
  unfolding map_values
  AllEntries-map_values P Q f [] step h = tt
  AllEntries-map_values P Q f ((k, v) ∷ m) step h =
      (step k v h.0, AllEntries-map_values P Q f m step h.1)

  -- A loop that changes each value and threads a state.
  unfoldable pub for_values {κ} : {S : Type κ} → (V → S → V × S) → Dict K V → S → Dict K V × S
  for_values f [] s = ([], s)
  for_values f ((k, v) ∷ m) s =
      let (v', s') = f v s in let (m', s'') = for_values f m s' in ((k, v') ∷ m', s'')

  pub AllEntries-for_values {κ} :
      {S : Type κ} (P : K → V → Type 0) (f : V → S → V × S) (m : Dict K V) (s : S)
      → ((k : K) (v : V) (s : S) → P k v → P k (f v s).0)
      → AllEntries P m
      → AllEntries P (for_values f m s).0
  unfolding for_values
  AllEntries-for_values P f [] s keep h = tt
  AllEntries-for_values P f ((k, v) ∷ m) s keep h =
      (keep k v s h.0, AllEntries-for_values P f m (f v s).1 keep h.1)

  -- What one round makes of each value holds of every value after the loop.
  pub AllEntries-after_loop {κ} :
      {S : Type κ} (P Q : K → V → Type 0) (f : V → S → V × S) (m : Dict K V) (s : S)
      → ((k : K) (v : V) (s : S) → P k v → Q k (f v s).0)
      → AllEntries P m
      → AllEntries Q (for_values f m s).0
  unfolding for_values
  AllEntries-after_loop P Q f [] s make h = tt
  AllEntries-after_loop P Q f ((k, v) ∷ m) s make h =
      (make k v s h.0, AllEntries-after_loop P Q f m (f v s).1 make h.1)

  -- Where the value does not depend on the state, the loop maps the values.
  pub for_values-map {κ} :
      {S : Type κ} (f : V → S → V × S) (g : V → V) (m : Dict K V) (s : S)
      → ((v : V) (s : S) → (f v s).0 ≡ g v)
      → (for_values f m s).0 ≡ map_values g m
  unfolding for_values map_values
  for_values-map f g [] s h = refl
  for_values-map f g ((k, v) ∷ m) s h = rw (h v s, for_values-map f g m (f v s).1 h)

  unfoldable pub count_values : (V → Bool) → Dict K V → ℕ
  count_values p [] = 0
  count_values p ((k, v) ∷ m) = one_if (p v) + count_values p m

  -- A loop whose state follows the number of the values that satisfy a test.
  pub count_values-for_values :
      (p : V → Bool) (f : V → ℕ → V × ℕ) (m : Dict K V) (c : ℕ)
      → ((v : V) (c : ℕ) → one_if (p v) ≤ c → (f v c).1 + one_if (p v) ≡ c + one_if (p (f v c).0))
      → count_values p m ≤ c
      → (for_values f m c).1 + count_values p m ≡ c + count_values p (for_values f m c).0
  unfolding count_values for_values
  count_values-for_values p f [] c h le = omega arith
  count_values-for_values p f ((k, v) ∷ m) c h le = omega (
    arith,
    h v c (omega arith),
    count_values-for_values p f m (f v c).1 h (omega (arith, h v c (omega arith))),
  )
