-- ===== src/Base/Strings.antt =====
-- Texts as keys, and equality tests for any type that has a decision procedure.
use Prim.Native.String.{String}
use mathlib.Core.Path.{◌≡◌}
use mathlib.Core.Logic.{◌↔◌}
use mathlib.Core.Bool.{Bool, true, false}
use text.Mathlib.Text.{◌==◌ as str_eq}
use text.Mathlib.TextEquality.{eq_iff}
use avb_introspection.Base.Maps.{Key}

instance abbrev pub string_key : Key String
string_key = record { beq = str_eq; beq_iff = eq_iff }

abbrev pub holds {ℓ} : {P : Type ℓ} → Dec P → Bool
holds (yes h) = true
holds (no h) = false

pub holds_iff {ℓ} : {P : Type ℓ} (d : Dec P) → (holds d ≡ true) ↔ P
holds_iff (yes h) = (λ e. h, λ p. λ i. true)
holds_iff (no h) = (λ e. cc, λ p. absurd (h p))

abbrev pub discrete_key : {K : Type 0} → Discrete K → Key K
discrete_key d = record { beq = λ a b. holds (d a b); beq_iff = λ a b. holds_iff (d a b) }
