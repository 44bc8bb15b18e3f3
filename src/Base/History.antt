-- ===== src/Base/History.antt =====
-- `HistEntry` and `Transition` of backend/src/logic/avb_logic.h and backend/src/model/event.h, over
-- a state type and a type of reasons; and what it means that a history leads to a state.
use mathlib.Core.Option.{Option}
use Prim.Native.Nat.{ℕ, ◌≤◌}
use Prim.Native.String.{String}
use mathlib.Core.Path.{◌≡◌, refl, ◌∙◌}
use mathlib.Core.Logic.{inl, inr}
use mathlib.Core.List.{List, [], ◌∷◌, ◌++◌}
use native.Mathlib.Omega.{arith}
use avb_introspection.Base.Tests.{ltb, if◌then◌else◌, Bool-cases}
use avb_introspection.Base.Lists.{length, drop, length-append, length-drop}

-- One change of state: capture time in nanoseconds, packet number (0 for a timeout), the two
-- states, and the values from which the text of the reason is put together.
pub record HistEntry (S W : Type 0) : Type 0 where
  pub ts : ℕ
  pub n : ℕ
  pub from : S
  pub to : S
  pub why : W

-- The object (such as an entity) by its key, the states, the reason, the name of the entity that the
-- summary shows, or "", and the stream, if one is given. The texts of the source are put together
-- from these.
pub record Transition (O S W : Type 0) : Type 0 where
  pub object : O
  pub from : S
  pub to : S
  pub why : W
  pub name : String
  pub stream : Option ℕ

-- `v.push_back(x)`, and then `v.erase(v.begin())` when more than `cap` are there.
unfoldable pub push_capped {ℓ} : {A : Type ℓ} → ℕ → List A → A → List A
push_capped cap xs x = let ys = xs ++ x ∷ [] in if ltb cap (length ys) then drop 1 ys else ys

pub length-push_capped {ℓ} :
    {A : Type ℓ} (cap : ℕ) (xs : List A) (x : A)
    → length xs ≤ cap
    → length (push_capped cap xs x) ≤ cap
unfolding push_capped
length-push_capped cap xs x h =
    ground (arith, length-append xs (x ∷ []), length-drop 1 (xs ++ x ∷ []))

module _ {S W : Type 0} where
  -- Each entry starts in the state in which the one before it ended, from `a` on, to `b`.
  abbrev pub Linked : S → List (HistEntry S W) → S → Type 0
  Linked a [] b = a ≡ b
  Linked a (h ∷ hs) b = (a ≡ h.from) × Linked h.to hs b

  pub Linked-append :
      (a b : S) (hs : List (HistEntry S W)) (h : HistEntry S W)
      → Linked a hs b
      → b ≡ h.from
      → Linked a (hs ++ h ∷ []) h.to
  Linked-append a b [] h l e = (l ∙ e, refl)
  Linked-append a b (x ∷ hs) h l e = (l.0, Linked-append x.to b hs h l.1 e)

  -- A history from which old entries may have been dropped.
  abbrev pub LeadsTo : List (HistEntry S W) → S → Type 0
  LeadsTo hs b = (a : S) × Linked a hs b

  pub LeadsTo-drop : (b : S) (hs : List (HistEntry S W)) → LeadsTo hs b → LeadsTo (drop 1 hs) b
  LeadsTo-drop b [] l = l
  LeadsTo-drop b (h ∷ hs) l = (h.to, l.1.1)

  pub LeadsTo-push_capped :
      (cap : ℕ) (b : S) (hs : List (HistEntry S W)) (h : HistEntry S W)
      → LeadsTo hs b
      → b ≡ h.from
      → LeadsTo (push_capped cap hs h) h.to
  unfolding push_capped
  LeadsTo-push_capped cap b hs h (a, l) e = elim (Bool-cases (ltb cap (length (hs ++ h ∷ [])))) [
    | inl long ↦ rw long (LeadsTo-drop h.to (hs ++ h ∷ []) (a, Linked-append a b hs h l e))
    | inr short ↦ rw short (a, Linked-append a b hs h l e)
  ]
