-- ===== src/Engine/Keeps.antt =====
-- What the modules' calls in the state pass of backend/src/engine/engine.cpp keep, when it does not depend on
-- the modules' state.
use avb_introspection.Base.{ℕ, inl, inr, List, [], ◌∷◌, Option-cases, find, string_key}
use avb_introspection.Decode.Types.{Proto, LogicCtx}
use avb_introspection.Engine.Modules.{AnalysisState, Told}
use avb_introspection.Engine.{
  of_transition, Pass, push_event, push_transitions, by_service, feed, feed_all, tick, tick_all,
}

-- A predicate that transitions at the time `ts` and new states of the modules keep.
pub record IsKept (P : Pass → Type 0) (ts : ℕ) : Type 0 where
  pub pushed :
      (n : ℕ) (t : Told) (proto : Proto) (p : Pass)
      → P p
      → P (push_event n ts (of_transition t) proto p)
  pub moved : (s : AnalysisState) (p : Pass) → P p → P (record p { logic = s })

module _ (P : Pass → Type 0) (ts : ℕ) (kept : IsKept P ts) where
  push_transitions-IsKept :
      (n : ℕ) (proto : Proto) (told : List Told) (p : Pass)
      → P p
      → P (push_transitions n ts proto told p)
  unfolding push_transitions
  push_transitions-IsKept n proto [] p h = h
  push_transitions-IsKept n proto (t ∷ told) p h =
      push_transitions-IsKept n proto told _ (kept.pushed n t proto p h)

  feed-IsKept : (num : ℕ) (c : LogicCtx) (p : Pass) → P p → P (feed num ts c p)
  unfolding feed
  feed-IsKept num c p h = elim (Option-cases (find c.service by_service)) [
    | inl e ↦ rw (e, feed) h
    | inr (service, e) ↦ rw (e, feed) (push_transitions-IsKept num service _ _ (kept.moved _ p h))
  ]

  pub feed_all-IsKept : (num : ℕ) (cs : List LogicCtx) (p : Pass) → P p → P (feed_all num ts cs p)
  unfolding feed_all
  feed_all-IsKept num [] p h = h
  feed_all-IsKept num (c ∷ cs) p h =
      feed_all-IsKept num cs (feed num ts c p) (feed-IsKept num c p h)

  pub tick_all-IsKept : (services : List Proto) (p : Pass) → P p → P (tick_all ts services p)
  unfolding tick_all tick
  tick_all-IsKept [] p h = h
  tick_all-IsKept (s ∷ services) p h =
      tick_all-IsKept services _ (push_transitions-IsKept 0 s _ _ (kept.moved _ p h))
