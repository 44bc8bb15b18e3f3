-- ===== src/Adp/Expiry.antt =====
-- `onTimeTick` of `AdpLogic` in backend/src/logic/adp_logic.cpp: who expires, and that the set of
-- available entities follows.
use avb_introspection.Base.{
  ℕ, zero, suc, ◌+◌, ◌*◌, ◌&&◌, ltb, ◌≡◌, refl, sym, ◌∙◌, ap, Bool, false, Option, none, some, List,
  [], ◌∷◌, arith, ◌==◌, if◌then◌else◌, ==_iff, inl, inr, Bool-cases, Dict, find, find_or,
  for_values, for_values-map, map_values, map_values-NodupKeys, find-map_values, AllEntries,
  AllEntries-for_values, NodupKeys, Linked-append, contains, contains-remove, nat_key,
}
use avb_introspection.Context.{VarLayerContext}
use avb_introspection.Adp.{
  State, available, timed_out, Entity, Out, World, new_entity, shown, is_available, is_expired,
  on_decode, tick_entity, on_time_tick, transition,
}
use avb_introspection.Adp.Available.{EntityWf, IsPublished, state_at, on_decode-IsPublished}

-- The set after the loop of `onTimeTick`: what it was, less the entities that have expired.
after_tick : ℕ → Bool → Option Entity → Bool
after_tick ts old none = old
after_tick ts old (some e) = if is_expired ts e then false else old

tick_entity-places :
    (ts b : ℕ) (e : Entity) (o : Out)
    → contains b (tick_entity ts e o).1.shared.adp_available ≡ (
        if b == e.entity_id
        then after_tick ts (contains b o.shared.adp_available) (some e)
        else contains b o.shared.adp_available)
unfolding tick_entity transition after_tick
tick_entity-places ts b e o = ground (arith, contains-remove b e.entity_id o.shared.adp_available)

tick_loop-places :
    (ts b : ℕ) (m : Dict ℕ Entity) (o : Out)
    → NodupKeys m
    → AllEntries EntityWf m
    → contains b (for_values (tick_entity ts) m o).1.shared.adp_available
      ≡ after_tick ts (contains b o.shared.adp_available) (find b m)
unfolding for_values find after_tick
tick_loop-places ts b [] o u h = refl
tick_loop-places ts b ((k, e) ∷ m) o u h = ground (
  arith,
  ==_iff b k,
  tick_entity-places ts b e o,
  tick_loop-places ts b m (tick_entity ts e o).1 u.1 h.1,
  h.0.0,
)

tick_entity-EntityWf :
    (ts k : ℕ) (e : Entity) (o : Out) → EntityWf k e → EntityWf k (tick_entity ts e o).0
unfolding tick_entity transition
tick_entity-EntityWf ts k e o h = elim (Bool-cases (is_expired ts e)) [
  | inl late ↦ rw late (h.0, Linked-append State.unknown (shown e.state) e.hist _ h.1 refl)
  | inr early ↦ rw early h
]

-- The entity does not depend on the shared model.
tick_entity-any :
    (ts : ℕ) (e : Entity) (o o' : Out) → (tick_entity ts e o).0 ≡ (tick_entity ts e o').0
unfolding tick_entity transition
tick_entity-any ts e o o' = ground arith

tick_entities :
    (ts : ℕ) (w : World)
    → (on_time_tick ts w).entities ≡ map_values (λ e. (tick_entity ts e w.out).0) w.entities
unfolding on_time_tick
tick_entities ts w =
    for_values-map (tick_entity ts) _ w.entities w.out (λ e o. tick_entity-any ts e o w.out)

-- When an entity is to expire: it is AVAILABLE, its last announcement was for `n` seconds, not 0, and these
-- are over.
unfoldable pub expires : ℕ → State → ℕ → ℕ → Bool
expires ts available last_seen (suc n) = ltb (last_seen + suc n * 1000000000) ts
expires ts _ last_seen n = false

pub expires-guard :
    (ts : ℕ) (st : State) (last_seen n : ℕ)
    → (is_available st && (ltb 0 n && ltb (last_seen + n * 1000000000) ts))
      ≡ expires ts st last_seen n
unfolding expires
expires-guard ts available last_seen zero = refl
expires-guard ts available last_seen (suc n) = ground arith
expires-guard ts _ last_seen n = refl

expired_state :
    (ts : ℕ) (w : World) (id : ℕ)
    → state_at id (on_time_tick ts w)
      ≡ (if is_expired ts (find_or new_entity id w.entities) then timed_out else state_at id w)
unfolding tick_entity transition
expired_state ts w id = ground (
  arith,
  tick_entities ts w,
  find-map_values (λ (e : Entity). (tick_entity ts e w.out).0) id w.entities,
)

-- `onTimeTick` moves exactly the entities that were AVAILABLE, announced a valid time other than 0 and did not
-- announce themselves again within it to TIMED_OUT; every other entity is left in its state.
pub on_time_tick-state :
    (ts : ℕ) (w : World) (id : ℕ)
    → let e : Entity = find_or new_entity id w.entities in
      state_at id (on_time_tick ts w)
      ≡ (if expires ts e.state e.last_seen e.valid_time then timed_out else state_at id w)
on_time_tick-state ts w id =
    expired_state ts w id
    ∙ ap (λ t. if t then timed_out else state_at id w)
        (expires-guard ts (find_or new_entity id w.entities).state
          (find_or new_entity id w.entities).last_seen
          (find_or new_entity id w.entities).valid_time)

tick-places :
    (ts b : ℕ) (w : World)
    → IsPublished w
    → contains b (on_time_tick ts w).out.shared.adp_available
      ≡ after_tick ts (contains b w.out.shared.adp_available) (find b w.entities)
unfolding on_time_tick
tick-places ts b w h = tick_loop-places ts b w.entities w.out h.unique h.entries

after_tick-state :
    (ts : ℕ) (o : Option Entity)
    → let e : Entity = elim o [ none ↦ new_entity | some e ↦ e ] in
      after_tick ts (is_available e.state) o
      ≡ is_available (if is_expired ts e then timed_out else e.state)
unfolding after_tick
after_tick-state ts none = refl
after_tick-state ts (some e) = ground arith

pub on_time_tick-IsPublished :
    (ts : ℕ) (w : World) → IsPublished w → IsPublished (on_time_tick ts w)
on_time_tick-IsPublished ts w h = record {
  unique = rw (tick_entities ts w) (map_values-NodupKeys _ w.entities h.unique);
  entries =
      unfold on_time_tick in
      AllEntries-for_values EntityWf (tick_entity ts) w.entities w.out
        (λ k e o. tick_entity-EntityWf ts k e o) h.entries;
  published = λ b.
      tick-places ts b w h
      ∙ ap (λ old. after_tick ts old (find b w.entities)) (h.published b)
      ∙ after_tick-state ts (find b w.entities)
      ∙ ap is_available (sym (expired_state ts w b));
}

-- A call of the module.
pub data Call : Type 0 where
  decodes : VarLayerContext → Call
  ticks : ℕ → Call

unfoldable pub step : World → Call → World
step w (decodes c) = on_decode c w
step w (ticks ts) = on_time_tick ts w

unfoldable pub run : World → List Call → World
run w [] = w
run w (c ∷ cs) = run (step w c) cs

step-IsPublished : (w : World) (c : Call) → IsPublished w → IsPublished (step w c)
unfolding step
step-IsPublished w (decodes c) h = on_decode-IsPublished c w h
step-IsPublished w (ticks ts) h = on_time_tick-IsPublished ts w h

-- Any decoded messages and time ticks keep the module well-formed: the set of available entities in
-- the shared model holds exactly the ids of the entities in state AVAILABLE, each entity stands once
-- and under its own id, and its history leads from UNKNOWN to its state without a gap.
pub run-IsPublished : (w : World) (cs : List Call) → IsPublished w → IsPublished (run w cs)
unfolding run
run-IsPublished w [] h = h
run-IsPublished w (c ∷ cs) h = run-IsPublished (step w c) cs (step-IsPublished w c h)

-- Nobody overstays: after `onTimeTick` no entity is AVAILABLE past its announced valid time.
pub on_time_tick_in_time :
    (ts id : ℕ) (w : World)
    → is_expired ts (find_or new_entity id (on_time_tick ts w).entities) ≡ false
unfolding tick_entity transition
on_time_tick_in_time ts id w = ground (
  arith,
  tick_entities ts w,
  find-map_values (λ (e : Entity). (tick_entity ts e w.out).0) id w.entities,
)
