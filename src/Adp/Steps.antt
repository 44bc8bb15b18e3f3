-- ===== src/Adp/Steps.antt =====
-- What each part of `AdpLogic` in backend/src/logic/adp_logic.cpp keeps at one entity: the shared
-- availability agrees with the entity's state, and the history leads to the state.
use avb_introspection.Base.{
  ℕ, ◌%◌, ◌^◌, ◌≡◌, refl, ◌∙◌, Bool, true, false, Option, none, some, arith, ltb, ◌==◌,
  if◌then◌else◌, inl, inr, Bool-cases, not, ◌&&◌, Linked, Linked-append, Set, contains,
  contains-add, contains-remove,
}
use avb_introspection.Context.{VarLayerContext, at, ts_of, num_of}
use avb_introspection.Adp.{
  State, available, departing, timed_out, Why, Entity, Out, shown, is_available, is_departing,
  is_expired, transition, observed_gm, compare_gm, check_gm_against_observed, announce,
  announced_fields, on_available, on_departing, message_type, on_message, tick_entity,
}

-- The entity `id` against the set of available entities as it was before the call, `s`: only the
-- place of `id` in the set has changed, and it follows the state.
pub record Agrees (id : ℕ) (s : Set) (r : Entity × Out) : Type 0 where
  pub same_id : r.0.entity_id ≡ id
  pub linked : Linked State.unknown r.0.hist (shown r.0.state)
  pub places :
      (b : ℕ)
      → contains b r.1.shared.adp_available
        ≡ (if b == id then is_available r.0.state else contains b s)

module _ (id : ℕ) (s : Set) where
  pub transition-Agrees :
      (ts n : ℕ) (to : State) (why : Why) (r : Entity × Out)
      → shown to ≡ to
      → Agrees id s r
      → Agrees id s (transition ts n to why r)
  unfolding transition
  transition-Agrees ts n to why (e, o) named g = record {
    same_id = g.same_id;
    linked = rw named (Linked-append State.unknown (shown e.state) e.hist _ g.linked refl);
    places = λ b. ground (
      arith,
      g.same_id,
      g.places b,
      contains-add b e.entity_id o.shared.adp_available,
      contains-remove b e.entity_id o.shared.adp_available,
    );
  }

  announce-Agrees :
      (ts n idx : ℕ) (r : Entity × Out) → Agrees id s r → Agrees id s (announce ts n idx r)
  unfolding announce
  announce-Agrees ts n idx (e, o) g =
      elim (Bool-cases (is_available e.state && ltb idx e.avail_idx)) [
        | inl back ↦ rw back (transition-Agrees ts n available _ (e, o) refl g)
        | inr ahead ↦ rw ahead (elim (Bool-cases (is_available e.state)) [
          | inl already ↦ rw already g
          | inr fresh ↦ rw fresh (transition-Agrees ts n available _ (e, o) refl g)
        ])
      ]

  -- The flag is not part of what agrees.
  flag-Agrees :
      (flag : Bool) (e : Entity) (o : Out)
      → Agrees id s (e, o)
      → Agrees id s (record e { gm_mismatch = flag }, o)
  flag-Agrees flag e o g = record { same_id = g.same_id; linked = g.linked; places = g.places }

  compare_gm-Agrees :
      (ts n : ℕ) (gm : Option ℕ) (r : Entity × Out)
      → shown r.0.state ≡ r.0.state
      → Agrees id s r
      → Agrees id s (compare_gm ts n gm r)
  compare_gm-Agrees ts n none (e, o) named g = g
  compare_gm-Agrees ts n (some observed) (e, o) named g =
      elim (Bool-cases (not (e.gm_id == observed) && not e.gm_mismatch)) [
        | inl differs ↦
            rw differs (transition-Agrees ts n e.state _ _ named (flag-Agrees true e o g))
        | inr same ↦ rw same (elim (Bool-cases ((e.gm_id == observed) && e.gm_mismatch)) [
          | inl matches ↦
              rw matches (transition-Agrees ts n e.state _ _ named (flag-Agrees false e o g))
          | inr quiet ↦ rw quiet g
        ])
      ]

  check_gm-Agrees :
      (ts n : ℕ) (r : Entity × Out)
      → shown r.0.state ≡ r.0.state
      → Agrees id s r
      → Agrees id s (check_gm_against_observed ts n r)
  unfolding check_gm_against_observed
  check_gm-Agrees ts n (e, o) named g = elim (Bool-cases (e.gm_id == 0)) [
    | inl zero ↦ rw zero g
    | inr some_gm ↦ rw some_gm (compare_gm-Agrees ts n _ (e, o) named g)
  ]

  on_departing-Agrees :
      (c : VarLayerContext) (r : Entity × Out) → Agrees id s r → Agrees id s (on_departing c r)
  unfolding on_departing
  on_departing-Agrees c (e, o) g = elim (Bool-cases (is_departing e.state)) [
    | inl already ↦ rw already seen
    | inr fresh ↦ rw fresh (transition-Agrees _ _ departing _ _ refl seen)
  ]
    where
      seen : Agrees id s (record e { last_seen = ts_of c }, o)
      seen = record { same_id = g.same_id; linked = g.linked; places = g.places }

  pub tick_entity-Agrees :
      (ts : ℕ) (e : Entity) (o : Out) → Agrees id s (e, o) → Agrees id s (tick_entity ts e o)
  unfolding tick_entity
  tick_entity-Agrees ts e o g = elim (Bool-cases (is_expired ts e)) [
    | inl late ↦ rw late (transition-Agrees ts 0 timed_out _ (e, o) refl g)
    | inr early ↦ rw early g
  ]

-- The state after each part.
pub announce-state : (ts n idx : ℕ) (r : Entity × Out) → (announce ts n idx r).0.state ≡ available
unfolding announce transition
announce-state ts n idx (e, o) = ground arith

compare_gm-state :
    (ts n : ℕ) (gm : Option ℕ) (r : Entity × Out) → (compare_gm ts n gm r).0.state ≡ r.0.state
unfolding transition
compare_gm-state ts n none (e, o) = refl
compare_gm-state ts n (some gm) (e, o) = ground arith

check_gm-state :
    (ts n : ℕ) (r : Entity × Out) → (check_gm_against_observed ts n r).0.state ≡ r.0.state
unfolding check_gm_against_observed
check_gm-state ts n (e, o) = ground (arith, compare_gm-state ts n (observed_gm e o.shared) (e, o))

on_available-state :
    (c : VarLayerContext) (r : Entity × Out) → (on_available c r).0.state ≡ available
unfolding on_available announced_fields
on_available-state c (e, o) = check_gm-state _ _ _ ∙ announce-state _ _ _ (e, o)

on_departing-state :
    (c : VarLayerContext) (r : Entity × Out) → (on_departing c r).0.state ≡ departing
unfolding on_departing transition
on_departing-state c (e, o) = ground arith

module _ (id : ℕ) (s : Set) (c : VarLayerContext) where
  on_available-Agrees : (r : Entity × Out) → Agrees id s r → Agrees id s (on_available c r)
  unfolding on_available announced_fields
  on_available-Agrees (e, o) g =
      check_gm-Agrees id s _ _ _ (rw (announce-state (ts_of c) (num_of c) (index c) (e, o)))
        (record { same_id = h.same_id; linked = h.linked; places = h.places })
    where
      index : VarLayerContext → ℕ
      index c = at c "available_index" % 2 ^ 32

      h : Agrees id s (announce (ts_of c) (num_of c) (index c) (e, o))
      h = announce-Agrees id s (ts_of c) (num_of c) (index c) (e, o) g

  pub on_message-Agrees : (r : Entity × Out) → Agrees id s r → Agrees id s (on_message c r)
  unfolding on_message
  on_message-Agrees (e, o) g = elim (Bool-cases (message_type c == 0)) [
    | inl zero ↦ rw zero (on_available-Agrees (e, o) g)
    | inr positive ↦ rw positive (elim (Bool-cases (message_type c == 1)) [
      | inl one ↦ rw one (on_departing-Agrees id s c (e, o) g)
      | inr other ↦ rw other g
    ])
  ]

-- The state that a message asks for.
unfoldable pub asked : ℕ → State → State
asked msg s = if msg == 0 then available else if msg == 1 then departing else s

pub on_message-state :
    (c : VarLayerContext) (r : Entity × Out)
    → (on_message c r).0.state ≡ asked (message_type c) r.0.state
unfolding on_message asked
on_message-state c (e, o) = ground (arith, on_available-state c (e, o), on_departing-state c (e, o))
