-- ===== src/Adp/Available.antt =====
-- The set of available entities that `AdpLogic` of backend/src/logic/adp_logic.cpp keeps for the
-- other modules, through whole calls of `onDecode` and `onTimeTick`.
use avb_introspection.Base.{
  ℕ, ◌≡◌, refl, arith, ◌==◌, if◌then◌else◌, ==_iff, inl, inr, Bool-cases, Option-cases, find,
  find_or, find_or-insert, AllEntries, AllEntries-insert, AllEntries-find, NodupKeys,
  insert-NodupKeys, Linked, contains, nat_key,
}
use avb_introspection.Context.{VarLayerContext, at}
use avb_introspection.Adp.{
  State, Entity, Out, World, new_entity, shown, is_available, message_type, on_message, on_decode,
  entity_of, put,
}
use avb_introspection.Adp.Steps.{Agrees, on_message-Agrees, on_message-state, asked}

-- An entity stands under its own id, and its history leads from UNKNOWN to its state.
abbrev pub EntityWf : ℕ → Entity → Type 0
EntityWf k e = (e.entity_id ≡ k) × Linked State.unknown e.hist (shown e.state)

-- The state under which an entity is known; `unset` if it has not been seen.
abbrev pub state_at : ℕ → World → State
state_at id w = (find_or new_entity id w.entities).state

pub record IsPublished (w : World) : Type 0 where
  pub unique : NodupKeys w.entities
  pub entries : AllEntries EntityWf w.entities
  pub published : (id : ℕ) → contains id w.out.shared.adp_available ≡ is_available (state_at id w)

found-Linked :
    (w : World) (id : ℕ)
    → IsPublished w
    → Linked State.unknown (entity_of id w).hist (shown (entity_of id w).state)
found-Linked w id h = elim (Option-cases (find id w.entities)) [
  | inl missing ↦ rw (missing, find_or, Linked) refl
  | inr (e, found) ↦
      rw (found, find_or, Linked) (AllEntries-find EntityWf id e w.entities h.entries found).1
]

found-Agrees :
    (w : World) (id : ℕ)
    → IsPublished w
    → Agrees id w.out.shared.adp_available (entity_of id w, w.out)
found-Agrees w id h = record {
  same_id = refl;
  linked = found-Linked w id h;
  places = λ b. elim (Bool-cases (b == id)) [
    | inl same ↦ rw (same, (==_iff b id).0 same) (h.published id)
    | inr other ↦ rw other
  ];
}

put-state :
    (id b : ℕ) (w : World) (r : Entity × Out)
    → state_at b (put id w r) ≡ (if b == id then r.0.state else state_at b w)
unfolding put
put-state id b w (e, o) = ground (arith, find_or-insert new_entity b id e w.entities)

put-IsPublished :
    (id : ℕ) (w : World) (r : Entity × Out)
    → Agrees id w.out.shared.adp_available r
    → IsPublished w
    → IsPublished (put id w r)
unfolding put
put-IsPublished id w (e, o) g h = record {
  unique = insert-NodupKeys id e w.entities h.unique;
  entries = AllEntries-insert EntityWf id e w.entities (g.same_id, g.linked) h.entries;
  published =
      λ b. ground (arith, find_or-insert new_entity b id e w.entities, g.places b, h.published b);
}

-- `onDecode` moves the state of the entity that the message names to AVAILABLE for an
-- ENTITY_AVAILABLE and to DEPARTING for an ENTITY_DEPARTING; every other message and every other
-- entity is left in its state.
pub on_decode-state :
    (c : VarLayerContext) (w : World) (id : ℕ)
    → state_at id (on_decode c w)
      ≡ (if id == at c "entity_id" then asked (message_type c) (state_at id w) else state_at id w)
unfolding on_decode asked
on_decode-state c w id = ground (
  arith,
  ==_iff id (at c "entity_id"),
  put-state (at c "entity_id") id w (on_message c (entity_of (at c "entity_id") w, w.out)),
  on_message-state c (entity_of (at c "entity_id") w, w.out),
)

pub on_decode-IsPublished :
    (c : VarLayerContext) (w : World) → IsPublished w → IsPublished (on_decode c w)
unfolding on_decode
on_decode-IsPublished c w h = elim (Bool-cases (message_type c == 2)) [
  | inl discover ↦ rw discover h
  | inr other ↦ rw other (
      put-IsPublished id w _
        (on_message-Agrees id w.out.shared.adp_available c (entity_of id w, w.out)
          (found-Agrees w id h))
        h)
]
  where
    id : ℕ
    id = at c "entity_id"
