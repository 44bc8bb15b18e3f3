-- ===== src/Maap/Claims.antt =====
-- The claim lifecycle of `MaapLogic` in backend/src/logic/maap_logic.cpp.
use avb_introspection.Base.{
  ℕ, ◌≡◌, refl, Bool, true, false, List, arith, ◌==◌, inl, inr, Bool-cases, Linked, Linked-append,
  HistEntry, All, All-append, AllEntries, AllEntries-insert, AllEntries-find_or, nat_key,
}
use avb_introspection.Context.{VarLayerContext, ts_of, num_of}
use avb_introspection.Maap.{
  State, unknown, probing, acquired, defending, lost, Why, Range, Report, World, new_range, shown,
  is_acquired, is_defending, is_probing, transition, on_probe, on_announce, on_defend, message_type,
  abandons, give_up, react, on_message, on_decode,
}

-- The diagram: LOST is entered from a held range only, and left by probing only.
abbrev pub is_edge : State → State → Bool
is_edge unknown probing = true
is_edge unknown acquired = true
is_edge unknown defending = true
is_edge probing acquired = true
is_edge probing defending = true
is_edge acquired probing = true
is_edge acquired defending = true
is_edge acquired lost = true
is_edge defending probing = true
is_edge defending acquired = true
is_edge defending lost = true
is_edge lost probing = true
is_edge _ _ = false

abbrev pub is_lost : State → Bool
is_lost lost = true
is_lost _ = false

abbrev pub is_unknown : State → Bool
is_unknown unknown = true
is_unknown _ = false

abbrev IsEdge : HistEntry State Why → Type 0
IsEdge h = is_edge h.from h.to ≡ true

-- The history follows the diagram from UNKNOWN to the state.
pub record Follows (r : Range) : Type 0 where
  pub linked : Linked State.unknown r.hist (shown r.state)
  pub edges : All IsEdge r.hist

pub record RangeWf (r : Range) : Type 0 where
  pub follows : Follows r
  pub held : is_lost r.state ≡ false
  pub named : is_unknown r.state ≡ false

transition-Follows :
    (claimant ts n : ℕ) (to : State) (why : Why) (q : Range × List Report)
    → shown to ≡ to
    → is_edge (shown q.0.state) to ≡ true
    → Follows q.0
    → Follows (transition claimant ts n to why q).0
unfolding transition
transition-Follows claimant ts n to why (r, pending) e edge f = record {
  linked = rw e (Linked-append State.unknown (shown r.state) r.hist _ f.linked refl);
  edges = All-append IsEdge r.hist _ f.edges (edge, tt);
}

new_range-RangeWf : RangeWf new_range
new_range-RangeWf = record {
  follows = record { linked = refl; edges = tt };
  held = refl;
  named = refl;
}

-- Between giving a range up and probing a range may be LOST.
abbrev Given : Range → Type 0
Given r = Follows r × (is_unknown r.state ≡ false)

on_probe-RangeWf :
    (c : VarLayerContext) (claimant : ℕ) (q : Range × List Report)
    → Given q.0
    → RangeWf (on_probe c claimant q).0
unfolding on_probe
on_probe-RangeWf c claimant (r, pending) g = elim (Bool-cases (is_probing r.state)) [
  | inl already ↦ rw already (record {
    follows = record { linked = g.0.linked; edges = g.0.edges };
    held = ground arith;
    named = g.1;
  })
  | inr fresh ↦ rw fresh (record {
    follows =
        transition-Follows claimant _ _ probing _ (_, pending) refl (ground arith)
          (record { linked = g.0.linked; edges = g.0.edges });
    held = unfold transition in refl;
    named = unfold transition in refl;
  })
]

on_announce-RangeWf :
    (c : VarLayerContext) (claimant : ℕ) (q : Range × List Report)
    → RangeWf q.0
    → RangeWf (on_announce c claimant q).0
unfolding on_announce
on_announce-RangeWf c claimant (r, pending) w = elim (Bool-cases (is_acquired r.state)) [
  | inl already ↦ rw already w
  | inr fresh ↦ rw fresh (record {
    follows =
        transition-Follows claimant _ _ acquired _ (r, pending) refl (ground (arith, w.held))
          w.follows;
    held = unfold transition in refl;
    named = unfold transition in refl;
  })
]

on_defend-RangeWf :
    (c : VarLayerContext) (claimant : ℕ) (q : Range × List Report)
    → RangeWf q.0
    → RangeWf (on_defend c claimant q).0
unfolding on_defend
on_defend-RangeWf c claimant (r, pending) w = elim (Bool-cases (is_defending r.state)) [
  | inl already ↦ rw already (record {
    follows = record { linked = w.follows.linked; edges = w.follows.edges };
    held = w.held;
    named = w.named;
  })
  | inr fresh ↦ rw fresh (record {
    follows =
        transition-Follows claimant _ _ defending _ (_, pending) refl (ground (arith, w.held))
          (record { linked = w.follows.linked; edges = w.follows.edges });
    held = unfold transition in refl;
    named = unfold transition in refl;
  })
]

-- The new range of addresses is not part of the history.
renamed-RangeWf :
    (start count : ℕ) (r : Range) → RangeWf r → RangeWf (record r { start = start; count = count })
renamed-RangeWf start count r w = record {
  follows = record { linked = w.follows.linked; edges = w.follows.edges };
  held = w.held;
  named = w.named;
}

react-RangeWf :
    (c : VarLayerContext) (claimant : ℕ) (q : Range × List Report)
    → RangeWf q.0
    → RangeWf (react c claimant q).0
unfolding react
react-RangeWf c claimant q w = elim (Bool-cases (message_type c == 1)) [
  | inl probe ↦ rw probe (on_probe-RangeWf c claimant q (w.follows, w.named))
  | inr e1 ↦ elim (Bool-cases (message_type c == 3)) [
    | inl announce ↦ rw (e1, announce) (on_announce-RangeWf c claimant q w)
    | inr e3 ↦ elim (Bool-cases (message_type c == 2)) [
      | inl defend ↦ rw (e1, e3, defend) (on_defend-RangeWf c claimant q w)
      | inr e2 ↦ rw (e1, e3, e2) w
    ]
  ]
]

lost-Given :
    (c : VarLayerContext) (claimant ts n : ℕ) (why : Why) (q : Range × List Report)
    → RangeWf q.0
    → abandons c q.0 ≡ true
    → Given (transition claimant ts n lost why q).0
lost-Given c claimant ts n why (r, pending) w gives = (
  transition-Follows claimant ts n lost why (r, pending) refl (ground arith) w.follows,
  unfold transition in refl,
)

pub abandons-probe :
    (c : VarLayerContext) (r : Range) → abandons c r ≡ true → (message_type c == 1) ≡ true
abandons-probe c r e = ground arith

on_message-RangeWf :
    (c : VarLayerContext) (claimant : ℕ) (q : Range × List Report)
    → RangeWf q.0
    → RangeWf (on_message c claimant q).0
unfolding on_message give_up react
on_message-RangeWf c claimant (r, pending) w = elim (Bool-cases (abandons c r)) [
  | inl gives ↦
      let g = lost-Given c claimant (ts_of c) (num_of c) _ (r, pending) w gives in
      rw (gives, react, abandons-probe c r gives)
        (on_probe-RangeWf c claimant (_, _)
          (record { linked = g.0.linked; edges = g.0.edges }, g.1))
  | inr keeps ↦ rw keeps (react-RangeWf c claimant (_, pending) (renamed-RangeWf _ _ r w))
]

-- `onDecode` keeps every range in order: the history of each claimant leads from UNKNOWN to its
-- state along the diagram `is_edge` (LOST from ACQUIRED or DEFENDING only, and after LOST only
-- PROBING), and no claimant is left in LOST.
pub on_decode-RangeWf :
    (c : VarLayerContext) (w : World)
    → AllEntries (λ _ r. RangeWf r) w.ranges
    → AllEntries (λ _ r. RangeWf r) (on_decode c w).ranges
unfolding on_decode
on_decode-RangeWf c w h =
    AllEntries-insert (λ _ r. RangeWf r) _ _ w.ranges
      (on_message-RangeWf c _ (_, w.pending)
        (AllEntries-find_or (λ _ r. RangeWf r) new_range _ w.ranges new_range-RangeWf h))
      h
