-- ===== src/Mvrp/Members.antt =====
-- The state of a VLAN and its members: `MvrpLogic` of backend/src/logic/mvrp_logic.cpp.
use avb_introspection.Base.{
  ℕ, ◌≡◌, refl, Bool, true, false, ◌&&◌, not, List, [], ◌∷◌, arith, ◌==◌, inl, inr, Bool-cases,
  Dict, Set, add, remove, contains, AllEntries, AllEntries-insert, AllEntries-find_or, Linked,
  Linked-append, nat_key,
}
use avb_introspection.Context.{VarLayerContext, ts_of, num_of}
use avb_introspection.Mvrp.{
  State, registered, leaving, withdrawn, Why, Vlan, Report, World, new_vlan, shown, is_registered,
  is_withdrawn, is_empty, is_join, transition, on_join, on_leave, react, leave_round, leave_loop,
  on_leave_all, on_declaration, mrp_event, on_decode, vid_of,
}

-- The states in which somebody has declared the VLAN.
abbrev pub is_declared : State → Bool
is_declared registered = true
is_declared leaving = true
is_declared _ = false

-- A VLAN is declared exactly if it has members, and its history leads from UNKNOWN to its state.
pub record VlanWf (v : Vlan) : Type 0 where
  pub membership : is_declared v.state ≡ not (is_empty v.members)
  pub linked : Linked State.unknown v.hist (shown v.state)

transition-Linked :
    (vid ts n : ℕ) (to : State) (why : Why) (q : Vlan × List Report)
    → shown to ≡ to
    → Linked State.unknown q.0.hist (shown q.0.state)
    → Linked State.unknown
        (transition vid ts n to why q).0.hist
        (shown (transition vid ts n to why q).0.state)
unfolding transition
transition-Linked vid ts n to why (v, pending) e l =
    rw e (Linked-append State.unknown (shown v.state) v.hist _ l refl)

add-nonempty : (a : ℕ) (xs : Set) → is_empty (add a xs) ≡ false
unfolding add contains
add-nonempty a [] = refl
add-nonempty a (x ∷ xs) = ground arith

on_join-VlanWf :
    (vid ts n ev member : ℕ) (q : Vlan × List Report)
    → VlanWf q.0
    → VlanWf (on_join vid ts n ev member q).0
unfolding on_join
on_join-VlanWf vid ts n ev member (v, pending) w = elim (Bool-cases (is_registered v.state)) [
  | inl already ↦
      rw already
        (record { membership = ground (arith, add-nonempty member v.members); linked = w.linked })
  | inr fresh ↦ rw fresh (record {
    membership = unfold transition in (ground (arith, add-nonempty member v.members));
    linked = transition-Linked vid ts n registered _ _ refl w.linked;
  })
]

remove-empty : (a : ℕ) (xs : Set) → is_empty xs ≡ true → is_empty (remove a xs) ≡ true
unfolding remove
remove-empty a [] e = refl
remove-empty a (x ∷ xs) e = cc

on_leave-VlanWf :
    (vid ts n member : ℕ) (q : Vlan × List Report)
    → VlanWf q.0
    → VlanWf (on_leave vid ts n member q).0
unfolding on_leave
on_leave-VlanWf vid ts n member (v, pending) w =
    elim (Bool-cases (is_empty (remove member v.members) && not (is_withdrawn v.state))) [
      | inl last ↦ rw last (record {
        membership = unfold transition in ground arith;
        linked = transition-Linked vid ts n withdrawn _ _ refl w.linked;
      })
      | inr more ↦ rw more (record {
        membership = ground (arith, w.membership, remove-empty member v.members);
        linked = w.linked;
      })
    ]

react-VlanWf :
    (vid ts n ev member : ℕ) (q : Vlan × List Report)
    → VlanWf q.0
    → VlanWf (react vid ts n ev member q).0
unfolding react
react-VlanWf vid ts n ev member q w = elim (Bool-cases (is_join ev)) [
  | inl joins ↦ rw joins (on_join-VlanWf vid ts n ev member q w)
  | inr e ↦ elim (Bool-cases (ev == 5)) [
    | inl leaves ↦ rw (e, leaves) (on_leave-VlanWf vid ts n member q w)
    | inr e5 ↦ rw (e, e5) w
  ]
]

leave_round-VlanWf :
    (ts n member vid : ℕ) (v : Vlan) (pending : List Report)
    → VlanWf v
    → VlanWf (leave_round ts n member (vid, v) pending).0
unfolding leave_round
leave_round-VlanWf ts n member vid v pending w = elim (Bool-cases (is_registered v.state)) [
  | inl here ↦ rw here (record {
    membership = unfold transition in ground (arith, w.membership);
    linked = transition-Linked vid ts n leaving _ _ refl w.linked;
  })
  | inr elsewhere ↦ rw elsewhere w
]

leave_loop-VlanWf :
    (ts n member : ℕ) (m : Dict ℕ Vlan) (pending : List Report)
    → AllEntries (λ _ v. VlanWf v) m
    → AllEntries (λ _ v. VlanWf v) (leave_loop ts n member m pending).0
unfolding leave_loop
leave_loop-VlanWf ts n member [] pending h = tt
leave_loop-VlanWf ts n member ((vid, v) ∷ m) pending h = (
  leave_round-VlanWf ts n member vid v pending h.0,
  leave_loop-VlanWf ts n member m (leave_round ts n member (vid, v) pending).1 h.1,
)

new_vlan-VlanWf : VlanWf new_vlan
new_vlan-VlanWf = record { membership = refl; linked = refl }

-- `onDecode` keeps every VLAN in order: it is REGISTERED or LEAVING exactly if it has members, and
-- its history leads from UNKNOWN to its state without a gap.
pub on_decode-VlanWf :
    (c : VarLayerContext) (w : World)
    → AllEntries (λ _ v. VlanWf v) w.vlans
    → AllEntries (λ _ v. VlanWf v) (on_decode c w).vlans
unfolding on_decode on_leave_all on_declaration
on_decode-VlanWf c w h = elim (Bool-cases (mrp_event c == 6)) [
  | inl all ↦ rw all (leave_loop-VlanWf (ts_of c) (num_of c) _ w.vlans w.pending h)
  | inr one ↦ rw one (
      AllEntries-insert (λ _ v. VlanWf v) _ _ w.vlans
        (react-VlanWf (vid_of c) _ _ _ _ (_, w.pending)
          (AllEntries-find_or (λ _ v. VlanWf v) new_vlan _ w.vlans new_vlan-VlanWf h))
        h)
]
