-- ===== src/Mvrp/Registered.antt =====
-- The VLAN view and the registrar layer agree: `MvrpLogic` of backend/src/logic/mvrp_logic.cpp with
-- backend/src/logic/mrp_registrar.cpp beneath it.
use avb_introspection.Base.{
  ℕ, ◌≡◌, ◌⊎◌, ap, ◌∙◌, refl, true, false, ◌&&◌, List, [], ◌∷◌, arith, ◌==◌, ==_iff, if◌then◌else◌,
  inl, inr, Bool-cases, Dict, find, find_or, find_or-insert, contains, contains-add,
  contains-remove, ◌=?◌, nat_key,
}
use avb_introspection.Context.{VarLayerContext, at, ts_of, num_of}
use avb_introspection.Mrp.{MrpKey, inn, mvrp, vlan, Registrar, mrp_key}
use avb_introspection.Mrp.Table.{registrar_at, table, event-table}
use avb_introspection.Mrp.Registered.{leave_all-inn, tick-inn}
use avb_introspection.Mvrp.{
  Vlan, Report, World, new_vlan, is_join, transition, on_join, on_leave, react, leave_round,
  leave_loop, on_leave_all, on_declaration, mrp_event, on_decode, on_time_tick, vid_of,
}

abbrev pub vlan_at : ℕ → World → Vlan
vlan_at vid w = find_or new_vlan vid w.vlans

abbrev pub key_of : ℕ → ℕ → MrpKey
key_of vid member = (mvrp, vlan vid, member)

-- Whoever has a registrar in IN for a VLAN is listed as its member.
abbrev pub Agree : World → Type 0
Agree w =
    (vid member : ℕ)
    → registrar_at (key_of vid member) w.shared.mrp ≡ inn
    → contains member (vlan_at vid w).members ≡ true

-- The members after an event.
react-members :
    (vid ts n ev member b : ℕ) (q : Vlan × List Report)
    → contains b (react vid ts n ev member q).0.members ≡ (
        if b == member
        then if is_join ev then true else if ev == 5 then false else contains b q.0.members
        else contains b q.0.members)
unfolding react on_join on_leave transition
react-members vid ts n ev member b (v, pending) =
    ground (arith, contains-add b member v.members, contains-remove b member v.members)

-- A LeaveAll keeps the members of every VLAN.
leave_loop-members :
    (ts n member vid : ℕ) (m : Dict ℕ Vlan) (pending : List Report)
    → (find_or new_vlan vid (leave_loop ts n member m pending).0).members
      ≡ (find_or new_vlan vid m).members
unfolding leave_loop leave_round find transition
leave_loop-members ts n member vid [] pending = refl
leave_loop-members ts n member vid ((k, v) ∷ m) pending =
    ground (arith, leave_loop-members ts n member vid m (leave_round ts n member (k, v) pending).1)

-- The key of another VLAN or member is another key.
key_test :
    (vid member vid' member' : ℕ)
    → (key_of vid member =? key_of vid' member') ≡ ((vid == vid') && (member == member'))
key_test vid member vid' member' = ground (
  arith,
  mrp_key.beq_iff (key_of vid member) (key_of vid' member'),
  ==_iff vid vid',
  ==_iff member member',
)

table-inn :
    (ev : ℕ) (r : Registrar)
    → table ev r ≡ inn
    → (is_join ev ≡ true) ⊎ ((r ≡ inn) × ((ev == 5) ≡ false))
unfolding table
table-inn ev r h = ground arith

on_declaration-Agree : (c : VarLayerContext) (w : World) → Agree w → Agree (on_declaration c w)
unfolding on_declaration
on_declaration-Agree c w h vid member e = ground (
  arith,
  e,
  h vid member,
  ==_iff vid v0,
  ==_iff member m0,
  key_test vid member v0 m0,
  event-table mvrp "VID" (vlan v0) m0 ev (ts_of c) (num_of c) w.shared.mrp (key_of vid member),
  table-inn ev (registrar_at (key_of vid member) w.shared.mrp),
  find_or-insert new_vlan vid v0 r.0 w.vlans,
  react-members v0 (ts_of c) (num_of c) ev m0 member (vlan_at v0 w, w.pending),
)
  where
    v0 : ℕ
    v0 = vid_of c

    m0 : ℕ
    m0 = at c "src_mac"

    ev : ℕ
    ev = mrp_event c

    r : Vlan × List Report
    r = react v0 (ts_of c) (num_of c) ev m0 (vlan_at v0 w, w.pending)

on_leave_all-Agree : (c : VarLayerContext) (w : World) → Agree w → Agree (on_leave_all c w)
unfolding on_leave_all
on_leave_all-Agree c w h vid member e =
    ap (contains member)
      (leave_loop-members (ts_of c) (num_of c) (at c "src_mac") vid w.vlans w.pending)
    ∙ h vid member
        (leave_all-inn mvrp "VID" (ts_of c) (num_of c) w.shared.mrp (key_of vid member) e)

on_decode-Agree : (c : VarLayerContext) (w : World) → Agree w → Agree (on_decode c w)
unfolding on_decode
on_decode-Agree c w h = elim (Bool-cases (mrp_event c == 6)) [
  | inl all ↦ rw all (on_leave_all-Agree c w h)
  | inr one ↦ rw one (on_declaration-Agree c w h)
]

on_time_tick-Agree : (ts : ℕ) (w : World) → Agree w → Agree (on_time_tick ts w)
unfolding on_time_tick
on_time_tick-Agree ts w h vid member e =
    h vid member (tick-inn ts w.shared.mrp (key_of vid member) e)

pub data Call : Type 0 where
  decodes : VarLayerContext → Call
  ticks : ℕ → Call

unfoldable pub run : World → List Call → World
run w [] = w
run w (decodes c ∷ cs) = run (on_decode c w) cs
run w (ticks ts ∷ cs) = run (on_time_tick ts w) cs

-- Over any calls of `onDecode` and `onTimeTick` the two views stay in agreement: whenever the
-- registrar of a VLAN for a declaring source is IN, the VLAN lists that source as a member.
pub run-Agree : (w : World) (cs : List Call) → Agree w → Agree (run w cs)
unfolding run
run-Agree w [] h = h
run-Agree w (decodes c ∷ cs) h = run-Agree (on_decode c w) cs (on_decode-Agree c w h)
run-Agree w (ticks ts ∷ cs) h = run-Agree (on_time_tick ts w) cs (on_time_tick-Agree ts w h)
