-- ===== src/Mvrp.antt =====
-- VLAN registration by VID: `MvrpLogic` of backend/src/logic/mvrp_logic.cpp. `on_decode` and
-- `on_time_tick` are `onDecode` and `onTimeTick`; the second drives the registrars' leave timers for
-- MSRP too. The state's text "" is `unset`.
pub mod Members
pub mod Registered
mod Tests
use avb_introspection.Base.{
  ℕ, ◌%◌, ◌^◌, Bool, true, false, ◌&&◌, ◌||◌, not, none, List, [], ◌∷◌, ◌++◌, String, ◌==◌,
  if◌then◌else◌, Dict, Set, add, remove, find_or, insert, for_values, HistEntry, Transition,
  nat_key,
}
use avb_introspection.Context.{VarLayerContext, at, ts_of, num_of}
use avb_introspection.Shared.{SharedModel}
use avb_introspection.Mrp.{Mrp, mvrp, vlan, mrp_event_name}
use avb_introspection.Mrp

pub data State : Type 0 where
  unset unknown registered leaving withdrawn : State

pub data Why : Type 0 where
  leave_all_from : ℕ → Why
  declared : String → ℕ → Why
  last_left : ℕ → Why

pub record Vlan : Type 0 where
  pub members : Set
  pub state : State
  pub hist : List (HistEntry State Why)

abbrev pub new_vlan : Vlan
new_vlan = record { members = []; state = unset; hist = [] }

abbrev pub Report : Type 0
Report = Transition ℕ State Why

pub record World : Type 0 where
  pub vlans : Dict ℕ Vlan
  pub pending : List Report
  pub shared : SharedModel

abbrev pub shown : State → State
shown unset = unknown
shown s = s

abbrev pub is_registered : State → Bool
is_registered registered = true
is_registered _ = false

abbrev pub is_withdrawn : State → Bool
is_withdrawn withdrawn = true
is_withdrawn _ = false

abbrev pub is_empty {ℓ} : {A : Type ℓ} → List A → Bool
is_empty [] = true
is_empty (x ∷ xs) = false

unfoldable pub transition : ℕ → ℕ → ℕ → State → Why → Vlan × List Report → Vlan × List Report
transition vid ts n to why (v, pending) =
    let from = shown v.state in
    let entry : HistEntry State Why = record { ts = ts; n = n; from = from; to = to; why = why } in
    let report : Report = record {
      object = vid;
      from = from;
      to = to;
      why = why;
      name = "";
      stream = none;
    } in
    (record v { state = to; hist = v.hist ++ entry ∷ [] }, pending ++ report ∷ [])

-- New, JoinIn and JoinMt.
unfoldable pub on_join : ℕ → ℕ → ℕ → ℕ → ℕ → Vlan × List Report → Vlan × List Report
on_join vid ts n ev member (v, pending) =
    let v' = record v { members = add member v.members } in
    if is_registered v.state
    then (v', pending)
    else transition vid ts n registered (declared (mrp_event_name ev) member) (v', pending)

-- Lv.
unfoldable pub on_leave : ℕ → ℕ → ℕ → ℕ → Vlan × List Report → Vlan × List Report
on_leave vid ts n member (v, pending) =
    let v' = record v { members = remove member v.members } in
    if is_empty (remove member v.members) && not (is_withdrawn v.state)
    then transition vid ts n withdrawn (last_left member) (v', pending)
    else (v', pending)

abbrev pub is_join : ℕ → Bool
is_join ev = (ev == 0) || ((ev == 1) || (ev == 3))

-- The `switch` on the event.
unfoldable pub react : ℕ → ℕ → ℕ → ℕ → ℕ → Vlan × List Report → Vlan × List Report
react vid ts n ev member q =
    if is_join ev
    then on_join vid ts n ev member q
    else if ev == 5
    then on_leave vid ts n member q
    else q

-- One round of the loop over the VLANs at a LeaveAll; its entry's VID is taken from the key.
unfoldable pub leave_round : ℕ → ℕ → ℕ → ℕ × Vlan → List Report → Vlan × List Report
leave_round ts n member (vid, v) pending =
    if is_registered v.state
    then transition vid ts n leaving (leave_all_from member) (v, pending)
    else (v, pending)

unfoldable pub leave_loop : ℕ → ℕ → ℕ → Dict ℕ Vlan → List Report → Dict ℕ Vlan × List Report
leave_loop ts n member [] pending = ([], pending)
leave_loop ts n member ((vid, v) ∷ m) pending =
    let (v', pending') = leave_round ts n member (vid, v) pending in
    let (m', pending'') = leave_loop ts n member m pending' in ((vid, v') ∷ m', pending'')

unfoldable pub mrp_event : VarLayerContext → ℕ
mrp_event c = at c "mrp_event" % 2 ^ 32

unfoldable pub vid_of : VarLayerContext → ℕ
vid_of c = at c "vid" % 2 ^ 16

unfoldable pub on_leave_all : VarLayerContext → World → World
on_leave_all c w =
    let (vlans, pending) = leave_loop (ts_of c) (num_of c) (at c "src_mac") w.vlans w.pending in
    record {
      vlans = vlans;
      pending = pending;
      shared = record (w.shared) {
        mrp = Mrp.leave_all mvrp "VID" (ts_of c) (num_of c) w.shared.mrp;
      };
    }

unfoldable pub on_declaration : VarLayerContext → World → World
on_declaration c w =
    let vid = vid_of c in
    let member = at c "src_mac" in
    let ev = mrp_event c in
    let (v, pending) =
      react vid (ts_of c) (num_of c) ev member (find_or new_vlan vid w.vlans, w.pending) in
    record {
      vlans = insert vid v w.vlans;
      pending = pending;
      shared = record (w.shared) {
        mrp = Mrp.event mvrp "VID" (vlan vid) member ev (ts_of c) (num_of c) w.shared.mrp;
      };
    }

unfoldable pub on_decode : VarLayerContext → World → World
on_decode c w = if mrp_event c == 6 then on_leave_all c w else on_declaration c w

unfoldable pub on_time_tick : ℕ → World → World
on_time_tick ts w = record w { shared = record (w.shared) { mrp = Mrp.tick ts w.shared.mrp } }
