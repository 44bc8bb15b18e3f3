-- ===== src/Msrp.antt =====
-- MSRP stream reservations: `MsrpLogic` of backend/src/logic/msrp_logic.cpp. `on_decode` is `onDecode`,
-- `Res` and `Domain` the class's structs; the fields of `World` are its maps, the shared model and the
-- transitions not yet drained. The state's text "" is `unset`. Times are nanoseconds. A shared model is
-- always attached, as the engine does.
pub mod Settle
pub mod Publish
pub mod Interest
pub mod Listeners
pub mod Domains
mod Tests
use avb_introspection.Base.{
  ℕ, ◌%◌, ◌^◌, Bool, true, false, ◌&&◌, ◌||◌, not, Option, none, some, List, [], ◌∷◌, ◌++◌, String,
  ◌==◌, if◌then◌else◌, Dict, find_or, insert, erase, add, remove, HistEntry, Transition,
  push_capped, nat_key,
}
use avb_introspection.Context.{VarLayerContext, at, ts_of, num_of}
use avb_introspection.Shared.{SharedModel}
use avb_introspection.Mrp.{
  Label, msrp, talker_advertise, talker_failed, listener, domain, mrp_event_name,
}
use avb_introspection.Mrp

-- `enum Decl`.
pub data Decl : Type 0 where
  decl_none advertise failed : Decl

abbrev pub decl_code : Decl → ℕ
decl_code decl_none = 0
decl_code advertise = 1
decl_code failed = 2

pub data State : Type 0 where
  unset new withdrawn talker_failed_state established listener_failed pending_state : State

-- The place of a state in the list, by which states are compared.
abbrev pub tag : State → ℕ
tag unset = 0
tag new = 1
tag withdrawn = 2
tag talker_failed_state = 3
tag established = 4
tag listener_failed = 5
tag pending_state = 6

abbrev pub same : State → State → Bool
same a b = tag a == tag b

-- What the text of a reason is put together from.
pub data Why : Type 0 where
  talker_left : ℕ → Why
  advertised : String → ℕ → Why
  declared_failed : String → ℕ → Why
  listener_left listener_ignores : ℕ → Why
  listener_declares : ℕ → String → ℕ → Why

pub record Res : Type 0 where
  pub stream_id : ℕ
  pub talker_mac : ℕ
  pub dest_mac : ℕ
  pub fail_bridge : ℕ
  pub vlan : ℕ
  pub max_frame_size : ℕ
  pub max_interval_frames : ℕ
  pub acc_latency : ℕ
  pub priority : ℕ
  pub rank : ℕ
  pub fail_code : ℕ
  pub decl : Decl
  pub talker_seen : Bool
  pub listeners : Dict ℕ ℕ
  pub state : State
  pub hist : List (HistEntry State Why)

abbrev pub new_res : Res
new_res = record {
  stream_id = 0;
  talker_mac = 0;
  dest_mac = 0;
  fail_bridge = 0;
  vlan = 0;
  max_frame_size = 0;
  max_interval_frames = 0;
  acc_latency = 0;
  priority = 0;
  rank = 0;
  fail_code = 0;
  decl = decl_none;
  talker_seen = false;
  listeners = [];
  state = unset;
  hist = [];
}

pub record Domain : Type 0 where
  pub class_id : ℕ
  pub class_prio : ℕ
  pub vid : ℕ
  pub declarer : ℕ

abbrev pub Report : Type 0
Report = Transition ℕ State Why

-- What a call on one reservation may change beside it.
pub record Out : Type 0 where
  pub shared : SharedModel
  pub pending : List Report

pub record World : Type 0 where
  pub reservations : Dict ℕ Res
  pub domains : List Domain
  pub out : Out

abbrev pub shown : State → State
shown unset = new
shown s = s

abbrev pub res_hist_cap : ℕ
res_hist_cap = 200

-- The loop over the listeners in `recompute`.
unfoldable pub any_ready : Dict ℕ ℕ → Bool
any_ready [] = false
any_ready ((mac, fp) ∷ m) = ((fp == 2) || (fp == 3)) || any_ready m

unfoldable pub any_ask_failed : Dict ℕ ℕ → Bool
any_ask_failed [] = false
any_ask_failed ((mac, fp) ∷ m) = ((fp == 1) || (fp == 3)) || any_ask_failed m

abbrev pub is_none : Decl → Bool
is_none decl_none = true
is_none _ = false

-- The state that the declarations call for.
unfoldable pub target : Decl → Bool → Dict ℕ ℕ → Bool → State
target decl seen listeners withdrew =
    if withdrew || (seen && is_none decl)
    then withdrawn
    else if decl_code decl == 2
    then talker_failed_state
    else if decl_code decl == 1
    then if any_ready listeners
      then established
      else if any_ask_failed listeners
      then listener_failed
      else pending_state
    else pending_state

-- `recompute` from the state `to` on.
unfoldable pub move_to : ℕ → ℕ → State → Why → Res × Out → Res × Out
move_to ts n to why (r, o) =
    let from = shown r.state in
    let entry : HistEntry State Why = record { ts = ts; n = n; from = from; to = to; why = why } in
    let streams = o.shared.established_streams in
    let streams' =
      if same to established then add r.stream_id streams else remove r.stream_id streams in
    let report : Report = record {
      object = r.stream_id;
      from = from;
      to = to;
      why = why;
      name = "";
      stream = some r.stream_id;
    } in
    if same from to then (record r { hist = push_capped res_hist_cap r.hist entry }, o) else (
      record r { state = to; hist = r.hist ++ entry ∷ [] },
      record {
        shared = record (o.shared) { established_streams = streams' };
        pending = o.pending ++ report ∷ [];
      },
    )

unfoldable pub recompute : ℕ → ℕ → Why → Bool → Res × Out → Res × Out
recompute ts n why withdrew (r, o) =
    let seen = if is_none r.decl then r.talker_seen else true in
    move_to ts n (target r.decl seen r.listeners withdrew) why (record r { talker_seen = seen }, o)

-- `mrpKind` and `mrpKey`.
unfoldable pub mrp_kind : ℕ → String
mrp_kind attr =
    if attr == 1
    then "TALKER_ADVERTISE"
    else if attr == 2
    then "TALKER_FAILED"
    else if attr == 3
    then "LISTENER"
    else if attr == 4
    then "DOMAIN"
    else ""

unfoldable pub mrp_label : ℕ → VarLayerContext → Option Label
mrp_label attr v =
    if attr == 1
    then some (talker_advertise (at v "stream_id"))
    else if attr == 2
    then some (talker_failed (at v "stream_id"))
    else if attr == 3
    then some (listener (at v "stream_id"))
    else if attr == 4
    then some (domain (at v "sr_class_id") (at v "sr_class_priority") (at v "sr_class_vid"))
    else none

-- `mShared->msrpTalkerDecl`.
unfoldable pub publish_decl : Res → SharedModel → SharedModel
publish_decl r s = record s {
  msrp_talker_decl =
      if is_none r.decl
      then erase r.stream_id s.msrp_talker_decl
      else insert r.stream_id (decl_code r.decl) s.msrp_talker_decl;
}

module _ (v : VarLayerContext) where
  abbrev pub attr_of : ℕ
  attr_of = at v "attribute_type" % 2 ^ 8

  abbrev pub event_of : ℕ
  event_of = at v "mrp_event" % 2 ^ 32

  abbrev pub four_packed : ℕ
  four_packed = at v "four_packed_event" % 2 ^ 32

  -- The event that the registrar layer is fed.
  unfoldable pub registrar_event : ℕ
  registrar_event = if (attr_of == 3) && (four_packed == 0) then 5 else event_of

  unfoldable pub feed : Option Label → SharedModel → SharedModel
  feed none s = s
  feed (some label) s = record s {
    mrp =
        Mrp.event msrp (mrp_kind attr_of) label (at v "src_mac") registrar_event (ts_of v)
          (num_of v) s.mrp;
  }

  unfoldable pub on_leave_all : SharedModel → SharedModel
  on_leave_all s =
      if (attr_of == 1) || ((attr_of == 2) || ((attr_of == 3) || (attr_of == 4)))
      then record s { mrp = Mrp.leave_all msrp (mrp_kind attr_of) (ts_of v) (num_of v) s.mrp }
      else s

  -- The fields that a talker's declaration sets.
  unfoldable pub talker_fields : Res → Res
  talker_fields r = record r {
    stream_id = at v "stream_id";
    talker_mac = at v "src_mac";
    dest_mac = at v "dest_mac";
    vlan = at v "vlan_id" % 2 ^ 16;
    max_frame_size = at v "max_frame_size" % 2 ^ 16;
    max_interval_frames = at v "max_interval_frames" % 2 ^ 16;
    priority = at v "priority" % 2 ^ 8;
    rank = at v "rank" % 2 ^ 8;
    acc_latency = at v "accumulated_latency" % 2 ^ 32;
  }

  unfoldable pub declare : Res → Res × Why
  declare r =
      let code = at v "failure_code" % 2 ^ 8 in
      if event_of == 5
      then (record r { decl = decl_none }, talker_left (at v "src_mac"))
      else if attr_of == 1
      then (record r { decl = advertise }, advertised (mrp_event_name event_of) (at v "src_mac"))
      else (
        record r { decl = failed; fail_bridge = at v "failure_bridge_id"; fail_code = code },
        declared_failed (mrp_event_name event_of) code,
      )

  unfoldable pub on_talker : Res × Out → Res × Out
  on_talker (r, o) =
      let (r', why) = declare (talker_fields r) in
      recompute (ts_of v) (num_of v) why (event_of == 5)
        (r', record o { shared = publish_decl r' o.shared })

  unfoldable pub on_listener : Res × Out → Res × Out
  on_listener (r, o) =
      let src = at v "src_mac" in
      let leaves = (event_of == 5) || (four_packed == 0) in
      let listeners =
        if leaves then erase src r.listeners else insert src four_packed r.listeners in
      let why =
        if leaves
        then if event_of == 5 then listener_left src else listener_ignores src
        else listener_declares four_packed (mrp_event_name event_of) src in
      recompute (ts_of v) (num_of v) why false
        (record r { stream_id = at v "stream_id"; listeners = listeners }, o)

  abbrev pub declared_domain : Domain
  declared_domain = record {
    class_id = at v "sr_class_id" % 2 ^ 8;
    class_prio = at v "sr_class_priority" % 2 ^ 8;
    vid = at v "sr_class_vid" % 2 ^ 16;
    declarer = at v "src_mac";
  }

abbrev pub same_domain : Domain → Domain → Bool
same_domain e d =
    (e.class_id == d.class_id)
    && ((e.class_prio == d.class_prio) && ((e.vid == d.vid) && (e.declarer == d.declarer)))

unfoldable pub is_known : Domain → List Domain → Bool
is_known d [] = false
is_known d (e ∷ es) = same_domain e d || is_known d es

unfoldable pub on_domain : ℕ → Domain → List Domain → List Domain
on_domain ev d ds = if not (is_known d ds) && not (ev == 5) then ds ++ d ∷ [] else ds

-- `mRes[v.at("stream_id")]`, and what an operation makes of it.
unfoldable pub with_res : ℕ → (Res × Out → Res × Out) → World → World
with_res id op w =
    let (r, o) = op (find_or new_res id w.reservations, w.out) in
    record w { reservations = insert id r w.reservations; out = o }

-- The `switch` of `onDecode`.
unfoldable pub react : VarLayerContext → World → World
react v w =
    if (attr_of v == 1) || (attr_of v == 2)
    then with_res (at v "stream_id") (on_talker v) w
    else if attr_of v == 3
    then with_res (at v "stream_id") (on_listener v) w
    else if attr_of v == 4
    then record w { domains = on_domain (event_of v) (declared_domain v) w.domains }
    else w

unfoldable pub set_shared : SharedModel → World → World
set_shared s w = record w { out = record (w.out) { shared = s } }

unfoldable pub on_decode : VarLayerContext → World → World
on_decode v w =
    if event_of v == 6
    then set_shared (on_leave_all v w.out.shared) w
    else react v (set_shared (feed v (mrp_label (attr_of v) v) w.out.shared) w)
