-- ===== src/Adp.antt =====
-- The ADP entity lifecycle: `AdpLogic` of backend/src/logic/adp_logic.cpp.
-- `on_decode` and `on_time_tick` are `onDecode` and `onTimeTick`; the module and the shared model are
-- passed along together as a `World`. The state's text "" is `unset`. Times are nanoseconds, and
-- `valid_time` is in seconds. A shared model is always attached, as the engine does.
pub mod Steps
pub mod Available
pub mod Expiry
pub mod Gm
mod Tests
use avb_introspection.Base.{
  ℕ, zero, suc, ◌+◌, ◌*◌, ◌%◌, ◌^◌, Bool, true, false, ◌&&◌, not, Option, none, some, List, [], ◌∷◌,
  ◌++◌, String, ltb, ◌==◌, if◌then◌else◌, Dict, Set, find, find_or, insert, for_values, add, remove,
  HistEntry, Transition, nat_key,
}
use avb_introspection.Context.{VarLayerContext, at, ts_of, num_of}
use avb_introspection.Shared.{SharedModel, GptpDomainTruth, name_of}

pub data State : Type 0 where
  unset unknown available departing timed_out : State

-- What the text of a reason is put together from.
pub data Why : Type 0 where
  available_received departing_received : Why
  index_backwards : ℕ → ℕ → Why
  no_reannounce : ℕ → Why
  gm_differs : ℕ → ℕ → ℕ → Why
  gm_matches : ℕ → Why

pub record Entity : Type 0 where
  pub entity_id : ℕ
  pub model_id : ℕ
  pub gm_id : ℕ
  pub avail_idx : ℕ
  pub talker_sources : ℕ
  pub listener_sinks : ℕ
  pub gptp_domain : ℕ
  pub gm_mismatch : Bool
  pub valid_time : ℕ
  pub last_seen : ℕ
  pub state : State
  pub hist : List (HistEntry State Why)

abbrev pub new_entity : Entity
new_entity = record {
  entity_id = 0;
  model_id = 0;
  gm_id = 0;
  avail_idx = 0;
  talker_sources = 0;
  listener_sinks = 0;
  gptp_domain = 0;
  gm_mismatch = false;
  valid_time = 0;
  last_seen = 0;
  state = unset;
  hist = [];
}

-- What a call on one entity may change beside it: the shared model and the pending transitions.
pub record Out : Type 0 where
  pub shared : SharedModel
  pub pending : List (Transition ℕ State Why)

pub record World : Type 0 where
  pub entities : Dict ℕ Entity
  pub out : Out

abbrev pub shown : State → State
shown unset = unknown
shown s = s

abbrev pub is_available : State → Bool
is_available available = true
is_available _ = false

abbrev pub is_departing : State → Bool
is_departing departing = true
is_departing _ = false

unfoldable pub transition : ℕ → ℕ → State → Why → Entity × Out → Entity × Out
transition ts n to why (e, o) =
    let from = shown e.state in
    let entry : HistEntry State Why = record { ts = ts; n = n; from = from; to = to; why = why } in
    let set = o.shared.adp_available in
    let set' = if is_available to then add e.entity_id set else remove e.entity_id set in
    let report : Transition ℕ State Why = record {
      object = e.entity_id;
      from = from;
      to = to;
      why = why;
      name = name_of e.entity_id o.shared;
      stream = none;
    } in
    (
      record e { state = to; hist = e.hist ++ entry ∷ [] },
      record {
        shared = record (o.shared) { adp_available = set' };
        pending = o.pending ++ report ∷ [];
      },
    )

-- The grandmaster of the entity's domain, if an Announce has been observed there.
unfoldable pub observed_gm : Entity → SharedModel → Option ℕ
observed_gm e s = elim (find e.gptp_domain s.gptp_domains) [
  | none ↦ none
  | some t ↦ if t.gm_known then some t.gm_identity else none
]

abbrev compare_gm : ℕ → ℕ → Option ℕ → Entity × Out → Entity × Out
compare_gm ts n none (e, o) = (e, o)
compare_gm ts n (some observed) (e, o) =
    let differs = gm_differs e.gm_id e.gptp_domain observed in
    if not (e.gm_id == observed) && not e.gm_mismatch
    then transition ts n e.state differs (record e { gm_mismatch = true }, o)
    else (if (e.gm_id == observed) && e.gm_mismatch
        then transition ts n e.state (gm_matches observed) (record e { gm_mismatch = false }, o)
        else (e, o))

unfoldable pub check_gm_against_observed : ℕ → ℕ → Entity × Out → Entity × Out
check_gm_against_observed ts n (e, o) =
    if e.gm_id == 0 then (e, o) else compare_gm ts n (observed_gm e o.shared) (e, o)

pub data GmInSync : Type 0 where
  unknown match mismatch : GmInSync

-- `gmInSync`, shown in a snapshot.
unfoldable pub gm_in_sync : Entity → SharedModel → GmInSync
gm_in_sync e s =
    let verdict : GmInSync = elim (observed_gm e s) [
      | none ↦ GmInSync.unknown
      | some observed ↦ if e.gm_id == observed then match else mismatch
    ] in
    if e.gm_id == 0 then GmInSync.unknown else verdict

-- ENTITY_AVAILABLE: the state first, then the announced fields.
unfoldable pub announce : ℕ → ℕ → ℕ → Entity × Out → Entity × Out
announce ts n idx (e, o) =
    if is_available e.state && ltb idx e.avail_idx
    then transition ts n available (index_backwards e.avail_idx idx) (e, o)
    else (if not (is_available e.state)
        then transition ts n available available_received (e, o)
        else (e, o))

unfoldable pub announced_fields : VarLayerContext → Entity → Entity
announced_fields c e = record e {
  avail_idx = at c "available_index" % 2 ^ 32;
  valid_time = at c "valid_time";
  last_seen = ts_of c;
  model_id = at c "entity_model_id";
  gm_id = at c "gptp_grandmaster_id";
  gptp_domain = at c "gptp_domain_number" % 2 ^ 8;
  talker_sources = at c "talker_stream_sources" % 2 ^ 16;
  listener_sinks = at c "listener_stream_sinks" % 2 ^ 16;
}

unfoldable pub on_available : VarLayerContext → Entity × Out → Entity × Out
on_available c (e, o) =
    let (e', o') = announce (ts_of c) (num_of c) (at c "available_index" % 2 ^ 32) (e, o) in
    check_gm_against_observed (ts_of c) (num_of c) (announced_fields c e', o')

unfoldable pub on_departing : VarLayerContext → Entity × Out → Entity × Out
on_departing c (e, o) =
    let e' = record e { last_seen = ts_of c } in
    if not (is_departing e.state)
    then transition (ts_of c) (num_of c) departing departing_received (e', o)
    else (e', o)

unfoldable pub message_type : VarLayerContext → ℕ
message_type c = at c "message_type" % 2 ^ 8

-- What `onDecode` does to the entity that the message names.
unfoldable pub on_message : VarLayerContext → Entity × Out → Entity × Out
on_message c (e, o) =
    if message_type c == 0
    then on_available c (e, o)
    else if message_type c == 1
    then on_departing c (e, o)
    else (e, o)

-- `mEntities[id]`, with its id set, and what becomes of it.
abbrev pub entity_of : ℕ → World → Entity
entity_of id w = record (find_or new_entity id w.entities) { entity_id = id }

unfoldable pub put : ℕ → World → Entity × Out → World
put id w (e, o) = record { entities = insert id e w.entities; out = o }

-- ENTITY_DISCOVER (2) carries no entity state.
unfoldable pub on_decode : VarLayerContext → World → World
on_decode c w =
    let id = at c "entity_id" in
    if message_type c == 2 then w else put id w (on_message c (entity_of id w, w.out))

-- `e.state == "AVAILABLE" && e.validTime > 0 && ts > e.lastSeen + e.validTime`.
abbrev pub is_expired : ℕ → Entity → Bool
is_expired ts e =
    is_available e.state && (ltb 0 e.valid_time && ltb (e.last_seen + e.valid_time * 1000000000) ts)

unfoldable pub tick_entity : ℕ → Entity → Out → Entity × Out
tick_entity ts e o =
    if is_expired ts e
    then transition ts 0 timed_out (no_reannounce e.valid_time) (e, o)
    else (e, o)

unfoldable pub on_time_tick : ℕ → World → World
on_time_tick ts w =
    let (entities, out) = for_values (tick_entity ts) w.entities w.out in
    record { entities = entities; out = out }
