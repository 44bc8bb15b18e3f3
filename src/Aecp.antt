-- ===== src/Aecp.antt =====
-- AECP: `AecpLogic` of backend/src/logic/aecp_logic.cpp, the AEM commands in flight, the counters of each
-- pair of a controller and a target, and the names that the responses teach.
-- Times are nanoseconds. A shared model is always attached, as the engine does.
pub mod Deadlines
mod Tests
use avb_introspection.Base.{
  ℕ, ◌+◌, ◌%◌, ◌^◌, Bool, ◌&&◌, ◌||◌, Option, none, some, List, [], ◌∷◌, ◌++◌, String, ltb, ◌==◌,
  ◌=?◌, string_key, if◌then◌else◌, Dict, Key, discrete_key, ℕ_discrete, find, find_or, insert,
  erase, push_capped, nat_key,
}
use avb_introspection.Context.{VarLayerContext, at, get_bytes, ts_of, num_of}
use avb_introspection.Shared.{SharedModel}

-- Controller and target.
abbrev pub PairKey : Type 0
PairKey = ℕ × ℕ

pub pair_key_discrete : Discrete PairKey
pair_key_discrete = hlevel ℕ_discrete

instance abbrev pub pair_key : Key PairKey
pair_key = discrete_key pair_key_discrete

-- The same with the sequence id.
abbrev pub InflightKey : Type 0
InflightKey = ℕ × ℕ × ℕ

pub inflight_key_discrete : Discrete InflightKey
inflight_key_discrete = hlevel ℕ_discrete

instance abbrev pub inflight_key : Key InflightKey
inflight_key = discrete_key inflight_key_discrete

pub record Inflight : Type 0 where
  pub cmd : ℕ
  pub sent_ts : ℕ
  pub n : ℕ

-- One answer; `rtt` has the times of the command and of the response, if the command was seen.
pub record Last : Type 0 where
  pub seq : ℕ
  pub cmd : ℕ
  pub status : ℕ
  pub rtt : Option (ℕ × ℕ)

pub record Pair : Type 0 where
  pub commands : ℕ
  pub responses : ℕ
  pub timeouts : ℕ
  pub unsolicited : ℕ
  pub last : List Last

abbrev pub new_pair : Pair
new_pair = record { commands = 0; responses = 0; timeouts = 0; unsolicited = 0; last = [] }

-- A command that timed out, or a name that was learned: the entity, the name before, the name and
-- the command.
pub data Report : Type 0 where
  timed_out : InflightKey → ℕ → Report
  named : ℕ → String → String → ℕ → Report

pub record World : Type 0 where
  pub inflight : Dict InflightKey Inflight
  pub pairs : Dict PairKey Pair
  pub shared : SharedModel
  pub pending : List Report

-- 250 ms.
abbrev pub aem_timeout : ℕ
aem_timeout = 250000000

abbrev pub last_cap : ℕ
last_cap = 10

-- The entity and the name that a response teaches, if it does.
unfoldable pub taught : VarLayerContext → ℕ → ℕ → Option (ℕ × String)
taught v cmd target =
    let inner = at v "entity_id" in
    let described : Option (ℕ × String) = elim (get_bytes v "entity_name") [
      | none ↦ none
      | some name ↦ some (if inner == 0 then target else inner, name)
    ] in
    let asked : Option (ℕ × String) = elim (get_bytes v "name") [
      | none ↦ none
      | some name ↦ some (target, name)
    ] in
    let is_entity = at v "descriptor_type" == 0 in
    if (cmd == 4) && is_entity
    then described
    else if ((cmd == 17) || (cmd == 16)) && (is_entity && (at v "name_index" == 0))
    then asked
    else none

unfoldable pub set_name : ℕ → Option (ℕ × String) → World → World
set_name cmd none w = w
set_name cmd (some (entity, name)) w =
    let current = find_or "" entity w.shared.entity_names in
    let quiet = (current =? name) || (name =? "") in
    let kept = if quiet then current else name in
    record w {
      shared = record (w.shared) { entity_names = insert entity kept w.shared.entity_names };
      pending = if quiet then w.pending else w.pending ++ named entity current name cmd ∷ [];
    }

unfoldable pub learn_name : VarLayerContext → ℕ → ℕ → World → World
learn_name v cmd target w = set_name cmd (taught v cmd target) w

abbrev pub message_of : VarLayerContext → ℕ
message_of v = at v "message_type" % 2 ^ 8

abbrev pub status_of : VarLayerContext → ℕ
status_of v = at v "status" % 2 ^ 8

abbrev pub command_of : VarLayerContext → ℕ
command_of v = at v "command_type" % 2 ^ 16

abbrev pub pair_of : VarLayerContext → PairKey
pair_of v = (at v "controller_entity_id", at v "target_entity_id")

abbrev pub key_of : VarLayerContext → InflightKey
key_of v = (at v "controller_entity_id", at v "target_entity_id", at v "sequence_id" % 2 ^ 16)

unfoldable pub on_command : VarLayerContext → World → World
on_command v w =
    let p = find_or new_pair (pair_of v) w.pairs in
    record w {
      pairs = insert (pair_of v) (record p { commands = (p.commands + 1) % 2 ^ 32 }) w.pairs;
      inflight =
          insert (key_of v) (record { cmd = command_of v; sent_ts = ts_of v; n = num_of v })
            w.inflight;
    }

abbrev pub round_trip : ℕ → Option Inflight → Option (ℕ × ℕ)
round_trip ts none = none
round_trip ts (some f) = some (f.sent_ts, ts)

unfoldable pub on_solicited : VarLayerContext → World → World
on_solicited v w =
    let p = find_or new_pair (pair_of v) w.pairs in
    let l : Last = record {
      seq = at v "sequence_id" % 2 ^ 16;
      cmd = command_of v;
      status = status_of v;
      rtt = round_trip (ts_of v) (find (key_of v) w.inflight);
    } in
    record w {
      pairs =
          insert (pair_of v)
            (record p {
              responses = (p.responses + 1) % 2 ^ 32;
              last = push_capped last_cap p.last l;
            })
            w.pairs;
      inflight = erase (key_of v) w.inflight;
    }

unfoldable pub on_unsolicited : VarLayerContext → World → World
on_unsolicited v w =
    let p = find_or new_pair (pair_of v) w.pairs in
    record w {
      pairs = insert (pair_of v) (record p { unsolicited = (p.unsolicited + 1) % 2 ^ 32 }) w.pairs;
    }

unfoldable pub on_response : VarLayerContext → World → World
on_response v w =
    let w' = if at v "unsolicited" == 0 then on_solicited v w else on_unsolicited v w in
    if status_of v == 0 then learn_name v (command_of v) (at v "target_entity_id") w' else w'

unfoldable pub on_decode : VarLayerContext → World → World
on_decode v w =
    if message_of v == 0 then on_command v w else if message_of v == 1 then on_response v w else w

-- What the loop of `onTimeTick` works on beside the commands in flight.
pub record Expiring : Type 0 where
  pub pairs : Dict PairKey Pair
  pub pending : List Report

abbrev pub is_late : ℕ → Inflight → Bool
is_late ts f = ltb (f.sent_ts + aem_timeout) ts

unfoldable pub time_out : InflightKey → Inflight → Expiring → Expiring
time_out (controller, target, seq) f t =
    let p = find_or new_pair (controller, target) t.pairs in
    record {
      pairs =
          insert (controller, target) (record p { timeouts = (p.timeouts + 1) % 2 ^ 32 }) t.pairs;
      pending = t.pending ++ timed_out (controller, target, seq) f.cmd ∷ [];
    }

-- The loop of `onTimeTick`: the commands that stay in flight, and what the others did.
unfoldable pub sweep :
    ℕ → Dict InflightKey Inflight → Expiring → Dict InflightKey Inflight × Expiring
sweep ts [] t = ([], t)
sweep ts ((key, f) ∷ rest) t =
    let (kept, t') = sweep ts rest (if is_late ts f then time_out key f t else t) in
    (if is_late ts f then kept else (key, f) ∷ kept, t')

unfoldable pub on_time_tick : ℕ → World → World
on_time_tick ts w =
    let (kept, t) = sweep ts w.inflight (record { pairs = w.pairs; pending = w.pending }) in
    record w { inflight = kept; pairs = t.pairs; pending = t.pending }
