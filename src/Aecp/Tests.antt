-- ===== src/Aecp/Tests.antt =====
-- The AECP theorems at concrete inputs.
use avb_introspection.Context.{VarLayerContext, at, get_value}
use avb_introspection.Base.{
  ◌≡◌, refl, none, find, ◌==◌, ◌=?◌, ◌&&◌, if◌then◌else◌, string_key, false, ◌+◌, ◌%◌, ◌^◌, [], ◌∷◌,
  AllEntries,
}
use avb_introspection.Shared.{new_model}
use avb_introspection.Aecp.{
  PairKey, World, InflightKey, inflight_key, key_of, is_late, on_decode, on_time_tick,
}
use avb_introspection.Aecp.Deadlines.{
  timeouts_at, late_commands, on_time_tick-timeouts, on_decode-response,
}

abbrev waiting : World
waiting = record {
  inflight = ((3, 4, 9), record { cmd = 4; sent_ts = 1000000000; n = 1 }) ∷ [];
  pairs = [];
  shared = new_model;
  pending = [];
}

abbrev ends : PairKey
ends = (3, 4)

on_time_tick-timeouts_example :
    (timeouts_at ends (on_time_tick 1300000000 waiting).pairs % 2 ^ 32
      ≡ (timeouts_at ends waiting.pairs + late_commands 1300000000 ends waiting.inflight) % 2 ^ 32)
    × AllEntries (λ j f. is_late 1300000000 f ≡ false) (on_time_tick 1300000000 waiting).inflight
on_time_tick-timeouts_example = on_time_tick-timeouts 1300000000 waiting ends

abbrev answer : VarLayerContext
answer = record {
  vars =
      ("message_type", 1)
      ∷ ("controller_entity_id", 3)
      ∷ ("target_entity_id", 4)
      ∷ ("sequence_id", 9)
      ∷ [];
  bytes = [];
}

abbrev asked : InflightKey
asked = (3, 4, 9)

on_decode-response_example : find asked (on_decode answer waiting).inflight ≡ (
    if (at answer "unsolicited" == 0) && (asked =? key_of answer)
    then none
    else find asked waiting.inflight)
unfolding at get_value find
on_decode-response_example = on_decode-response answer waiting asked refl
