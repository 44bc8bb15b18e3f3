-- ===== src/Adp/Tests.antt =====
-- The ADP theorems at concrete inputs.
use avb_introspection.Base.{◌≡◌, refl, [], ◌∷◌, find, contains, nat_key, string_key}
use avb_introspection.Context.{VarLayerContext, at, get_value}
use avb_introspection.Shared.{new_model}
use avb_introspection.Adp.{
  Entity, World, available, timed_out, new_entity, on_decode, on_time_tick, message_type,
}
use avb_introspection.Adp.Steps.{asked}
use avb_introspection.Adp.Available.{IsPublished, state_at, on_decode-state}
use avb_introspection.Adp.Expiry.{expires, decodes, ticks, run, run-IsPublished, on_time_tick-state}

abbrev start : World
start = record { entities = []; out = record { shared = new_model; pending = [] } }

start-IsPublished : IsPublished start
unfolding contains find
start-IsPublished = record { unique = tt; entries = tt; published = λ id. refl }

-- Entity 9 announces itself at 1 s for 2 s.
abbrev announcement : VarLayerContext
announcement = record {
  vars =
      ("ts_ns", 1000000000)
      ∷ ("pkt_num", 1)
      ∷ ("message_type", 0)
      ∷ ("entity_id", 9)
      ∷ ("valid_time", 2)
      ∷ ("gptp_grandmaster_id", 77)
      ∷ [];
  bytes = [];
}

run-IsPublished_example : IsPublished (run start (decodes announcement ∷ ticks 3500000000 ∷ []))
run-IsPublished_example =
    run-IsPublished start (decodes announcement ∷ ticks 3500000000 ∷ []) start-IsPublished

on_decode-state_example : state_at 9 (on_decode announcement start) ≡ available
unfolding at get_value find message_type asked
on_decode-state_example = on_decode-state announcement start 9

abbrev listed : Entity
listed = record new_entity {
  entity_id = 9;
  valid_time = 2;
  last_seen = 1000000000;
  state = available;
}

abbrev one_entity : World
one_entity = record start { entities = (9, listed) ∷ [] }

on_time_tick-state_example : state_at 9 (on_time_tick 3500000000 one_entity) ≡ timed_out
unfolding find expires
on_time_tick-state_example = on_time_tick-state 3500000000 one_entity 9
