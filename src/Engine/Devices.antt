-- ===== src/Engine/Devices.antt =====
-- The device inventory of the state pass in backend/src/engine/engine.cpp: `DeviceInfo` of
-- backend/src/engine/session.h.
use avb_introspection.Base.{
  ℕ, ◌+◌, ◌/◌, ◌%◌, ◌^◌, ◌||◌, List, [], ◌∷◌, ◌==◌, if◌then◌else◌, Set, add,
}
use avb_introspection.Context.{VarLayerContext, at}
use avb_introspection.Decode.Types.{
  Proto, eth, msrp, mvrp, maap, adp, aecp, acmp, gptp, LogicCtx, DecodedPacket,
}

pub record DeviceInfo : Type 0 where
  pub packets : ℕ
  pub proto_mask : ℕ
  pub entity_id : ℕ
  pub assoc_ids : Set

abbrev pub new_device : DeviceInfo
new_device = record { packets = 0; proto_mask = 0; entity_id = 0; assoc_ids = [] }

-- The numbers of `enum class Proto`.
abbrev pub number_of : Proto → ℕ
number_of eth = 0
number_of msrp = 1
number_of mvrp = 2
number_of maap = 3
number_of adp = 4
number_of aecp = 5
number_of acmp = 6
number_of gptp = 7

-- `mask |= 1u << k`.
unfoldable pub set_bit : ℕ → ℕ → ℕ
set_bit k mask = if mask / 2 ^ k % 2 == 1 then mask else mask + 2 ^ k

abbrev add_id : ℕ → Set → Set
add_id id ids = if id == 0 then ids else add id ids

-- The role that sends an ACMP message.
unfoldable pub acmp_sender : VarLayerContext → ℕ
acmp_sender c =
    let t = at c "message_type" in
    if (t == 0) || (t == 2) || (t == 7) || (t == 9) || (t == 11)
    then at c "listener_entity_id"
    else if (t == 1) || (t == 3) || (t == 5) || (t == 13)
    then at c "talker_entity_id"
    else if (t == 4) || (t == 6) || (t == 8) || (t == 10) || (t == 12)
    then at c "controller_entity_id"
    else 0

unfoldable pub entity_of : Proto → VarLayerContext → ℕ → ℕ
entity_of adp c id = if at c "message_type" == 2 then id else at c "entity_id"
entity_of aecp c id = if at c "message_type" == 1 then at c "target_entity_id" else id
entity_of _ c id = id

-- The entity that a frame names as its sender, beside the device's own.
unfoldable pub sender_of : Proto → VarLayerContext → ℕ
sender_of aecp c = if at c "message_type" == 0 then at c "controller_entity_id" else 0
sender_of acmp c = acmp_sender c
sender_of _ c = 0

unfoldable pub note_ctx : Proto → VarLayerContext → DeviceInfo → DeviceInfo
note_ctx proto c d =
    let entity = entity_of proto c d.entity_id in
    record d {
      entity_id = entity;
      assoc_ids = add_id (sender_of proto c) (add_id entity d.assoc_ids);
    }

unfoldable pub note_ctxs : Proto → List LogicCtx → DeviceInfo → DeviceInfo
note_ctxs proto [] d = d
note_ctxs proto (c ∷ cs) d = note_ctxs proto cs (note_ctx proto c.vars d)

unfoldable pub note_packet : DecodedPacket → DeviceInfo → DeviceInfo
note_packet p d = note_ctxs p.proto p.logic_ctxs (record d {
  packets = (d.packets + 1) % 2 ^ 64;
  proto_mask = set_bit (number_of p.proto) d.proto_mask;
})
