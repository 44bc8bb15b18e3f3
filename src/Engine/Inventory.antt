-- ===== src/Engine/Inventory.antt =====
-- The device inventory over a run of the state pass in backend/src/engine/engine.cpp.
use avb_introspection.Base.{
  ℕ, ◌+◌, ◌%◌, ◌^◌, ◌≡◌, inl, inr, refl, ap, ◌∙◌, Bool, true, false, ◌&&◌, List, [], ◌∷◌, arith,
  ◌==◌, if◌then◌else◌, Bool-cases, if_either, Dict, ◌=?◌, find_or, find_or-insert, insert, nat_key,
  string_key,
}
use avb_introspection.Decode.Types.{Proto, LogicCtx, DecodedPacket}
use avb_introspection.Engine.Devices.{DeviceInfo, new_device, note_ctx, note_ctxs, note_packet}
use avb_introspection.Engine.Keeps.{IsKept, feed_all-IsKept, tick_all-IsKept}
use avb_introspection.Engine.{
  Packet, Pass, push_event, note_device, on_error, on_packet, handle, run,
}

abbrev Devices : Type 0
Devices = Dict ℕ DeviceInfo

devices-IsKept : (m : Devices) (ts : ℕ) → IsKept (λ p. p.devices ≡ m) ts
unfolding push_event
devices-IsKept m ts = record { pushed = λ n t proto p h. h; moved = λ s p h. h }

note_ctxs-packets :
    (proto : Proto) (cs : List LogicCtx) (d : DeviceInfo)
    → (note_ctxs proto cs d).packets ≡ d.packets
unfolding note_ctxs note_ctx
note_ctxs-packets proto [] d = refl
note_ctxs-packets proto (c ∷ cs) d = note_ctxs-packets proto cs _

note_packet-packets :
    (d : DecodedPacket) (v : DeviceInfo) → (note_packet d v).packets ≡ (v.packets + 1) % 2 ^ 64
unfolding note_packet
note_packet-packets d v = note_ctxs-packets d.proto d.logic_ctxs _

module _ (mac : ℕ) where
  -- The packets of the device, and whether a packet of interest is the device's.
  abbrev pub packets_at : Devices → ℕ
  packets_at m = (find_or new_device mac m).packets

  abbrev pub from_device : Packet → ℕ
  from_device x = if x.decoded.interesting && (x.decoded.src_mac == mac) then 1 else 0

  unfoldable pub from_devices : List Packet → ℕ
  from_devices [] = 0
  from_devices (x ∷ xs) = from_device x + from_devices xs

  picked :
      (t : Bool) (d : DecodedPacket) (m : Devices)
      → (mac =? d.src_mac) ≡ t
      → (if t
            then note_packet d (find_or new_device d.src_mac m)
            else find_or new_device mac m).packets
          % 2 ^ 64
        ≡ (packets_at m + (if d.src_mac == mac then 1 else 0)) % 2 ^ 64
  picked true d m e =
      let here : mac ≡ d.src_mac = (nat_key.beq_iff mac d.src_mac).0 e in
      let there : packets_at m ≡ (find_or new_device d.src_mac m).packets =
        ap (λ k. (find_or new_device k m).packets) here in
      let counted : (d.src_mac == mac) ≡ true = ground (arith, here) in
      rw (note_packet-packets d (find_or new_device d.src_mac m), counted) (omega (arith, there))
  picked false d m e =
      let other : (d.src_mac == mac) ≡ false = ground (arith, e) in rw other (omega arith)

  insert-packets :
      (d : DecodedPacket) (m : Devices)
      → packets_at (insert d.src_mac (note_packet d (find_or new_device d.src_mac m)) m) % 2 ^ 64
        ≡ (packets_at m + (if d.src_mac == mac then 1 else 0)) % 2 ^ 64
  insert-packets d m =
      ap (λ v. v.packets % 2 ^ 64)
        (find_or-insert new_device mac d.src_mac (note_packet d (find_or new_device d.src_mac m)) m)
      ∙ picked (mac =? d.src_mac) d m refl

  note_device-packets :
      (d : DecodedPacket) (p : Pass)
      → (mac == 0) ≡ false
      → packets_at (note_device d p).devices % 2 ^ 64
        ≡ (packets_at p.devices + (if d.src_mac == mac then 1 else 0)) % 2 ^ 64
  unfolding note_device
  note_device-packets d p real = elim (Bool-cases (d.src_mac == 0)) [
    | inl e ↦
        let other : (d.src_mac == mac) ≡ false = ground (arith, e, real) in
        rw (e, note_device) (rw other (omega arith))
    | inr e ↦ rw (e, note_device) (insert-packets d p.devices)
  ]

  handle-devices :
      (services : List Proto) (x : Packet) (p : Pass)
      → x.decoded.interesting ≡ true
      → (handle services x p).devices ≡ (note_device x.decoded p).devices
  unfolding handle on_packet on_error push_event
  handle-devices services x p e =
      let kept = devices-IsKept (note_device x.decoded p).devices x.ts in
      simp e (
        tick_all-IsKept _ x.ts kept services _ (
          if_either {A = Pass} (λ q. q.devices ≡ (note_device x.decoded p).devices) x.decoded.is_ok
            (feed_all-IsKept _ x.ts kept x.num x.decoded.logic_ctxs _ refl) refl))

  handle-packets :
      (services : List Proto) (x : Packet) (p : Pass)
      → (mac == 0) ≡ false
      → packets_at (handle services x p).devices % 2 ^ 64
        ≡ (packets_at p.devices + from_device x) % 2 ^ 64
  unfolding handle
  handle-packets services x p real = elim (Bool-cases x.decoded.interesting) [
    | inl e ↦
        ap (λ m. packets_at m % 2 ^ 64) (handle-devices services x p e)
        ∙ (note_device-packets x.decoded p real ∙ simp e refl)
    | inr e ↦ simp e (omega arith)
  ]

  -- Over the packets of a capture, the count of the packets of a device, whose address is not 0, goes up,
  -- modulo 2^64, by the number of the packets of interest that it sent.
  pub run-packets :
      (services : List Proto) (xs : List Packet) (p : Pass)
      → (mac == 0) ≡ false
      → packets_at (run services xs p).devices % 2 ^ 64
        ≡ (packets_at p.devices + from_devices xs) % 2 ^ 64
  unfolding run from_devices
  run-packets services [] p real = omega arith
  run-packets services (x ∷ xs) p real =
      omega (
        arith,
        run-packets services xs (handle services x p) real,
        handle-packets services x p real,
      )
