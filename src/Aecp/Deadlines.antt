-- ===== src/Aecp/Deadlines.antt =====
-- What `onTimeTick` and the responses of `AecpLogic` in backend/src/logic/aecp_logic.cpp do to the AEM
-- commands in flight.
use avb_introspection.Context.{VarLayerContext, at}
use avb_introspection.Base.{
  Option, none, some, String, find, find-erase, ◌==◌, ℕ, ◌+◌, ◌%◌, ◌^◌, ◌≡◌, refl, ◌∙◌, false, ◌&&◌,
  [], ◌∷◌, ◌=?◌, if◌then◌else◌, arith, Dict, AllEntries, find_or, find_or-insert, insert, inl, inr,
  Bool-cases,
}
use avb_introspection.Aecp.{
  inflight_key, message_of, command_of, key_of, taught, set_name, learn_name, on_solicited,
  on_unsolicited, on_response, on_decode, PairKey, pair_key, Pair, new_pair, InflightKey, Inflight,
  Expiring, World, is_late, time_out, sweep, on_time_tick,
}

abbrev pub timeouts_at : PairKey → Dict PairKey Pair → ℕ
timeouts_at k pairs = (find_or new_pair k pairs).timeouts

-- The late commands of a pair.
unfoldable pub late_commands : ℕ → PairKey → Dict InflightKey Inflight → ℕ
late_commands ts k [] = 0
late_commands ts k (((controller, target, seq), f) ∷ m) =
    let rest = late_commands ts k m in
    if is_late ts f && (k =? (controller, target)) then rest + 1 else rest

time_out-timeouts :
    (k j : PairKey) (seq : ℕ) (f : Inflight) (t : Expiring)
    → timeouts_at k (time_out (j.0, j.1, seq) f t).pairs
      ≡ (if k =? j then (timeouts_at k t.pairs + 1) % 2 ^ 32 else timeouts_at k t.pairs)
unfolding time_out
time_out-timeouts k j seq f t = placed ∙ elim (Bool-cases (k =? j)) [
  | inl hit ↦ rw (hit, (pair_key.beq_iff k j).0 hit) refl
  | inr miss ↦ rw miss refl
]
  where
    p : Pair
    p = find_or new_pair j t.pairs

    p' : Pair
    p' = record p { timeouts = (p.timeouts + 1) % 2 ^ 32 }

    placed :
        timeouts_at k (insert j p' t.pairs)
        ≡ (if k =? j then p'.timeouts else timeouts_at k t.pairs)
    placed = ground (arith, find_or-insert new_pair k j p' t.pairs)

sweep-timeouts :
    (ts : ℕ) (k : PairKey) (m : Dict InflightKey Inflight) (t : Expiring)
    → timeouts_at k (sweep ts m t).1.pairs % 2 ^ 32
      ≡ (timeouts_at k t.pairs + late_commands ts k m) % 2 ^ 32
unfolding sweep late_commands
sweep-timeouts ts k [] t = ground arith
sweep-timeouts ts k (((controller, target, seq), f) ∷ m) t = elim (Bool-cases (is_late ts f)) [
  | inl late ↦
      rw late
        (sweep-timeouts ts k m _ ∙ ground (arith, time_out-timeouts k (controller, target) seq f t))
  | inr young ↦ rw young (sweep-timeouts ts k m t)
]

sweep_in_time :
    (ts : ℕ) (m : Dict InflightKey Inflight) (t : Expiring)
    → AllEntries (λ k f. is_late ts f ≡ false) (sweep ts m t).0
unfolding sweep
sweep_in_time ts [] t = tt
sweep_in_time ts ((k, f) ∷ m) t = elim (Bool-cases (is_late ts f)) [
  | inl late ↦ rw late (sweep_in_time ts m _)
  | inr young ↦ rw young (young, sweep_in_time ts m t)
]

-- `onTimeTick` adds to the timeouts of each pair, modulo 2^32, the number of its commands that have been
-- in flight for more than 250 ms, and leaves none of these in flight.
pub on_time_tick-timeouts :
    (ts : ℕ) (w : World) (k : PairKey)
    → (timeouts_at k (on_time_tick ts w).pairs % 2 ^ 32
        ≡ (timeouts_at k w.pairs + late_commands ts k w.inflight) % 2 ^ 32)
      × AllEntries (λ j f. is_late ts f ≡ false) (on_time_tick ts w).inflight
unfolding on_time_tick
on_time_tick-timeouts ts w k = (sweep-timeouts ts k w.inflight _, sweep_in_time ts w.inflight _)

learn_name-inflight :
    (v : VarLayerContext) (cmd target : ℕ) (w : World)
    → (learn_name v cmd target w).inflight ≡ w.inflight
unfolding learn_name set_name
learn_name-inflight v cmd target w = named_inflight (taught v cmd target)
  where
    named_inflight : (o : Option (ℕ × String)) → (set_name cmd o w).inflight ≡ w.inflight
    named_inflight none = refl
    named_inflight (some (entity, name)) = refl

-- A solicited response takes the command with its pair and sequence id out of those in flight and
-- leaves every other one; an unsolicited response leaves them all.
pub on_decode-response :
    (v : VarLayerContext) (w : World) (k : InflightKey)
    → message_of v ≡ 1
    → find k (on_decode v w).inflight
      ≡ (if (at v "unsolicited" == 0) && (k =? key_of v) then none else find k w.inflight)
unfolding on_decode on_response on_solicited on_unsolicited
on_decode-response v w k e = ground (
  arith,
  e,
  learn_name-inflight v (command_of v) (at v "target_entity_id") (on_solicited v w),
  learn_name-inflight v (command_of v) (at v "target_entity_id") (on_unsolicited v w),
  find-erase k (key_of v) w.inflight,
)
