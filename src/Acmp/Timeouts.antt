-- ===== src/Acmp/Timeouts.antt =====
-- The commands in flight of `AcmpLogic` in backend/src/logic/acmp_logic.cpp: how `onDecode` notes them
-- and what `onTimeTick` does to those that nobody answered.
use avb_introspection.Base.{
  ℕ, ◌+◌, ◌-◌, ◌%◌, ◌≡◌, refl, ◌∙◌, Bool, true, false, ◌&&◌, ◌||◌, List, [], ◌∷◌, none, some, ltb,
  ◌==◌, if◌then◌else◌, arith, Dict, AllEntries, find, find_or, find_or-insert, find-insert,
  find-erase, insert, inl, inr, Bool-cases, ◌=?◌,
}
use avb_introspection.Context.{VarLayerContext, ts_of, num_of}
use avb_introspection.Shared.{SharedModel}
use avb_introspection.Acmp.{
  World, Expiring, Inflight, acmp_timeout, message_of, sequence_of, key_of, note_inflight, time_out,
  sweep_inflight, on_time_tick,
}
use avb_introspection.Acmp.Types.{
  ConnKey, conn_key, Conn, new_conn, InflightKey, inflight_key, ConnState, conn_tag, connecting,
  connected, disconnecting, disconnected, failed, Report,
}
use avb_introspection.Acmp.Connections.{shown, same, transition, on_timeout}
use avb_introspection.Acmp.Messages.{milan_tick}

abbrev pub conn_state_at : ConnKey → Dict ConnKey Conn → ConnState
conn_state_at key conns = (find_or new_conn key conns).state

abbrev pub is_late : ℕ → Inflight → Bool
is_late ts f = ltb (f.sent_ts + acmp_timeout) ts

-- Some late command for the connection is one of the two.
unfoldable pub has_late : ℕ → ℕ → ℕ → ConnKey → Dict InflightKey Inflight → Bool
has_late ts a b key [] = false
has_late ts a b key (((cmd, seq, k), f) ∷ rest) =
    let later = has_late ts a b key rest in
    (is_late ts f && ((key =? k) && ((cmd == a) || (cmd == b)))) || later

-- What becomes of a connection by its late commands.
unfoldable pub after_timeouts : Bool → Bool → ConnState → ConnState
after_timeouts connect disconnect st =
    if same st connecting && connect
    then failed
    else if same st disconnecting && disconnect
    then disconnected
    else st

conn_tag-shown : (a : ConnState) → conn_tag (shown a) ≡ (if conn_tag a == 0 then 1 else conn_tag a)
conn_tag-shown ConnState.unset = refl
conn_tag-shown disconnected = refl
conn_tag-shown connecting = refl
conn_tag-shown connected = refl
conn_tag-shown disconnecting = refl
conn_tag-shown failed = refl

module _ (shared : SharedModel) (ts : ℕ) where
  on_timeout-state :
      (cmd : ℕ) (c : Conn) (out : List Report)
      → (on_timeout shared ts cmd (c, out)).0.state
        ≡ after_timeouts ((cmd == 0) || (cmd == 6)) ((cmd == 2) || (cmd == 8)) c.state
  unfolding on_timeout transition after_timeouts
  on_timeout-state cmd c out = ground (arith, conn_tag-shown c.state)

  after_timeouts-after_timeouts :
      (c d c' d' : Bool) (st : ConnState)
      → after_timeouts c' d' (after_timeouts c d st) ≡ after_timeouts (c || c') (d || d') st
  unfolding after_timeouts
  after_timeouts-after_timeouts c d c' d' st = ground arith

  time_out-state :
      (key k : ConnKey) (cmd seq : ℕ) (t : Expiring)
      → conn_state_at key (time_out shared ts (cmd, seq, k) t).conns
        ≡ after_timeouts
            ((key =? k) && ((cmd == 0) || (cmd == 6)))
            ((key =? k) && ((cmd == 2) || (cmd == 8)))
            (conn_state_at key t.conns)
  unfolding time_out
  time_out-state key k cmd seq t = placed ∙ elim (Bool-cases (key =? k)) [
    | inl hit ↦
        rw (hit, (conn_key.beq_iff key k).0 hit)
          (on_timeout-state cmd (find_or new_conn k t.conns) t.out)
    | inr miss ↦ rw miss (unfold after_timeouts in ground arith)
  ]
    where
      c : Conn
      c = (on_timeout shared ts cmd (find_or new_conn k t.conns, t.out)).0

      placed :
          conn_state_at key (insert k c t.conns)
          ≡ (if key =? k then c.state else conn_state_at key t.conns)
      placed = ground (arith, find_or-insert new_conn key k c t.conns)

  sweep_inflight-state :
      (key : ConnKey) (m : Dict InflightKey Inflight) (t : Expiring)
      → conn_state_at key (sweep_inflight shared ts m t).1.conns
        ≡ after_timeouts (has_late ts 0 6 key m) (has_late ts 2 8 key m) (conn_state_at key t.conns)
  unfolding sweep_inflight has_late
  sweep_inflight-state key [] t = unfold after_timeouts in ground arith
  sweep_inflight-state key (((cmd, seq, k), f) ∷ m) t = elim (Bool-cases (is_late ts f)) [
    | inl late ↦
        rw (late, sweep_inflight-state key m _, time_out-state key k cmd seq t)
          (after_timeouts-after_timeouts _ _ _ _ _)
    | inr young ↦ rw young (sweep_inflight-state key m t)
  ]

  sweep_inflight_in_time :
      (m : Dict InflightKey Inflight) (t : Expiring)
      → AllEntries (λ k f. is_late ts f ≡ false) (sweep_inflight shared ts m t).0
  unfolding sweep_inflight
  sweep_inflight_in_time [] t = tt
  sweep_inflight_in_time ((k, f) ∷ m) t = elim (Bool-cases (is_late ts f)) [
    | inl late ↦ rw late (sweep_inflight_in_time m _)
    | inr young ↦ rw young (young, sweep_inflight_in_time m _)
  ]

-- After `onTimeTick` no command is in flight that was sent more than 200 ms before.
pub on_time_tick-none_late :
    (shared : SharedModel) (ts : ℕ) (w : World)
    → AllEntries (λ k f. is_late ts f ≡ false) (on_time_tick shared ts w).inflight
unfolding on_time_tick
on_time_tick-none_late shared ts w = sweep_inflight_in_time shared ts w.inflight _

-- `onTimeTick` moves a connection that is CONNECTING to FAILED exactly if a CONNECT command for it has
-- been in flight for more than 200 ms, one that is DISCONNECTING to DISCONNECTED exactly if a
-- DISCONNECT command for it has been, and leaves every other connection in its state; in which order
-- the commands stand does not matter.
pub on_time_tick-conn_state :
    (shared : SharedModel) (ts : ℕ) (w : World) (key : ConnKey)
    → conn_state_at key (on_time_tick shared ts w).conns
      ≡ after_timeouts
          (has_late ts 0 6 key w.inflight)
          (has_late ts 2 8 key w.inflight)
          (conn_state_at key w.conns)
unfolding on_time_tick
on_time_tick-conn_state shared ts w key =
    sweep_inflight-state shared ts key w.inflight
      (record { conns = w.conns; out = (milan_tick shared ts w.milan).out })

note_command :
    (v : VarLayerContext) (m : Dict InflightKey Inflight) (k : InflightKey)
    → (message_of v % 2 == 0) ≡ true
    → find k (note_inflight v m) ≡ (
        if k =? (message_of v, sequence_of v, key_of v)
        then some (record { sent_ts = ts_of v; n = num_of v })
        else find k m)
unfolding note_inflight
note_command v m k even = rw even (find-insert k (message_of v, sequence_of v, key_of v) _ m)

note_response :
    (v : VarLayerContext) (m : Dict InflightKey Inflight) (k : InflightKey)
    → (message_of v % 2 == 0) ≡ false
    → find k (note_inflight v m)
      ≡ (if k =? (message_of v - 1, sequence_of v, key_of v) then none else find k m)
unfolding note_inflight
note_response v m k odd = rw odd (find-erase k (message_of v - 1, sequence_of v, key_of v) m)

-- A command followed by its response, which has the next message type and the same sequence id and
-- connection, takes the command out of those in flight and leaves every other one as it was.
pub note_inflight-response :
    (command response : VarLayerContext) (m : Dict InflightKey Inflight) (k : InflightKey)
    → message_of command % 2 ≡ 0
    → message_of response ≡ message_of command + 1
    → sequence_of response ≡ sequence_of command
    → key_of response ≡ key_of command
    → find k (note_inflight response (note_inflight command m))
      ≡ (if k =? (message_of command, sequence_of command, key_of command) then none else find k m)
note_inflight-response command response m k even next seq key =
    note_response response _ k (ground (arith, even, next))
    ∙ rw (seq, key, same_command) (ground (arith, note_command command m k (ground (arith, even))))
  where
    same_command : message_of response - 1 ≡ message_of command
    same_command = ground (arith, next)
