-- ===== src/Mrp.antt =====
-- The MRP Registrar state machine: backend/src/logic/mrp_registrar.cpp, with `MrpAttr`, `mrpAttrs`
-- and `mrpLvCount` of `SharedModel` in backend/src/logic/avb_logic.h.
-- `set_registrar`, `event`, `leave_all` and `tick` are `mrpSetRegistrar`, `mrpEvent`, `mrpLeaveAll`
-- and `mrpTick`. The registrar's text "" is `unset`, "IN" is `inn`. The text of an attribute's key
-- is the `Label` of the values it is printed from. The time -1 ("none") is `none`.
pub mod Wf
pub mod Sweep
pub mod Timer
pub mod Table
pub mod Registered
mod Tests
use avb_introspection.Base.{
  ℕ, zero, suc, ◌+◌, ◌-◌, ◌*◌, ◌%◌, ◌^◌, Bool, true, false, ◌&&◌, ◌||◌, Option, none, some, List,
  [], ◌∷◌, String, ltb, ◌==◌, if◌then◌else◌, not, ℕ_discrete, Dict, Key, ◌=?◌, find, find_or,
  insert, map_values, for_values, HistEntry, push_capped, string_key, discrete_key,
}

pub data Proto : Type 0 where
  eth msrp mvrp maap adp aecp acmp gptp : Proto

pub Proto-discrete : Discrete Proto
Proto-discrete = hlevel

instance abbrev pub proto_key : Key Proto
proto_key = discrete_key Proto-discrete

pub data Label : Type 0 where
  vlan talker_advertise talker_failed listener : ℕ → Label
  domain : ℕ → ℕ → ℕ → Label

pub Label-discrete : Discrete Label
Label-discrete = hlevel ℕ_discrete

abbrev pub MrpKey : Type 0
MrpKey = Proto × Label × ℕ

pub MrpKey-discrete : Discrete MrpKey
MrpKey-discrete = hlevel (ℕ_discrete, Proto-discrete, Label-discrete)

instance abbrev pub mrp_key : Key MrpKey
mrp_key = discrete_key MrpKey-discrete

pub data Registrar : Type 0 where
  unset mt lv inn : Registrar

-- What the text of a history entry is put together from.
pub data Why : Type 0 where
  r_new r_lv r_la leave_timer_expired : Why
  r_join : String → Why

pub record LogEntry : Type 0 where
  pub ts : ℕ
  pub n : ℕ
  pub event : String
  pub registrar_after : Registrar

pub record MrpAttr : Type 0 where
  pub proto : Proto
  pub kind : String
  pub key : Option Label
  pub source : ℕ
  pub registrar : Registrar
  pub last_event : String
  pub last_event_ts : Option ℕ
  pub leave_timer_start : Option ℕ
  pub event_count : ℕ
  pub log : List LogEntry
  pub hist : List (HistEntry Registrar Why)

abbrev pub new_attr : MrpAttr
new_attr = record {
  proto = msrp;
  kind = "";
  key = none;
  source = 0;
  registrar = unset;
  last_event = "";
  last_event_ts = none;
  leave_timer_start = none;
  event_count = 0;
  log = [];
  hist = [];
}

-- `mrpAttrs` and `mrpLvCount`.
pub record Mrp : Type 0 where
  pub attrs : Dict MrpKey MrpAttr
  pub lv_count : ℕ

abbrev pub empty : Mrp
empty = record { attrs = []; lv_count = 0 }

-- `kMrpLeaveTimeS`, in nanoseconds, `kMrpLogCap` and `kMrpHistCap`.
abbrev pub leave_time : ℕ
leave_time = 1000000000

abbrev pub log_cap : ℕ
log_cap = 500

abbrev pub hist_cap : ℕ
hist_cap = 200

-- `mrpEventName` of backend/src/decode/names.cpp.
unfoldable pub mrp_event_name : ℕ → String
mrp_event_name e =
    if e == 0
    then "New"
    else if e == 1
    then "JoinIn"
    else if e == 2
    then "In"
    else if e == 3
    then "JoinMt"
    else if e == 4
    then "Mt"
    else if e == 5
    then "Lv"
    else if e == 6
    then "LeaveAll"
    else "?"

abbrev pub same : Registrar → Registrar → Bool
same unset unset = true
same mt mt = true
same lv lv = true
same inn inn = true
same _ _ = false

-- `a.registrar.empty() ? "MT" : a.registrar`.
abbrev pub shown : Registrar → Registrar
shown unset = mt
shown r = r

unfoldable pub set_registrar : MrpAttr → Registrar → ℕ → ℕ → Why → ℕ → MrpAttr × ℕ
set_registrar a to ts n why count =
    let from = shown a.registrar in
    let left = if same from lv && not (count == 0) then count - 1 else count in
    let entered = if same to lv then left + 1 else left in
    let entry : HistEntry Registrar Why = record {
      ts = ts;
      n = n;
      from = from;
      to = to;
      why = why;
    } in
    if same from to
    then (a, count)
    else (record a { registrar = to; hist = push_capped hist_cap a.hist entry }, entered)

-- What `mrpEvent` writes before its `switch`.
unfoldable pub touch : Proto → String → Label → ℕ → ℕ → ℕ → MrpAttr → MrpAttr
touch proto kind key source ev ts a = record a {
  proto = proto;
  kind = kind;
  key = some key;
  source = source;
  last_event_ts = some ts;
  event_count = (a.event_count + 1) % 2 ^ 32;
  last_event = mrp_event_name ev;
  registrar = shown a.registrar;
}

-- The cases of the `switch` of `mrpEvent` that change the registrar: New and the two joins, and Lv.
unfoldable pub join : ℕ → ℕ → Why → MrpAttr → ℕ → MrpAttr × ℕ
join ts n why a count =
    let (b, c) = set_registrar a inn ts n why count in (record b { leave_timer_start = none }, c)

unfoldable pub leave : ℕ → ℕ → MrpAttr → ℕ → MrpAttr × ℕ
leave ts n a count =
    if same a.registrar inn
    then set_registrar (record a { leave_timer_start = some ts }) lv ts n r_lv count
    else (a, count)

unfoldable pub react : ℕ → ℕ → ℕ → MrpAttr → ℕ → MrpAttr × ℕ
react ev ts n a count =
    if ev == 0
    then join ts n r_new a count
    else if ev == 1
    then join ts n (r_join (mrp_event_name ev)) a count
    else if ev == 3
    then join ts n (r_join (mrp_event_name ev)) a count
    else if ev == 5
    then leave ts n a count
    else (a, count)

unfoldable pub write_log : ℕ → ℕ → String → MrpAttr → MrpAttr
write_log ts n event a = record a {
  log =
      push_capped log_cap a.log
        (record { ts = ts; n = n; event = event; registrar_after = a.registrar });
}

-- `mrpEvent` at one attribute.
unfoldable pub event_attr : Proto → String → Label → ℕ → ℕ → ℕ → ℕ → MrpAttr → ℕ → MrpAttr × ℕ
event_attr proto kind key source ev ts n a count =
    let (b, c) = react ev ts n (touch proto kind key source ev ts a) count in
    (write_log ts n (mrp_event_name ev) b, c)

unfoldable pub event : Proto → String → Label → ℕ → ℕ → ℕ → ℕ → Mrp → Mrp
event proto kind key source ev ts n m =
    let k : MrpKey = (proto, key, source) in
    let (a, c) = event_attr proto kind key source ev ts n (find_or new_attr k m.attrs) m.lv_count in
    record { attrs = insert k a m.attrs; lv_count = c }

-- The `continue` of the loop of `mrpLeaveAll`.
abbrev pub is_skipped : Proto → String → MrpAttr → Bool
is_skipped proto kind a =
    not (a.proto =? proto) || not (a.kind =? kind) || not (same a.registrar inn)

-- One round of the loop of `mrpLeaveAll`; the text "LV" in the log is the registrar just set.
unfoldable pub leave_all_attr : Proto → String → ℕ → ℕ → MrpAttr → ℕ → MrpAttr × ℕ
leave_all_attr proto kind ts n a count =
    let b = record a {
      leave_timer_start = some ts;
      last_event = "LeaveAll";
      last_event_ts = some ts;
      event_count = (a.event_count + 1) % 2 ^ 32;
    } in
    let (c, count') = set_registrar b lv ts n r_la count in
    if is_skipped proto kind a then (a, count) else (write_log ts n "LeaveAll" c, count')

unfoldable pub leave_all : Proto → String → ℕ → ℕ → Mrp → Mrp
leave_all proto kind ts n m =
    let (attrs, count) = for_values (leave_all_attr proto kind ts n) m.attrs m.lv_count in
    record { attrs = attrs; lv_count = count }

-- `a.leaveTimerStart >= 0 && ts > a.leaveTimerStart + kMrpLeaveTimeS`.
abbrev pub is_over : Option ℕ → ℕ → Bool
is_over none ts = false
is_over (some start) ts = ltb (start + leave_time) ts

abbrev pub is_overdue : ℕ → MrpAttr → Bool
is_overdue ts a = same a.registrar lv && is_over a.leave_timer_start ts

unfoldable pub tick_attr : ℕ → MrpAttr → ℕ → MrpAttr × ℕ
tick_attr ts a count =
    let (b, c) = set_registrar a mt ts 0 leave_timer_expired count in
    if is_overdue ts a then (record b { leave_timer_start = none }, c) else (a, count)

-- The loop of `mrpTick`, and `mrpTick`, which skips it when no registrar is leaving.
unfoldable pub tick_loop : ℕ → Mrp → Mrp
tick_loop ts m =
    let (attrs, count) = for_values (tick_attr ts) m.attrs m.lv_count in
    record { attrs = attrs; lv_count = count }

unfoldable pub tick : ℕ → Mrp → Mrp
tick ts m = if m.lv_count == 0 then m else tick_loop ts m
