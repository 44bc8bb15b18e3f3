-- ===== src/Maap.antt =====
-- MAAP address ranges by claimant: `MaapLogic` of backend/src/logic/maap_logic.cpp. `on_decode` is
-- `onDecode`. The state's text "" is `unset`.
pub mod Claims
pub mod Counts
mod Tests
use avb_introspection.Base.{
  ℕ, ◌+◌, ◌%◌, ◌^◌, Bool, true, false, ◌&&◌, ◌||◌, not, Option, none, some, List, [], ◌∷◌, ◌++◌,
  ◌==◌, if◌then◌else◌, Dict, find_or, insert, HistEntry, Transition, nat_key,
}
use avb_introspection.Context.{VarLayerContext, at, ts_of, num_of}

pub data State : Type 0 where
  unset unknown probing acquired defending lost : State

pub data Why : Type 0 where
  announce_received : Why
  probe_received : ℕ → ℕ → Why
  defend_against : ℕ → ℕ → Why
  abandoned : ℕ → ℕ → ℕ → ℕ → Why

pub record Range : Type 0 where
  pub start : ℕ
  pub count : ℕ
  pub probes : ℕ
  pub conflicts : ℕ
  pub state : State
  pub hist : List (HistEntry State Why)

abbrev pub new_range : Range
new_range = record { start = 0; count = 0; probes = 0; conflicts = 0; state = unset; hist = [] }

abbrev pub Report : Type 0
Report = Transition ℕ State Why

pub record World : Type 0 where
  pub ranges : Dict ℕ Range
  pub pending : List Report

abbrev pub shown : State → State
shown unset = unknown
shown s = s

abbrev pub is_unset : State → Bool
is_unset unset = true
is_unset _ = false

abbrev pub is_probing : State → Bool
is_probing probing = true
is_probing _ = false

abbrev pub is_acquired : State → Bool
is_acquired acquired = true
is_acquired _ = false

abbrev pub is_defending : State → Bool
is_defending defending = true
is_defending _ = false

abbrev pub is_empty {ℓ} : {A : Type ℓ} → List A → Bool
is_empty [] = true
is_empty (x ∷ xs) = false

unfoldable pub transition : ℕ → ℕ → ℕ → State → Why → Range × List Report → Range × List Report
transition claimant ts n to why (r, pending) =
    let from = shown r.state in
    let entry : HistEntry State Why = record { ts = ts; n = n; from = from; to = to; why = why } in
    let report : Report = record {
      object = claimant;
      from = from;
      to = to;
      why = why;
      name = "";
      stream = some r.start;
    } in
    (record r { state = to; hist = r.hist ++ entry ∷ [] }, pending ++ report ∷ [])

unfoldable pub message_type : VarLayerContext → ℕ
message_type c = at c "message_type" % 2 ^ 8

unfoldable pub requested_start : VarLayerContext → ℕ
requested_start c = at c "requested_start_address"

unfoldable pub requested_count : VarLayerContext → ℕ
requested_count c = at c "requested_count" % 2 ^ 16

-- A known claimant names another range than before.
unfoldable pub range_changed : VarLayerContext → Range → Bool
range_changed c r =
    not (is_empty r.hist && is_unset r.state)
    && (not (r.start == requested_start c) || not (r.count == requested_count c))

-- It gives a range up that it held, and probes for another.
abbrev pub abandons : VarLayerContext → Range → Bool
abandons c r =
    range_changed c r && ((message_type c == 1) && (is_acquired r.state || is_defending r.state))

unfoldable pub give_up : VarLayerContext → ℕ → Range × List Report → Range × List Report
give_up c claimant (r, pending) =
    let why = abandoned r.start r.count (requested_start c) (requested_count c) in
    if abandons c r
    then transition claimant (ts_of c) (num_of c) lost why (r, pending)
    else (r, pending)

-- The cases of the `switch`: MAAP_PROBE (1), MAAP_ANNOUNCE (3) and MAAP_DEFEND (2).
unfoldable pub on_probe : VarLayerContext → ℕ → Range × List Report → Range × List Report
on_probe c claimant (r, pending) =
    let r' = record r { probes = (r.probes + 1) % 2 ^ 32 } in
    let why = probe_received (requested_start c) (requested_count c) in
    if is_probing r.state
    then (r', pending)
    else transition claimant (ts_of c) (num_of c) probing why (r', pending)

unfoldable pub on_announce : VarLayerContext → ℕ → Range × List Report → Range × List Report
on_announce c claimant (r, pending) =
    if is_acquired r.state
    then (r, pending)
    else transition claimant (ts_of c) (num_of c) acquired announce_received (r, pending)

unfoldable pub on_defend : VarLayerContext → ℕ → Range × List Report → Range × List Report
on_defend c claimant (r, pending) =
    let r' = record r { conflicts = (r.conflicts + 1) % 2 ^ 32 } in
    let why = defend_against (at c "conflict_start_address") (at c "conflict_count") in
    if is_defending r.state
    then (r', pending)
    else transition claimant (ts_of c) (num_of c) defending why (r', pending)

unfoldable pub react : VarLayerContext → ℕ → Range × List Report → Range × List Report
react c claimant q =
    if message_type c == 1
    then on_probe c claimant q
    else if message_type c == 3
    then on_announce c claimant q
    else if message_type c == 2
    then on_defend c claimant q
    else q

-- What `onDecode` does to the claimant's range.
unfoldable pub on_message : VarLayerContext → ℕ → Range × List Report → Range × List Report
on_message c claimant (r, pending) =
    let (r', pending') = give_up c claimant (r, pending) in
    react c claimant (record r' { start = requested_start c; count = requested_count c }, pending')

unfoldable pub on_decode : VarLayerContext → World → World
on_decode c w =
    let claimant = at c "src_mac" in
    let (r, pending) = on_message c claimant (find_or new_range claimant w.ranges, w.pending) in
    record { ranges = insert claimant r w.ranges; pending = pending }
