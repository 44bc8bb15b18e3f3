-- ===== src/Maap/Counts.antt =====
-- The counters of `MaapLogic` in backend/src/logic/maap_logic.cpp over a whole run, and what a
-- claimant that gives its range up is reported with.
use avb_introspection.Base.{
  ℕ, ◌+◌, ◌%◌, ◌^◌, ◌<◌, ◌≡◌, ◌∙◌, Bool, refl, true, false, ◌&&◌, some, List, [], ◌∷◌, ◌++◌, arith,
  ◌==◌, ==_iff, if◌then◌else◌, find_or, find_or-insert, nat_key,
}
use avb_introspection.Context.{VarLayerContext, at}
use avb_introspection.Maap.{
  Range, Report, World, new_range, transition, message_type, abandons, give_up, on_probe,
  on_announce, on_defend, react, on_message, on_decode, lost, probing, requested_start,
  requested_count,
}
use avb_introspection.Maap.Claims.{abandons-probe}

unfoldable pub run : World → List VarLayerContext → World
run w [] = w
run w (c ∷ cs) = run (on_decode c w) cs

-- The messages of a type from a claimant.
pub sent : ℕ → ℕ → List VarLayerContext → ℕ
sent kind k [] = 0
sent kind k (c ∷ cs) =
    let rest = sent kind k cs in
    if (k == at c "src_mac") && (message_type c == kind) then rest + 1 else rest

abbrev pub range_at : ℕ → World → Range
range_at k w = find_or new_range k w.ranges

-- How the counters move with one message.
on_message-counts :
    (c : VarLayerContext) (k : ℕ) (q : Range × List Report)
    → ((on_message c k q).0.conflicts
        ≡ (if message_type c == 2 then (q.0.conflicts + 1) % 2 ^ 32 else q.0.conflicts))
      × ((on_message c k q).0.probes
          ≡ (if message_type c == 1 then (q.0.probes + 1) % 2 ^ 32 else q.0.probes))
unfolding on_message give_up react on_probe on_announce on_defend transition
on_message-counts c k (r, pending) = (ground arith, ground arith)

on_decode-counts :
    (c : VarLayerContext) (k : ℕ) (w : World)
    → ((range_at k (on_decode c w)).conflicts ≡ (
        if (k == at c "src_mac") && (message_type c == 2)
        then ((range_at k w).conflicts + 1) % 2 ^ 32
        else (range_at k w).conflicts))
      × ((range_at k (on_decode c w)).probes ≡ (
          if (k == at c "src_mac") && (message_type c == 1)
          then ((range_at k w).probes + 1) % 2 ^ 32
          else (range_at k w).probes))
unfolding on_decode
on_decode-counts c k w =
    (ground (arith, ==_iff k id, placed, counted.0), ground (arith, ==_iff k id, placed, counted.1))
  where
    id : ℕ
    id = at c "src_mac"

    one : Range × List Report
    one = on_message c id (find_or new_range id w.ranges, w.pending)

    placed : range_at k (on_decode c w) ≡ (if k == id then one.0 else range_at k w)
    placed = find_or-insert new_range k id one.0 w.ranges

    counted :
        (one.0.conflicts ≡ (
          if message_type c == 2
          then ((range_at id w).conflicts + 1) % 2 ^ 32
          else (range_at id w).conflicts))
        × (one.0.probes ≡ (
            if message_type c == 1
            then ((range_at id w).probes + 1) % 2 ^ 32
            else (range_at id w).probes))
    counted = on_message-counts c id (find_or new_range id w.ranges, w.pending)

-- One step of a counter of 32 bits, and what is still to come.
counter_step :
    (b : Bool) (x y rest : ℕ)
    → y ≡ (if b then (x + 1) % 2 ^ 32 else x)
    → x < 2 ^ 32
    → ((y + rest) % 2 ^ 32 ≡ (x + (if b then rest + 1 else rest)) % 2 ^ 32) × (y < 2 ^ 32)
counter_step true x y rest e h = (omega arith, omega arith)
counter_step false x y rest e h = (omega arith, omega arith)

-- Over any messages, a claimant's conflict counter grows by the MAAP_DEFENDs that it sent, and its
-- probe counter by the MAAP_PROBEs, modulo 2^32.
pub run-counts :
    (k : ℕ) (cs : List VarLayerContext) (w : World)
    → (range_at k w).conflicts < 2 ^ 32
    → (range_at k w).probes < 2 ^ 32
    → ((range_at k (run w cs)).conflicts ≡ ((range_at k w).conflicts + sent 2 k cs) % 2 ^ 32)
      × ((range_at k (run w cs)).probes ≡ ((range_at k w).probes + sent 1 k cs) % 2 ^ 32)
unfolding run sent
run-counts k [] w hc hp = (omega arith, omega arith)
run-counts k (c ∷ cs) w hc hp =
    let moved = on_decode-counts c k w in
    let conflicts = counter_step _ _ _ (sent 2 k cs) moved.0 hc in
    let probes = counter_step _ _ _ (sent 1 k cs) moved.1 hp in
    let rest = run-counts k cs (on_decode c w) conflicts.1 probes.1 in
    (rest.0 ∙ conflicts.0, rest.1 ∙ probes.0)

-- A claimant in ACQUIRED or DEFENDING that probes for another range than it held is reported as LOST
-- and then as PROBING, in this order; both reports name it, the first with the range that it gave
-- up and the second with the new one; and it is left PROBING for the new range.
pub abandon_reports :
    (c : VarLayerContext) (k : ℕ) (q : Range × List Report)
    → abandons c q.0 ≡ true
    → let r = on_message c k q in
      (a b : Report) × (r.1 ≡ (q.1 ++ a ∷ []) ++ b ∷ [])
      × (a.object ≡ k)
      × (a.to ≡ lost)
      × (a.stream ≡ some q.0.start)
      × (b.object ≡ k)
      × (b.from ≡ lost)
      × (b.to ≡ probing)
      × (b.stream ≡ some (requested_start c))
      × (r.0.state ≡ probing)
      × (r.0.start ≡ requested_start c)
      × (r.0.count ≡ requested_count c)
unfolding on_message give_up react on_probe transition
abandon_reports c k (r, pending) gives =
    rw (gives, abandons-probe c r gives)
      (_, _, refl, refl, refl, refl, refl, refl, refl, refl, refl, refl, refl)
