-- ===== src/Engine/Order.antt =====
-- The order of the event log of the state pass in backend/src/engine/engine.cpp.
use avb_introspection.Base.{
  ℕ, ◌+◌, ◌^◌, ◌<◌, ◌≤◌, All, ◌==◌, ltb, ◌≡◌, refl, sym, subst, ◌++◌, inl, inr, true, false, List,
  [], ◌∷◌, arith, Bool-cases, if_either,
}
use avb_introspection.Decode.Types.{Proto}
use avb_introspection.Engine.Keeps.{IsKept, feed_all-IsKept, tick_all-IsKept}
use avb_introspection.Engine.{
  Captured, stamp, stamped, Packet, Event, Pass, push_event, note_device, on_error, on_packet,
  handle, run, new_pass, insert_packet, by_time, analyze,
}

-- The times of the events do not go down, and lie between two times.
abbrev pub Between : ℕ → List Event → ℕ → Type 0
Between lo [] hi = lo ≤ hi
Between lo (e ∷ es) hi = (lo ≤ e.ts) × Between e.ts es hi

abbrev pub SortedFrom : ℕ → List Packet → Type 0
SortedFrom lo [] = Unit
SortedFrom lo (x ∷ xs) = (lo ≤ x.ts) × SortedFrom x.ts xs

Between-snoc :
    (lo hi : ℕ) (es : List Event) (e : Event)
    → Between lo es hi
    → hi ≤ e.ts
    → Between lo (es ++ e ∷ []) e.ts
Between-snoc lo hi [] e h le = (omega (arith, h, le), omega arith)
Between-snoc lo hi (x ∷ es) e h le = (h.0, Between-snoc x.ts hi es e h.1 le)

abbrev pub UpTo : ℕ → Pass → Type 0
UpTo ts p = Between 0 p.events ts

UpTo-IsKept : (ts : ℕ) → IsKept (UpTo ts) ts
unfolding push_event
UpTo-IsKept ts = record {
  pushed = λ n t proto p h. Between-snoc 0 ts p.events _ h (omega arith);
  moved = λ s p h. h;
}

note_device-UpTo : (ts : ℕ) (x : Packet) (p : Pass) → UpTo ts p → UpTo ts (note_device x.decoded p)
unfolding note_device
note_device-UpTo ts x p h = if_either (UpTo ts) (x.decoded.src_mac == 0) h h

handle-UpTo :
    (services : List Proto) (x : Packet) (p : Pass) (ts : ℕ)
    → UpTo ts p
    → ts ≤ x.ts
    → x.decoded.interesting ≡ true
    → UpTo x.ts (handle services x p)
unfolding handle on_packet on_error push_event
handle-UpTo services x p ts h le e =
    let noted = note_device-UpTo ts x p h in
    simp e (
      tick_all-IsKept (UpTo x.ts) x.ts (UpTo-IsKept x.ts) services _ (
        if_either (UpTo x.ts) x.decoded.is_ok
          (feed_all-IsKept (UpTo x.ts) x.ts (UpTo-IsKept x.ts) x.num x.decoded.logic_ctxs _
            (Between-snoc 0 ts _ _ noted le))
          (Between-snoc 0 ts _ _ noted le)))

SortedFrom-weaken :
    (lo lo' : ℕ) (xs : List Packet) → lo' ≤ lo → SortedFrom lo xs → SortedFrom lo' xs
SortedFrom-weaken lo lo' [] le h = tt
SortedFrom-weaken lo lo' (x ∷ xs) le h = (omega (arith, le, h.0), h.1)

handle-idle :
    (services : List Proto) (x : Packet) (p : Pass)
    → x.decoded.interesting ≡ false
    → handle services x p ≡ p
unfolding handle
handle-idle services x p e = simp e refl

run-UpTo :
    (services : List Proto) (xs : List Packet) (p : Pass) (ts : ℕ)
    → UpTo ts p
    → SortedFrom ts xs
    → (last : ℕ) × UpTo last (run services xs p)
unfolding run
run-UpTo services [] p ts h sorted = (ts, h)
run-UpTo services (x ∷ xs) p ts h sorted = elim (Bool-cases x.decoded.interesting) [
  | inl e ↦
      run-UpTo services xs (handle services x p) x.ts (handle-UpTo services x p ts h sorted.0 e)
        sorted.1
  | inr e ↦
      run-UpTo services xs (handle services x p) ts
        (subst (UpTo ts) (sym (handle-idle services x p e)) h)
        (SortedFrom-weaken x.ts ts xs sorted.0 sorted.1)
]

-- A packet that is not from before the first one.
abbrev Since : ℕ → Packet → Type 0
Since first x = x.ts + first ≡ x.ts_nanos

insert_packet-All :
    (first : ℕ) (x : Packet) (ys : List Packet)
    → Since first x
    → All (Since first) ys
    → All (Since first) (insert_packet x ys)
unfolding insert_packet
insert_packet-All first x [] e h = (e, tt)
insert_packet-All first x (y ∷ ys) e h = elim (Bool-cases (ltb y.ts_nanos x.ts_nanos)) [
  | inl t ↦ rw (t, insert_packet) (h.0, insert_packet-All first x ys e h.1)
  | inr t ↦ rw (t, insert_packet) (e, h)
]

insert_packet-SortedFrom :
    (first lo : ℕ) (x : Packet) (ys : List Packet)
    → Since first x
    → All (Since first) ys
    → lo ≤ x.ts
    → SortedFrom lo ys
    → SortedFrom lo (insert_packet x ys)
unfolding insert_packet
insert_packet-SortedFrom first lo x [] e es le h = (le, tt)
insert_packet-SortedFrom first lo x (y ∷ ys) e es le h =
    elim (Bool-cases (ltb y.ts_nanos x.ts_nanos)) [
      | inl t ↦
          rw (t, insert_packet)
            (h.0, insert_packet-SortedFrom first y.ts x ys e es.1 (ground (arith, t, e, es.0)) h.1)
      | inr t ↦ rw (t, insert_packet) (le, (ground (arith, t, e, es.0), h.1))
    ]

by_time-SortedFrom :
    (first : ℕ) (xs : List Packet)
    → All (Since first) xs
    → SortedFrom 0 (by_time xs) × All (Since first) (by_time xs)
unfolding by_time
by_time-SortedFrom first [] es = (tt, tt)
by_time-SortedFrom first (x ∷ xs) es =
    let (sorted, since) = by_time-SortedFrom first xs es.1 in
    (
      insert_packet-SortedFrom first 0 x (by_time xs) es.0 since (omega arith) sorted,
      insert_packet-All first x (by_time xs) es.0 since,
    )

-- No packet is from before a time, and all times fit 64 bits.
abbrev pub NotBefore : ℕ → List Captured → Type 0
NotBefore first = All (λ c. (first ≤ c.ts_nanos) × (c.ts_nanos < 2 ^ 64))

stamp-All :
    (first i : ℕ) (cs : List Captured) → NotBefore first cs → All (Since first) (stamp first i cs)
unfolding stamp
stamp-All first i [] h = tt
stamp-All first i (c ∷ cs) h = (omega (arith, h.0.0, h.0.1), stamp-All first (i + 1) cs h.1)

-- In the log of a state pass the times of the events never go down, in whatever order the packets stand in the
-- file, if no packet is from before the first one of the file, and the times fit 64 bits.
pub analyze-Between :
    (services : List Proto) (c : Captured) (cs : List Captured)
    → NotBefore c.ts_nanos (c ∷ cs)
    → (last : ℕ) × Between 0 (analyze services (c ∷ cs)).events last
unfolding analyze
analyze-Between services c cs h =
    run-UpTo services (by_time (stamped (c ∷ cs))) new_pass 0 (omega arith)
      (by_time-SortedFrom c.ts_nanos (stamped (c ∷ cs)) (stamp-All c.ts_nanos 0 (c ∷ cs) h)).0
