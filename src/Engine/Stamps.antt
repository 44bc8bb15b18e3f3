-- ===== src/Engine/Stamps.antt =====
-- The numbers and times of packets, and the order in which the state pass of backend/src/engine/engine.cpp
-- handles them.
use avb_introspection.Base.{
  ℕ, zero, suc, ◌+◌, ◌%◌, ◌^◌, ◌≤◌, ◌≡◌, refl, ap, ◌∙◌, inl, inr, Option, none, some, List, [], ◌∷◌,
  arith, ltb, ◌==◌, if◌then◌else◌, Bool-cases, get_elem?,
}
use mathlib.Core.List.{Perm}
use mathlib.Core.List.Perm
use avb_introspection.Engine.{Captured, Packet, rel_ts, stamp, stamped, insert_packet, by_time}

-- Times in the file that do not go down.
abbrev pub Ascends : ℕ → List Packet → Type 0
Ascends lo [] = Unit
Ascends lo (x ∷ xs) = (lo ≤ x.ts_nanos) × Ascends x.ts_nanos xs

insert_packet-Ascends :
    (lo : ℕ) (x : Packet) (ys : List Packet)
    → lo ≤ x.ts_nanos
    → Ascends lo ys
    → Ascends lo (insert_packet x ys)
unfolding insert_packet
insert_packet-Ascends lo x [] le h = (le, tt)
insert_packet-Ascends lo x (y ∷ ys) le h = elim (Bool-cases (ltb y.ts_nanos x.ts_nanos)) [
  | inl t ↦
      rw (t, insert_packet) (h.0, insert_packet-Ascends y.ts_nanos x ys (ground (arith, t)) h.1)
  | inr t ↦ rw (t, insert_packet) (le, (ground (arith, t), h.1))
]

by_time-Ascends : (xs : List Packet) → Ascends 0 (by_time xs)
unfolding by_time
by_time-Ascends [] = tt
by_time-Ascends (x ∷ xs) = insert_packet-Ascends 0 x (by_time xs) (omega arith) (by_time-Ascends xs)

insert_packet-Perm : (x : Packet) (ys : List Packet) → Perm (insert_packet x ys) (x ∷ ys)
unfolding insert_packet
insert_packet-Perm x [] = Perm.refl (x ∷ [])
insert_packet-Perm x (y ∷ ys) = elim (Bool-cases (ltb y.ts_nanos x.ts_nanos)) [
  | inl e ↦
      rw (e, insert_packet) (Perm.trans (Perm.cons y (insert_packet-Perm x ys)) (Perm.swap x y ys))
  | inr e ↦ rw (e, insert_packet) (Perm.refl (x ∷ y ∷ ys))
]

by_time-Perm : (xs : List Packet) → Perm (by_time xs) xs
unfolding by_time
by_time-Perm [] = Perm.refl []
by_time-Perm (x ∷ xs) =
    Perm.trans (insert_packet-Perm x (by_time xs)) (Perm.cons x (by_time-Perm xs))

-- The packets of one time, in their order.
unfoldable pub at_time : ℕ → List Packet → List Packet
at_time t [] = []
at_time t (x ∷ xs) = if x.ts_nanos == t then x ∷ at_time t xs else at_time t xs

insert_packet-at_time :
    (t : ℕ) (x : Packet) (ys : List Packet) → at_time t (insert_packet x ys) ≡ at_time t (x ∷ ys)
unfolding insert_packet at_time
insert_packet-at_time t x [] = refl
insert_packet-at_time t x (y ∷ ys) =
    let rest = insert_packet-at_time t x ys in
    elim (Bool-cases (ltb y.ts_nanos x.ts_nanos)) [
      | inl e ↦ rw (e, insert_packet, at_time) (ground (arith, e, rest))
      | inr e ↦ rw (e, insert_packet, at_time) refl
    ]

by_time-at_time : (t : ℕ) (xs : List Packet) → at_time t (by_time xs) ≡ at_time t xs
unfolding by_time at_time
by_time-at_time t [] = refl
by_time-at_time t (x ∷ xs) =
    insert_packet-at_time t x (by_time xs)
    ∙ ap (λ ys. if x.ts_nanos == t then x ∷ ys else ys) (by_time-at_time t xs)

-- The packet at a place of the capture: its number is the place counted from 1, and its time counts from that
-- of the first packet.
abbrev pub packet_at : ℕ → ℕ → Option Captured → Option Packet
packet_at first k none = none
packet_at first k (some c) = some (record {
  num = (k + 1) % 2 ^ 32;
  ts_nanos = c.ts_nanos;
  ts = rel_ts first c.ts_nanos;
  decoded = c.decoded;
})

stamp-packet_at :
    (first i k j : ℕ) (cs : List Captured)
    → j ≡ i + k
    → get_elem? (stamp first i cs) k ≡ packet_at first j (get_elem? cs k)
unfolding stamp
stamp-packet_at first i k j [] e = refl
stamp-packet_at first i zero j (c ∷ cs) e = ap (λ n. packet_at first n (some c)) (omega (arith, e))
stamp-packet_at first i (suc k) j (c ∷ cs) e =
    stamp-packet_at first (i + 1) k j cs (omega (arith, e))

abbrev pub first_time : List Captured → ℕ
first_time [] = 0
first_time (c ∷ cs) = c.ts_nanos

stamped-packet_at :
    (cs : List Captured) (k : ℕ)
    → get_elem? (stamped cs) k ≡ packet_at (first_time cs) k (get_elem? cs k)
stamped-packet_at [] k = refl
stamped-packet_at (c ∷ cs) k = stamp-packet_at c.ts_nanos 0 k k (c ∷ cs) (omega arith)

-- Packets as those of a capture in the order of their times in the file, those of one time as they stand there.
pub record InOrder (cs : List Captured) (xs : List Packet) : Type 0 where
  pub places : (k : ℕ) → get_elem? (stamped cs) k ≡ packet_at (first_time cs) k (get_elem? cs k)
  pub whole : Perm xs (stamped cs)
  pub sorted : Ascends 0 xs
  pub stable : (t : ℕ) → at_time t xs ≡ at_time t (stamped cs)

pub by_time-InOrder : (cs : List Captured) → InOrder cs (by_time (stamped cs))
by_time-InOrder cs = record {
  places = stamped-packet_at cs;
  whole = by_time-Perm (stamped cs);
  sorted = by_time-Ascends (stamped cs);
  stable = λ t. by_time-at_time t (stamped cs);
}
