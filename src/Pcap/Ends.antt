-- ===== src/Pcap/Ends.antt =====
-- When `parseNg` of backend/src/pcapio/pcap_reader.cpp ends, and when it does not.
use avb_introspection.Base.{
  ℕ, zero, suc, ◌+◌, ◌-◌, ◌≤◌, ◌<◌, ◌≡◌, ◌≢◌, refl, ap, Bool, true, false, ◌&&◌, ◌||◌, not, none,
  some, List, arith, ltb, leb, ◌==◌, if◌then◌else◌, length, drop, get_or, inl, inr, Bool-cases,
  Option-cases,
}
use avb_introspection.Pcap.{Result, ok, err, stuck, magic_ng, has, u16, u32, word32}
use avb_introspection.Pcap.Bounds.{not_empty-stuck}
use avb_introspection.Pcap.Ng.{
  Ng, start, read_option, read_options, padded, ns_per_tick_of, read_idb, read_epb, get_interface,
  add_epb, on_idb, on_epb, on_spb, on_block, Round, next, break, fails, spent, on_shb, after_block,
  on_other, round, blocks, finish, parse_ng,
}

read_option-pos :
    (swap : Bool) (file : List ℕ) (pos : ℕ) (r : ℕ × ℕ × ℕ)
    → read_option swap file pos ≡ some r
    → r.2 ≡ pos + 4
unfolding read_option u16
read_option-pos swap file pos r e = ground (arith, e)

read_options-ends :
    (swap : Bool) (file : List ℕ) (opt_end fuel pos ns : ℕ)
    → 0 < fuel
    → opt_end < pos + fuel
    → read_options swap file opt_end fuel pos ns ≢ none
unfolding read_options
read_options-ends swap file opt_end zero pos ns some_fuel enough e =
    absurd (omega (arith, some_fuel))
read_options-ends swap file opt_end (suc fuel) pos ns some_fuel enough e =
    elim (Bool-cases (leb (pos + 4) opt_end)) [
      | inr past ↦ ground (arith, e, past)
      | inl more ↦ elim (Option-cases (read_option swap file pos)) [
        | inl cut ↦ ground (arith, e, more, cut)
        | inr ((code, len, p), read) ↦ elim (Bool-cases (code == 0)) [
          | inl last ↦ ground (arith, e, more, read, last)
          | inr other ↦
              read_options-ends swap file opt_end fuel
                (if has (padded len) file p then p + padded len else p)
                (if (code == 9) && not (len == 0) then ns_per_tick_of (get_or file p 0) else ns)
                (ground (arith, enough, more))
                (ground (arith, enough, more, read_option-pos swap file pos (code, len, p) read))
                (ground (arith, e, more, read, other))
        ]
      ]
    ]

on_idb-ends :
    (file : List ℕ) (opt_end : ℕ) (s : Ng) (pos : ℕ)
    → opt_end ≤ length file
    → on_idb file opt_end s pos ≢ stuck
unfolding on_idb
on_idb-ends file opt_end s pos inside e = elim (Option-cases (read_idb s.swap file pos)) [
  | inl cut ↦ ground (arith, e, cut)
  | inr ((link, p), read) ↦
      elim (Option-cases (read_options s.swap file opt_end (suc (length file)) p 1000)) [
        | inl spun ↦
            read_options-ends s.swap file opt_end (suc (length file)) p 1000 (omega arith)
              (omega (arith, inside)) spun
        | inr (ns, options) ↦ ground (arith, e, read, options)
      ]
]

on_epb-ends : (file : List ℕ) (s : Ng) (pos : ℕ) → on_epb file s pos ≢ stuck
unfolding on_epb add_epb
on_epb-ends file s pos e = elim (Option-cases (read_epb s.swap file pos)) [
  | inl cut ↦ ground (arith, e, cut)
  | inr ((h, p), read) ↦ elim (Option-cases (get_interface s.interfaces h.iface)) [
    | inl none_there ↦ ground (arith, e, read, none_there)
    | inr (i, found) ↦ ground (arith, e, read, found)
  ]
]

on_spb-ends :
    (file : List ℕ) (block_len : ℕ) (s : Ng) (pos : ℕ) → on_spb file block_len s pos ≢ stuck
unfolding on_spb
on_spb-ends file block_len s pos e = elim (Option-cases (u32 s.swap file pos)) [
  | inl cut ↦ ground (arith, e, cut)
  | inr ((origlen, p), read) ↦ elim (Option-cases (get_interface s.interfaces 0)) [
    | inl none_there ↦ ground (arith, e, read, none_there)
    | inr (i, found) ↦ ground (arith, e, read, found)
  ]
]

on_block-ends :
    (file : List ℕ) (kind block_start block_len : ℕ) (s : Ng) (pos : ℕ)
    → block_start + block_len ≤ length file
    → on_block file kind block_start block_len s pos ≢ stuck
unfolding on_block
on_block-ends file kind block_start block_len s pos inside e = elim (Bool-cases (kind == 1)) [
  | inl idb ↦
      on_idb-ends file (block_start + block_len - 4) s pos (omega (arith, inside)) (rw idb at e)
  | inr a ↦ elim (Bool-cases (kind == 6)) [
    | inl epb ↦ on_epb-ends file s pos (rw (a, epb) at e)
    | inr b ↦ elim (Bool-cases (kind == 3)) [
      | inl spb ↦ on_spb-ends file block_len s pos (rw (a, b, spb) at e)
      | inr c ↦ ground (arith, e, a, b, c)
    ]
  ]
]

-- A round ends, and goes on, if it does, at a later position.
abbrev Advances : ℕ → Round → Type 0
Advances pos (next p s) = pos < p
Advances pos break = Unit
Advances pos (fails e) = Unit
Advances pos spent = ⊥

after_block-Advances :
    (pos p : ℕ) (r : Result Ng) → pos < p → r ≢ stuck → Advances pos (after_block p r)
after_block-Advances pos p (ok s) h k = h
after_block-Advances pos p (err e) h k = tt
after_block-Advances pos p stuck h k = k refl

-- The rounds of the loop: the positions of the blocks that it comes to, and the variables there.
pub data Visits (file : List ℕ) : ℕ → Ng → Type 0 where
  at_start : Visits file 0 start
  at_next :
      {pos pos' : ℕ} {s s' : Ng}
      → Visits file pos s
      → has 12 file pos ≡ true
      → round file s pos ≡ next pos' s'
      → Visits file pos' s'

-- The length that a section header says its block has, in the byte order that it gives.
abbrev pub section_length : List ℕ → ℕ → ℕ
section_length file pos =
    word32 (word32 false (drop (pos + 8) file) == 0x4d3c2b1a) (drop (pos + 4) file)

-- Every section header that the loop comes to says that its block is not empty.
abbrev pub NoEmptySection : List ℕ → Type 0
NoEmptySection file =
    (pos : ℕ) (s : Ng)
    → Visits file pos s
    → word32 s.swap (drop pos file) ≡ magic_ng
    → 0 < section_length file pos

u32-some :
    (swap : Bool) (file : List ℕ) (pos v p : ℕ)
    → u32 swap file pos ≡ some (v, p)
    → (v ≡ word32 swap (drop pos file)) × (p ≡ pos + 4)
unfolding u32
u32-some swap file pos v p e = ground (arith, e)

on_shb-Advances :
    (file : List ℕ) (s : Ng) (pos : ℕ)
    → 0 < section_length file pos
    → Advances pos (on_shb file s pos)
unfolding on_shb
on_shb-Advances file s pos h =
    elim (Bool-cases (not (bom == 0x4d3c2b1a) && not (bom == 0x1a2b3c4d))) [
      | inl bad ↦ rw bad tt
      | inr good ↦ rw good (elim (Option-cases (u32 (bom == 0x4d3c2b1a) file (pos + 4))) [
        | inl cut ↦ rw (cut, Advances) tt
        | inr ((len, p), read) ↦
            rw (read, Advances)
              (ground (arith, u32-some (bom == 0x4d3c2b1a) file (pos + 4) len p read, h))
      ])
    ]
  where
    bom : ℕ
    bom = word32 false (drop (pos + 8) file)

on_other-Advances :
    (file : List ℕ) (s : Ng) (kind start_pos pos : ℕ)
    → Advances start_pos (on_other file s kind start_pos pos)
unfolding on_other
on_other-Advances file s kind start_pos pos = elim (Option-cases (u32 s.swap file pos)) [
  | inl cut ↦ rw (cut, Advances) tt
  | inr ((len, p), read) ↦
      rw (read, Advances)
        (elim (Bool-cases (ltb len 12 || ltb (length file) (start_pos + len))) [
          | inl bad ↦ rw bad tt
          | inr good ↦ rw good (
              after_block-Advances start_pos (start_pos + len) _ (ground (arith, good))
                (on_block-ends file kind start_pos len s p (ground (arith, good))))
        ])
]

round-Advances :
    (file : List ℕ) (s : Ng) (pos : ℕ)
    → NoEmptySection file
    → Visits file pos s
    → Advances pos (round file s pos)
unfolding round
round-Advances file s pos h here = elim (Option-cases (u32 s.swap file pos)) [
  | inl cut ↦ rw (cut, Advances) tt
  | inr ((kind, p), read) ↦
      rw (read, Advances)
        (elim (Bool-cases (kind == magic_ng)) [
          | inl section ↦ rw section (
              on_shb-Advances file s pos
                (h pos s here (ground (arith, section, u32-some s.swap file pos kind p read))))
          | inr other ↦ rw other (on_other-Advances file s kind pos p)
        ])
]

blocks-ends :
    (file : List ℕ) (fuel pos : ℕ) (s : Ng)
    → NoEmptySection file
    → Visits file pos s
    → 0 < fuel
    → length file < pos + fuel
    → blocks file fuel pos s ≢ stuck
unfolding blocks
blocks-ends file zero pos s h here some_fuel enough e = absurd (omega (arith, some_fuel))
blocks-ends file (suc fuel) pos s h here some_fuel enough e = elim (Bool-cases (has 12 file pos)) [
  | inr short ↦ ground (arith, e, short)
  | inl more ↦
      goes_on (round file s pos) refl (round-Advances file s pos h here)
        (λ p s' q.
          blocks-ends file fuel p s' h (at_next here more q) (ground (arith, more, enough)))
        more
]
  where
    goes_on :
        (r : Round)
        → round file s pos ≡ r
        → Advances pos r
        → ((p : ℕ) (s' : Ng)
            → round file s pos ≡ next p s'
            → length file < p + fuel
            → blocks file fuel p s' ≢ stuck)
        → has 12 file pos ≡ true
        → ⊥
    goes_on (next p s') q a ih more =
        ih p s' q (omega (arith, a, enough)) (ground (arith, e, more, q))
    goes_on break q a ih more = ground (arith, e, more, q)
    goes_on (fails x) q a ih more = ground (arith, e, more, q)
    goes_on spent q a ih more = a

finish-stuck : (r : Result Ng) → finish r ≡ stuck → r ≡ stuck
finish-stuck (ok s) e = elim (Bool-cases s.saw_ethernet) [
  | inl seen ↦ absurd (ground (arith, not_empty-stuck (ok s.packets) (rw seen at e)))
  | inr unseen ↦ ground (arith, e, unseen)
]
finish-stuck (err x) e = cc
finish-stuck stuck e = refl

-- Reading a pcapng capture always ends, with packets or with an error, if none of the section headers that the
-- loop comes to says that its block has length 0: within one round of the loop more than the file has bytes.
pub parse_ng-ends :
    (file : List ℕ) → NoEmptySection file → parse_ng (suc (length file)) file ≢ stuck
unfolding parse_ng
parse_ng-ends file h e =
    blocks-ends file (suc (length file)) 0 start h at_start (omega arith) (omega arith)
      (finish-stuck _ e)

spins-round :
    (file : List ℕ)
    → 12 ≤ length file
    → word32 false file ≡ magic_ng
    → word32 false (drop 8 file) ≡ 0x1a2b3c4d
    → word32 false (drop 4 file) ≡ 0
    → round file start 0 ≡ next 0 start
unfolding round on_shb u32
spins-round file long magic order empty = ground (arith, long, magic, order, empty)

blocks-spins :
    (fuel : ℕ) (file : List ℕ)
    → 12 ≤ length file
    → round file start 0 ≡ next 0 start
    → blocks file fuel 0 start ≡ stuck
unfolding blocks
blocks-spins zero file long again = refl
blocks-spins (suc fuel) file long again =
    let more : has 12 file 0 ≡ true = ground (arith, long) in
    ground (arith, more, again, blocks-spins fuel file long again)

-- A section header at the start of the file whose block has length 0 is read again and again: however many
-- rounds the loop is given, it does not end.
pub parse_ng_spins :
    (fuel : ℕ) (file : List ℕ)
    → 12 ≤ length file
    → word32 false file ≡ magic_ng
    → word32 false (drop 8 file) ≡ 0x1a2b3c4d
    → word32 false (drop 4 file) ≡ 0
    → parse_ng fuel file ≡ stuck
unfolding parse_ng
parse_ng_spins fuel file long magic order empty =
    ap finish (blocks-spins fuel file long (spins-round file long magic order empty))
