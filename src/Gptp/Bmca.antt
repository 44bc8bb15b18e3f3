-- ===== src/Gptp/Bmca.antt =====
-- `evalBmca` of `GptpLogic` in backend/src/logic/gptp_logic.cpp finds the best announced clock.
use avb_introspection.Base.{
  ℕ, ◌≡◌, refl, ap, sym, ◌⊎◌, inl, inr, true, false, not, ◌&&◌, none, some, List, [], ◌∷◌, arith,
  ==_iff, Bool-cases, Dict, find, map, nat_key,
}
use avb_introspection.Gptp.State.{AnnVec, Domain}
use avb_introspection.Gptp.Domains.{lex_less, better_than, is_aged, age_out, best_of, eval_bmca}

abbrev Triple : Type 0
Triple = ℕ × (ℕ × ℕ)

abbrev first_two : Triple → ℕ × ℕ
first_two t = (t.0, t.1.0)

abbrev last_two : Triple → ℕ × ℕ
last_two t = (t.1.0, t.1.1)

abbrev outer_two : Triple → ℕ × ℕ
outer_two t = (t.0, t.1.1)

abbrev flip : ℕ × ℕ → ℕ × ℕ
flip p = (p.1, p.0)

lex_less_trans :
    (ts : List Triple)
    → (lex_less (map outer_two ts)
        && (not (lex_less (map first_two ts)) && not (lex_less (map last_two ts))))
      ≡ false
unfolding lex_less
lex_less_trans [] = refl
lex_less_trans ((a, (b, c)) ∷ ts) =
    ground (arith, lex_less_trans ts, ==_iff a b, ==_iff b c, ==_iff a c)

lex_less_asym : (ps : List (ℕ × ℕ)) → (lex_less ps && lex_less (map flip ps)) ≡ false
unfolding lex_less
lex_less_asym [] = refl
lex_less_asym ((a, b) ∷ ps) = ground (arith, lex_less_asym ps, ==_iff a b, ==_iff b a)

abbrev triples : AnnVec → AnnVec → AnnVec → List Triple
triples a b c =
    (a.p1, (b.p1, c.p1))
    ∷ (a.clock_class, (b.clock_class, c.clock_class))
    ∷ (a.accuracy, (b.accuracy, c.accuracy))
    ∷ (a.variance, (b.variance, c.variance))
    ∷ (a.p2, (b.p2, c.p2))
    ∷ (a.gm_id, (b.gm_id, c.gm_id))
    ∷ (a.steps_removed, (b.steps_removed, c.steps_removed))
    ∷ (a.src_clock, (b.src_clock, c.src_clock))
    ∷ (a.src_port, (b.src_port, c.src_port))
    ∷ []

-- A clock that another does not beat is not beaten by those which that other beats or ties.
better_than_trans :
    (a b c : AnnVec) → (better_than a c && (not (better_than a b) && not (better_than b c))) ≡ false
unfolding better_than
better_than_trans a b c = lex_less_trans (triples a b c)

better_than_asym : (a b : AnnVec) → (better_than a b && better_than b a) ≡ false
unfolding better_than
better_than_asym a b = lex_less_asym (map first_two (triples a b b))

abbrev pub Announced : AnnVec → Dict ℕ AnnVec → Type 0
Announced vec [] = ⊥
Announced vec ((key, v) ∷ m) = (v ≡ vec) ⊎ Announced vec m

-- What the loop over the announcers has found, from `b` on.
abbrev Found : AnnVec → Dict ℕ AnnVec → AnnVec → Type 0
Found b m r =
    (better_than b r ≡ false)
    × (((r ≡ b) ⊎ Announced r m) × ((v : AnnVec) → Announced v m → better_than v r ≡ false))

best_of-Found :
    (b : AnnVec) (m : Dict ℕ AnnVec) → (r : AnnVec) × ((best_of (some b) m ≡ some r) × Found b m r)
unfolding best_of
best_of-Found b [] =
    (b, (refl, (ground (arith, better_than_asym b b), (inl refl, λ v i. absurd i))))
best_of-Found b ((key, v) ∷ m) = elim (Bool-cases (better_than v b)) [
  | inl beats ↦
      let (r, (e, (top, (mem, all)))) = best_of-Found v m in
      (
        r,
        (
          rw beats e,
          (
            ground (arith, better_than_asym v b, better_than_trans b v r),
            (
              inr (elim mem [ inl same ↦ inl (sym same) | inr later ↦ inr later ]),
              λ x i. elim i [ inl same ↦ rw (← same) top | inr later ↦ all x later ],
            ),
          ),
        ),
      )
  | inr stays ↦
      let (r, (e, (top, (mem, all)))) = best_of-Found b m in
      (
        r,
        (
          rw stays e,
          (
            top,
            (
              elim mem [ inl same ↦ inl same | inr later ↦ inr (inr later) ],
              λ x i. elim i [
                | inl same ↦ rw (← same) (ground (arith, better_than_trans v b r))
                | inr later ↦ all x later
              ],
            ),
          ),
        ),
      )
]

best_of-start :
    (vec : AnnVec) (m : Dict ℕ AnnVec)
    → Announced vec m
    → (r : AnnVec) × ((best_of none m ≡ some r)
        × (Announced r m × ((v : AnnVec) → Announced v m → better_than v r ≡ false)))
unfolding best_of
best_of-start vec [] i = absurd i
best_of-start vec ((key, v) ∷ m) i =
    let (r, (e, (top, (mem, all)))) = best_of-Found v m in
    (
      r,
      (
        e,
        (
          elim mem [ inl same ↦ inl (sym same) | inr later ↦ inr later ],
          λ x j. elim j [ inl same ↦ rw (← same) top | inr later ↦ all x later ],
        ),
      ),
    )

age_out-keeps :
    (ts : ℕ) (vec : AnnVec) (m : Dict ℕ AnnVec)
    → Announced vec m
    → is_aged ts vec ≡ false
    → Announced vec (age_out ts m)
unfolding age_out
age_out-keeps ts vec [] i fresh = i
age_out-keeps ts vec ((key, v) ∷ m) i fresh = elim (Bool-cases (is_aged ts v)) [
  | inl old ↦ rw old (elim i [
    | inl same ↦ absurd (ground (arith, ap (is_aged ts) same))
    | inr later ↦ age_out-keeps ts vec m later fresh
  ])
  | inr young ↦
      rw young
        (elim i [ inl same ↦ inl same | inr later ↦ inr (age_out-keeps ts vec m later fresh) ])
]

age_out-fresh :
    (ts : ℕ) (vec : AnnVec) (m : Dict ℕ AnnVec)
    → Announced vec (age_out ts m)
    → (is_aged ts vec ≡ false) × Announced vec m
unfolding age_out
age_out-fresh ts vec [] i = absurd i
age_out-fresh ts vec ((key, v) ∷ m) i = elim (Bool-cases (is_aged ts v)) [
  | inl old ↦ let (fresh, mem) = age_out-fresh ts vec m (rw old at i) in (fresh, inr mem)
  | inr young ↦
      let left : Announced vec ((key, v) ∷ age_out ts m) = rw young at i in
      elim left [
        | inl same ↦ (rw (← same) young, inl same)
        | inr later ↦ let (fresh, mem) = age_out-fresh ts vec m later in (fresh, inr mem)
      ]
]

set_expected-expected :
    (ts : ℕ) (d : Domain) (best : AnnVec)
    → best_of none (age_out ts d.announcers) ≡ some best
    → ((eval_bmca ts d).expected_vec ≡ best)
      × (((eval_bmca ts d).have_expected_vec ≡ true) × ((eval_bmca ts d).expected_gm ≡ best.gm_id))
unfolding eval_bmca
set_expected-expected ts d best e = ground (arith, e)

eval_bmca-announcers : (ts : ℕ) (d : Domain) → (eval_bmca ts d).announcers ≡ age_out ts d.announcers
unfolding eval_bmca
eval_bmca-announcers ts d =
    ground
      (arith, best_of none (age_out ts d.announcers), find d.sync_sender (age_out ts d.announcers))

-- When an announced vector of a domain has not aged, `evalBmca` keeps it, finds an expected grandmaster,
-- whose vector was announced and has not aged either, and no announced vector that has not aged is better.
pub eval_bmca-best :
    (ts : ℕ) (d : Domain) (vec : AnnVec)
    → Announced vec d.announcers
    → is_aged ts vec ≡ false
    → let e = eval_bmca ts d in
      Announced vec e.announcers
      × (((e.have_expected_vec ≡ true) × (e.expected_gm ≡ e.expected_vec.gm_id))
          × ((Announced e.expected_vec d.announcers × (is_aged ts e.expected_vec ≡ false))
              × (better_than vec e.expected_vec ≡ false)))
eval_bmca-best ts d vec i fresh =
    let stays = age_out-keeps ts vec d.announcers i fresh in
    let (r, (e, (mem, all))) = best_of-start vec (age_out ts d.announcers) stays in
    let (is_r, (have, gm)) = set_expected-expected ts d r e in
    let (young, was) = age_out-fresh ts r d.announcers mem in
    (
      rw (eval_bmca-announcers ts d) stays,
      ((have, rw is_r gm), ((rw is_r was, rw is_r young), rw is_r (all vec stays))),
    )
