-- ===== src/Suit/Rounds.antt =====
-- What the rounds of the polling loop do.
use tox_suite.Base.{
  ◌⊎◌, ℕ, ◌*◌, ◌^◌, ◌≤◌, ◌<◌, ◌≡◌, inl, inr, true, List, [], ◌∷◌, arith, Bool-cases, All,
}
use tox_suite.Base.Int.{pos, ltb_ℤ}
use tox_suite.Base.Words.{to_i32, to_i32_of_small, to_u64_of_nonneg}
use tox_suite.Timespec.{
  Timespec, nanosec_timeout, timespec_subtract, timespec_to_ns, nsec_per_msec, nsec_per_sec,
}
use tox_suite.Suit.{Polling, Action, idle, round, sleep_delay, min_of, friend_purge_interval}

-- The readings of one round: the delays, and the clock.
pub record Reading : Type 0 where
  pub calltest_delay : ℕ
  pub tox_interval : ℕ
  pub toxav_interval : ℕ
  pub now : Timespec

-- The actions of the rounds at these readings.
unfoldable pub rounds : List Reading → Polling → List Action
rounds [] l = []
rounds (r ∷ rs) l =
    let (a, l') = round r.calltest_delay r.tox_interval r.toxav_interval r.now l in a ∷ rounds rs l'

abbrev pub Saves : Action → Type 0
Saves (idle files saved ns) = saved ≡ true
Saves _ = ⊥

round-Saves : (c t v : ℕ) (now : Timespec) (l : Polling) → ¬ Saves (round c t v now l).0
unfolding round
round-Saves c t v now l = elim (Bool-cases (nanosec_timeout l.tscalltest now c)) [
  | inl e ↦ rw e (λ h. h)
  | inr e ↦ elim (Bool-cases (nanosec_timeout l.tstox now (t * nsec_per_msec))) [
    | inl f ↦ rw (e, f) (λ h. h)
    | inr f ↦ elim (Bool-cases (nanosec_timeout l.tsav now (v * nsec_per_msec))) [
      | inl g ↦ rw (e, f, g) (λ h. h)
      | inr g ↦
          elim (Bool-cases
            (nanosec_timeout l.tsfriend now (friend_purge_interval * nsec_per_sec))) [
              | inl k ↦ rw (e, f, g, k) (λ h. h)
              | inr k ↦ rw (e, f, g, k) (λ h. ground (arith, h))
            ]
    ]
  ]
]

-- No round of the loop saves the profile, not even after a purge has asked for it.
pub rounds_save_nothing : (rs : List Reading) (l : Polling) → All (λ a. ¬ Saves a) (rounds rs l)
unfolding rounds
rounds_save_nothing [] l = tt
rounds_save_nothing (r ∷ rs) l = (
  round-Saves r.calltest_delay r.tox_interval r.toxav_interval r.now l,
  rounds_save_nothing rs (round r.calltest_delay r.tox_interval r.toxav_interval r.now l).1,
)

small : (n : ℕ) → n < 2 ^ 31 → to_i32 (pos n) ≡ pos n
small n h = to_i32_of_small (pos n) (ground (arith, h)) (ground arith)

min_of_small :
    (a b c : ℕ)
    → a < 2 ^ 31
    → b < 2 ^ 31
    → c < 2 ^ 31
    → (m : ℕ) × (min_of a b c ≡ pos m) × (m ≤ a) × (m ≤ b) × (m ≤ c)
unfolding min_of
min_of_small a b c ha hb hc =
    rw (small a ha, small b hb, small c hc)
      (elim (Bool-cases (ltb_ℤ (pos b) (pos a))) [
        | inl e ↦ elim (Bool-cases (ltb_ℤ (pos c) (pos b))) [
          | inl f ↦ (c, rw (e, f), ground (arith, e, f), ground (arith, e, f), omega arith)
          | inr f ↦ (b, rw (e, f), ground (arith, e), omega arith, ground (arith, f))
        ]
        | inr e ↦ elim (Bool-cases (ltb_ℤ (pos c) (pos a))) [
          | inl f ↦ (c, rw (e, f), ground (arith, f), ground (arith, e, f), omega arith)
          | inr f ↦ (a, rw (e, f), omega arith, ground (arith, e), ground (arith, f))
        ]
      ])

-- When more nanoseconds have passed since the last idle round than one of the three delays, and so
-- than the shortest, and they and the delays are below 2 ^ 31, the unsigned difference wraps, and
-- nanosleep is asked for more than a second, which it refuses.
pub sleep_delay_wraps :
    (c t v : ℕ) (now prev : Timespec) (e : ℕ)
    → timespec_to_ns (timespec_subtract now prev) ≡ pos e
    → e < 2 ^ 31
    → c < 2 ^ 31
    → t < 2 ^ 31
    → v < 2 ^ 31
    → (c < e) ⊎ ((t < e) ⊎ (v < e))
    → 999999999 < sleep_delay c t v now prev
unfolding sleep_delay
sleep_delay_wraps c t v now prev e passed few cs ts vs short =
    let (m, least, le_c, le_t, le_v) = min_of_small c t v cs ts vs in
    let above : m < e = elim short [
      | inl h ↦ omega (arith, le_c, le_t, le_v, h)
      | inr (inl h) ↦ omega (arith, le_c, le_t, le_v, h)
      | inr (inr h) ↦ omega (arith, le_c, le_t, le_v, h)
    ] in
    rw
      (
        least,
        passed,
        to_u64_of_nonneg m (omega (arith, le_c, cs)),
        to_u64_of_nonneg e (omega arith),
      )
      (ground (arith, le_c, cs, above))
