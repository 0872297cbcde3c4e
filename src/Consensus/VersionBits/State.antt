-- ===== src/Consensus/VersionBits/State.antt =====
-- `VersionBitsState` of layer1-core/consensus/versioning/versionbits.cpp: how a deployment moves from
-- state to state.
use drachma_block_chain.Common.{
  ℕ, zero, suc, ◌+◌, ◌*◌, ◌/◌, ◌%◌, ◌≤◌, ◌<◌, ◌≡◌, refl, ◌⊎◌, inl, inr, arith, List, [], ◌∷◌, Bool,
  true, false, length, ◌^◌, sym, ap, ◌∙◌, if_false, ◌==◌, ◌&&◌, if◌then◌else◌, Bool-cases, Result,
  ok, >>=-eq-ok, ok-injective, ◌>>=◌, leb→le, All,
}
use mathlib.Core.Path.{subst}
use native.Mathlib.Nat.{div-add-mod'}
use drachma_block_chain.Common.Int.{
  to_int32, to_int32_small, eq_ℤ, ℤ, pos, negsuc, pos+pos, ◌+ℤ◌, half, ◌≤ℤ◌, leb_ℤ, ltb_ℤ,
}
use drachma_block_chain.Consensus.Params.{VbDeployment, Params}
use drachma_block_chain.Consensus.VersionBits.{
  ThresholdState, defined, started, locked_in, active, failed, BlockVersionSample, times_int,
  in_period, count_signals, median_time, next_state, run_periods, rounds, last_height,
  version_bits_state, times, sort_times, insert_time, middle, time_at,
}

-- The moves that one period makes. `lock_in` needs the signals, `start` the start time.
data Step (d : VbDeployment) (threshold : ℤ) (window : List BlockVersionSample) (mtp : ℤ)
    : ThresholdState → ThresholdState → Type 0 where
  stay : {s : ThresholdState} → Step d threshold window mtp s s
  start :
      leb_ℤ d.timeout mtp ≡ false
      → leb_ℤ d.start_time mtp ≡ true
      → Step d threshold window mtp defined started
  lock_in :
      {n : ℕ}
      → leb_ℤ d.timeout mtp ≡ false
      → count_signals d window ≡ ok n
      → threshold ≤ℤ pos n
      → Step d threshold window mtp started locked_in
  activate : Step d threshold window mtp locked_in active
  time_out :
      {s : ThresholdState} → leb_ℤ d.timeout mtp ≡ true → Step d threshold window mtp s failed

module _ (d : VbDeployment) (threshold : ℤ) where
  from_defined :
      (window : List BlockVersionSample) (mtp : ℤ) (a b : Bool) (s : ThresholdState)
      → leb_ℤ d.timeout mtp ≡ a
      → leb_ℤ d.start_time mtp ≡ b
      → (if a then failed else if b then started else defined) ≡ s
      → Step d threshold window mtp defined s
  from_defined window mtp true b s h k e =
      subst (Step d threshold window mtp defined) e (time_out h)
  from_defined window mtp false true s h k e =
      subst (Step d threshold window mtp defined) e (start h k)
  from_defined window mtp false false s h k e = subst (Step d threshold window mtp defined) e stay

  from_started :
      (window : List BlockVersionSample) (mtp : ℤ) (n : ℕ) (b : Bool) (s : ThresholdState)
      → leb_ℤ d.timeout mtp ≡ false
      → count_signals d window ≡ ok n
      → leb_ℤ threshold (pos n) ≡ b
      → (if b then locked_in else started) ≡ s
      → Step d threshold window mtp started s
  from_started window mtp n true s h c k e =
      subst (Step d threshold window mtp started) e (lock_in h c (leb→le _ _ k))
  from_started window mtp n false s h c k e = subst (Step d threshold window mtp started) e stay

  next_state-Step :
      (window : List BlockVersionSample) (mtp : ℤ) (s s' : ThresholdState)
      → next_state d threshold window mtp s ≡ ok s'
      → Step d threshold window mtp s s'
  unfolding next_state
  next_state-Step window mtp defined s' e =
      from_defined window mtp (leb_ℤ d.timeout mtp) (leb_ℤ d.start_time mtp) s' refl refl
        (ok-injective e)
  next_state-Step window mtp started s' e = elim (Bool-cases (leb_ℤ d.timeout mtp)) [
    | inl late ↦
        subst (Step d threshold window mtp started) (late_failed (leb_ℤ d.timeout mtp) _ late e)
          (time_out late)
    | inr in_time ↦
        let (n, c, last) = counted (leb_ℤ d.timeout mtp) in_time e in
        from_started window mtp n (leb_ℤ threshold (pos n)) s' in_time c refl (ok-injective last)
  ]
    where
      late_failed :
          (b : Bool) (m : Result ThresholdState)
          → b ≡ true
          → (if b then ok failed else m) ≡ ok s'
          → failed ≡ s'
      late_failed b m h e = ground arith

      counted :
          (b : Bool)
          → b ≡ false
          → (if b
              then ok failed
              else (count_signals d window >>= λ n.
                  ok (if leb_ℤ threshold (pos n) then locked_in else started)))
            ≡ ok s'
          → (n : ℕ) × (count_signals d window ≡ ok n)
            × (ok (if leb_ℤ threshold (pos n) then locked_in else started) ≡ ok s')
      counted true h e = cc
      counted false h e = >>=-eq-ok (count_signals d window) _ e
  next_state-Step window mtp locked_in s' e =
      subst (Step d threshold window mtp locked_in) (ok-injective e) activate
  next_state-Step window mtp active s' e =
      subst (Step d threshold window mtp active) (ok-injective e) stay
  next_state-Step window mtp failed s' e =
      subst (Step d threshold window mtp failed) (ok-injective e) stay

-- How far a deployment is on its way to activation.
abbrev rank : ThresholdState → ℕ
rank defined = 0
rank started = 1
rank locked_in = 2
rank active = 3
rank failed = 0

module _ {d : VbDeployment} {threshold : ℤ} {window : List BlockVersionSample} {mtp : ℤ} where
  rank-Step : (s s' : ThresholdState) → Step d threshold window mtp s s' → rank s' ≤ rank s + 1
  rank-Step s _ stay = omega arith
  rank-Step _ _ (start h k) = omega arith
  rank-Step _ _ (lock_in h c k) = omega arith
  rank-Step _ _ activate = omega arith
  rank-Step s _ (time_out h) = omega arith

  -- The second half of the way is entered only with the signals.
  lock-Step :
      (s s' : ThresholdState)
      → Step d threshold window mtp s s'
      → 2 ≤ rank s'
      → (2 ≤ rank s) ⊎ ((n : ℕ) × (count_signals d window ≡ ok n) × (threshold ≤ℤ pos n))
  lock-Step s _ stay h = inl h
  lock-Step _ _ (start _ _) h = absurd (omega arith)
  lock-Step _ _ (lock_in {n} _ c k) h = inr (n, c, k)
  lock-Step _ _ activate h = inl (omega arith)
  lock-Step s _ (time_out _) h = absurd (omega arith)

module _ (d : VbDeployment) (period threshold : ℤ) (history : List BlockVersionSample) where
  abbrev window_of : ℕ → List BlockVersionSample
  window_of p = in_period period p history

  one_round :
      (k p : ℕ) (s s' : ThresholdState)
      → run_periods d period threshold history (suc k) p s ≡ ok s'
      → (t : ThresholdState) × Step d threshold (window_of p) (median_time (window_of p)) s t
        × (run_periods d period threshold history k (p + 1) t ≡ ok s')
  unfolding run_periods
  one_round k p s s' e =
      let (t, first, rest) =
        >>=-eq-ok (next_state d threshold (window_of p) (median_time (window_of p)) s)
          (λ t. run_periods d period threshold history k (p + 1) t) e in
      (t, next_state-Step d threshold _ _ s t first, rest)

  rank_rounds :
      (k p : ℕ) (s s' : ThresholdState)
      → run_periods d period threshold history k p s ≡ ok s'
      → rank s' ≤ rank s + k
  rank_rounds zero p s s' e = unfold run_periods in ground (arith, e)
  rank_rounds (suc k) p s s' e =
      let (t, step, rest) = one_round k p s s' e in
      omega (arith, rank-Step s t step, rank_rounds k (p + 1) t s' rest)

  lock_rounds :
      (k p : ℕ) (s s' : ThresholdState)
      → run_periods d period threshold history k p s ≡ ok s'
      → 2 ≤ rank s'
      → (2 ≤ rank s)
        ⊎ ((q n : ℕ) × (p ≤ q)
            × (q < p + k)
            × (count_signals d (window_of q) ≡ ok n)
            × (threshold ≤ℤ pos n))
  lock_rounds zero p s s' e h = inl (unfold run_periods in ground (arith, e))
  lock_rounds (suc k) p s s' e h =
      let (t, step, rest) = one_round k p s s' e in
      elim (lock_rounds k (p + 1) t s' rest h) [
        | inr (q, n, a, b, c, f) ↦ inr (q, n, omega arith, omega arith, c, f)
        | inl u ↦ elim (lock-Step s t step u) [
          | inl v ↦ inl v
          | inr (n, c, f) ↦ inr (p, n, omega arith, omega arith, c, f)
        ]
      ]

long_run : (h : ℤ) (period : ℕ) → 3 ≤ rounds h (pos period) → pos (2 * period) ≤ℤ h
unfolding rounds
long_run (pos n) period h = grind (arith, div-add-mod' n period, h)
long_run (negsuc n) period h = absurd (ground arith)

-- A window of some blocks, and what `VersionBitsState` is then.
period_set : (window : ℕ) → 0 < window → window < 2 ^ 31 → eq_ℤ (to_int32 window) (pos 0) ≡ false
period_set window some' small = rw (to_int32_small window small) (ground (arith, some'))

state_runs :
    (params : Params) (d : VbDeployment) (s : BlockVersionSample) (ss : List BlockVersionSample)
    → 0 < params.miner_confirmation_window
    → params.miner_confirmation_window < 2 ^ 31
    → let period = pos params.miner_confirmation_window in
      version_bits_state params d (s ∷ ss)
      ≡ run_periods d period
          (to_int32 params.rule_change_activation_threshold)
          (s ∷ ss)
          (rounds (last_height s ss +ℤ pos 1) period)
          0
          defined
unfolding version_bits_state
state_runs params d s ss some' small =
    let threshold = to_int32 params.rule_change_activation_threshold in
    if_false (eq_ℤ (to_int32 params.miner_confirmation_window) (pos 0)) _ _
      (period_set params.miner_confirmation_window some' small)
    ∙ ap
        (λ period.
          run_periods d period threshold (s ∷ ss) (rounds (last_height s ss +ℤ pos 1) period) 0
            defined)
        (to_int32_small params.miner_confirmation_window small)

-- Where the window has at least one block, and it and the threshold are below 2 ^ 31: a deployment is
-- active only at the end of a second full period or later, and only if in some period of the history at
-- least the threshold of the blocks signalled for it.
pub active_needs_signals :
    (params : Params) (d : VbDeployment) (s : BlockVersionSample) (ss : List BlockVersionSample)
    → 0 < params.miner_confirmation_window
    → params.miner_confirmation_window < 2 ^ 31
    → params.rule_change_activation_threshold < 2 ^ 31
    → version_bits_state params d (s ∷ ss) ≡ ok active
    → (pos (2 * params.miner_confirmation_window) ≤ℤ (last_height s ss +ℤ pos 1))
      × ((p n : ℕ) × (count_signals d (in_period (pos params.miner_confirmation_window) p (s ∷ ss))
            ≡ ok n)
          × (params.rule_change_activation_threshold ≤ n))
active_needs_signals params d s ss some' small low e =
    let period = pos params.miner_confirmation_window in
    let threshold = to_int32 params.rule_change_activation_threshold in
    let tip = last_height s ss +ℤ pos 1 in
    let run = sym (state_runs params d s ss some' small) ∙ e in
    (
      long_run tip params.miner_confirmation_window (
          omega (
            arith,
            rank_rounds d period threshold (s ∷ ss) (rounds tip period) 0 defined active run,
          )),
      elim (lock_rounds d period threshold (s ∷ ss) (rounds tip period) 0 defined active run
          (omega arith)) [
            | inl h ↦ absurd (omega arith)
            | inr (q, n, a, b, c, f) ↦ (q, n, c, enough n f)
          ],
    )
  where
    enough :
        (n : ℕ)
        → to_int32 params.rule_change_activation_threshold ≤ℤ pos n
        → params.rule_change_activation_threshold ≤ n
    enough n f =
        let g : pos params.rule_change_activation_threshold ≤ℤ pos n =
          subst (λ t. t ≤ℤ pos n) (to_int32_small params.rule_change_activation_threshold low) f in
        omega (arith, g)

-- Times and heights that are not negative.
abbrev pub IsNonneg : ℤ → Type 0
IsNonneg (pos n) = Unit
IsNonneg (negsuc n) = ⊥

insert_time-IsNonneg :
    (t : ℤ) (ts : List ℤ) → IsNonneg t → All IsNonneg ts → All IsNonneg (insert_time t ts)
unfolding insert_time
insert_time-IsNonneg t [] h k = (h, tt)
insert_time-IsNonneg t (u ∷ us) h k = elim (Bool-cases (ltb_ℤ u t)) [
  | inl less ↦ rw less (k.0, insert_time-IsNonneg t us h k.1)
  | inr rest ↦ rw rest (h, k)
]

sort_times-IsNonneg :
    (ss : List BlockVersionSample)
    → All (λ s. IsNonneg s.time) ss
    → All IsNonneg (sort_times (times ss))
unfolding sort_times times
sort_times-IsNonneg [] h = tt
sort_times-IsNonneg (s ∷ ss) h =
    insert_time-IsNonneg s.time (sort_times (times ss)) h.0 (sort_times-IsNonneg ss h.1)

time_at-IsNonneg : (ts : List ℤ) (i : ℕ) → All IsNonneg ts → IsNonneg (time_at ts i)
time_at-IsNonneg [] i h = tt
time_at-IsNonneg (t ∷ ts) zero h = h.0
time_at-IsNonneg (t ∷ ts) (suc i) h = time_at-IsNonneg ts i h.1

half-IsNonneg : (a b : ℤ) → IsNonneg a → IsNonneg b → IsNonneg (half (a +ℤ b))
unfolding half
half-IsNonneg (pos a) (pos b) h k = rw (pos+pos a b) tt
half-IsNonneg (pos a) (negsuc b) h k = absurd k
half-IsNonneg (negsuc a) b h k = absurd h

median_time-IsNonneg :
    (ss : List BlockVersionSample) → All (λ s. IsNonneg s.time) ss → IsNonneg (median_time ss)
unfolding middle
median_time-IsNonneg [] h = unfold median_time in tt
median_time-IsNonneg (s ∷ ss) h =
    unfold median_time in by_middle (sort_times (times (s ∷ ss))) (sort_times-IsNonneg (s ∷ ss) h)
  where
    by_middle : (ts : List ℤ) → All IsNonneg ts → IsNonneg (middle ts)
    by_middle ts k = elim (Bool-cases (length ts % 2 == 0)) [
      | inl even ↦ rw even (half-IsNonneg _ _ (time_at-IsNonneg ts _ k) (time_at-IsNonneg ts _ k))
      | inr odd ↦ rw odd (time_at-IsNonneg ts _ k)
    ]

in_period-IsNonneg :
    (period : ℤ) (p : ℕ) (ss : List BlockVersionSample)
    → All (λ s. IsNonneg s.time) ss
    → All (λ s. IsNonneg s.time) (in_period period p ss)
unfolding in_period
in_period-IsNonneg period p [] h = tt
in_period-IsNonneg period p (s ∷ ss) h =
    elim (Bool-cases
      (leb_ℤ (times_int p period) s.height && ltb_ℤ s.height (times_int (p + 1) period))) [
        | inl inside ↦ rw inside (h.0, in_period-IsNonneg period p ss h.1)
        | inr outside ↦ rw outside (in_period-IsNonneg period p ss h.1)
      ]

stays_failed :
    (d : VbDeployment) (period threshold : ℤ) (history : List BlockVersionSample) (k p : ℕ)
    → run_periods d period threshold history k p failed ≡ ok failed
unfolding run_periods next_state
stays_failed d period threshold history zero p = refl
stays_failed d period threshold history (suc k) p =
    stays_failed d period threshold history k (p + 1)

one_round_at_least :
    (h : ℤ) (period : ℕ) → IsNonneg h → (k : ℕ) × (rounds (h +ℤ pos 1) (pos period) ≡ suc k)
unfolding rounds
one_round_at_least (pos n) period h = ((n + 1) / period, rw (pos+pos n 1) (omega arith))
one_round_at_least (negsuc n) period h = absurd h

late : (t m : ℤ) → t ≡ negsuc 0 → IsNonneg m → leb_ℤ t m ≡ true
late t (pos m) e h = rw e (ground arith)
late t (negsuc m) e h = absurd h

first_fails :
    (d : VbDeployment) (period threshold : ℤ) (history : List BlockVersionSample) (k : ℕ)
    → leb_ℤ d.timeout (median_time (in_period period 0 history)) ≡ true
    → run_periods d period threshold history (suc k) 0 defined ≡ ok failed
unfolding run_periods next_state
first_fails d period threshold history k over =
    rw over (stays_failed d period threshold history k (0 + 1))

-- A timeout of -1 does not keep a deployment open: where times and the tip's height are not negative,
-- and the window has at least one block and fewer than 2 ^ 31, it has failed, whatever was signalled.
pub minus_one_timeout_fails :
    (params : Params) (d : VbDeployment) (s : BlockVersionSample) (ss : List BlockVersionSample)
    → 0 < params.miner_confirmation_window
    → params.miner_confirmation_window < 2 ^ 31
    → d.timeout ≡ negsuc 0
    → All (λ e. IsNonneg e.time) (s ∷ ss)
    → IsNonneg (last_height s ss)
    → version_bits_state params d (s ∷ ss) ≡ ok failed
minus_one_timeout_fails params d s ss some' small e h tip =
    let period : ℤ = pos params.miner_confirmation_window in
    let window = in_period period 0 (s ∷ ss) in
    let (k, more) = one_round_at_least (last_height s ss) params.miner_confirmation_window tip in
    let over =
      late d.timeout (median_time window) e
        (median_time-IsNonneg window (in_period-IsNonneg period 0 (s ∷ ss) h)) in
    let threshold = to_int32 params.rule_change_activation_threshold in
    state_runs params d s ss some' small
    ∙ ap (λ n. run_periods d period threshold (s ∷ ss) n 0 defined) more
    ∙ first_fails d period threshold (s ∷ ss) k over
