-- ===== src/Consensus/VersionBits.antt =====
-- layer1-core/consensus/versioning/versionbits.h and versionbits.cpp. Heights and times are ℤ: the sums
-- of the source stay within `int` and `int64_t`, where an overflow would be undefined.
pub mod Version
pub mod State
mod Tests
use drachma_block_chain.Common.{
  ℕ, zero, suc, ◌+◌, ◌-◌, ◌*◌, ◌/◌, ◌%◌, ◌^◌, bit_and, bit_or, List, [], ◌∷◌, length, get_elem?,
  Bool, true, false, not, ltb, leb, ◌==◌, ◌&&◌, ◌||◌, if◌then◌else◌, Option, none, some, Result, ok,
  err, throw_if, bit_out_of_range, division_by_zero, ◌>>=◌, ◌>>◌,
}
use drachma_block_chain.Common.Int.{
  ℤ, pos, negsuc, ◌+ℤ◌, negate, to_int32, half, ltb_ℤ, leb_ℤ, eq_ℤ,
}
use drachma_block_chain.Consensus.Params.{VbDeployment, Params}

pub data ThresholdState : Type 0 where
  defined started locked_in active failed : ThresholdState

pub record BlockVersionSample : Type 0 where
  pub height : ℤ
  pub time : ℤ
  pub version : ℤ

-- `1u << n` for a bit of at most 28.
abbrev pub shifted_one : ℤ → ℕ
shifted_one (pos n) = 2 ^ n
shifted_one (negsuc n) = 0

unfoldable pub version_bits_mask : VbDeployment → Result ℕ
version_bits_mask d = do
  throw_if (ltb_ℤ d.bit (pos 0) || ltb_ℤ (pos 28) d.bit) bit_out_of_range
  ok (shifted_one d.bit)

-- The conversion of an `int32_t` to `uint32_t`.
unfoldable pub to_u32 : ℤ → ℕ
to_u32 (pos n) = n % 2 ^ 32
to_u32 (negsuc n) = 2 ^ 32 - 1 - n % 2 ^ 32

unfoldable pub version_bits_signal : ℤ → VbDeployment → Result Bool
version_bits_signal version d = do
  mask ← version_bits_mask d
  ok (not (bit_and (to_u32 version) mask == 0))

unfoldable pub insert_time : ℤ → List ℤ → List ℤ
insert_time t [] = t ∷ []
insert_time t (u ∷ us) = if ltb_ℤ u t then u ∷ insert_time t us else t ∷ u ∷ us

-- `std::sort(times)`, whose result does not depend on how it sorts.
unfoldable pub sort_times : List ℤ → List ℤ
sort_times [] = []
sort_times (t ∷ ts) = insert_time t (sort_times ts)

unfoldable pub times : List BlockVersionSample → List ℤ
times [] = []
times (s ∷ ss) = s.time ∷ times ss

-- `times[i]`; the index is within the bounds.
abbrev pub time_at : List ℤ → ℕ → ℤ
time_at [] i = pos 0
time_at (t ∷ ts) zero = t
time_at (t ∷ ts) (suc i) = time_at ts i

unfoldable pub middle : List ℤ → ℤ
middle ts =
    let mid = length ts / 2 in
    if length ts % 2 == 0 then half (time_at ts (mid - 1) +ℤ time_at ts mid) else time_at ts mid

unfoldable pub median_time : List BlockVersionSample → ℤ
median_time [] = pos 0
median_time (s ∷ ss) = middle (sort_times (times (s ∷ ss)))

-- `sortedHistory.back().height`: the greatest height of the history.
unfoldable pub last_height : BlockVersionSample → List BlockVersionSample → ℤ
last_height s [] = s.height
last_height s (t ∷ ts) = let h = last_height t ts in if ltb_ℤ h s.height then s.height else h

-- `p * period`
unfoldable pub times_int : ℕ → ℤ → ℤ
times_int p (pos m) = pos (p * m)
times_int p (negsuc m) = negate (pos (p * (m + 1)))

-- The entries of a period, `window`. The order in which the history was sorted does not matter to what
-- is done with them: a median and a count.
unfoldable pub in_period : ℤ → ℕ → List BlockVersionSample → List BlockVersionSample
in_period period p [] = []
in_period period p (s ∷ ss) =
    let rest = in_period period p ss in
    if leb_ℤ (times_int p period) s.height && ltb_ℤ s.height (times_int (p + 1) period)
    then s ∷ rest
    else rest

unfoldable pub count_signals : VbDeployment → List BlockVersionSample → Result ℕ
count_signals d [] = ok 0
count_signals d (s ∷ ss) = do
  signal ← version_bits_signal s.version d
  n ← count_signals d ss
  ok (if signal then n + 1 else n)

-- The `switch`.
unfoldable pub next_state :
    VbDeployment → ℤ → List BlockVersionSample → ℤ → ThresholdState → Result ThresholdState
next_state d threshold window mtp defined =
    ok (if leb_ℤ d.timeout mtp then failed else if leb_ℤ d.start_time mtp then started else defined)
next_state d threshold window mtp started = if leb_ℤ d.timeout mtp then ok failed else (do
  signals ← count_signals d window
  ok (if leb_ℤ threshold (pos signals) then locked_in else started))
next_state d threshold window mtp locked_in = ok active
next_state d threshold window mtp active = ok active
next_state d threshold window mtp failed = ok failed

-- The loop over the periods, from period `p` on.
unfoldable pub run_periods :
    VbDeployment → ℤ → ℤ → List BlockVersionSample → ℕ → ℕ → ThresholdState → Result ThresholdState
run_periods d period threshold history zero p state = ok state
run_periods d period threshold history (suc rounds) p state = do
  let window = in_period period p history
  next ← next_state d threshold window (median_time window) state
  run_periods d period threshold history rounds (p + 1) next

-- The number of rounds of `for (int p = 0; p <= currentPeriod; ++p)`. The division is that of C++,
-- towards zero, and the period is not zero.
unfoldable pub rounds : ℤ → ℤ → ℕ
rounds (pos n) (pos m) = n / m + 1
rounds (pos n) (negsuc m) = if ltb n (m + 1) then 1 else 0
rounds (negsuc n) (pos m) = if ltb (suc n) m then 1 else 0
rounds (negsuc n) (negsuc m) = suc n / (m + 1) + 1

-- A window of no blocks divides by zero, which is an error here and undefined in the source.
unfoldable pub version_bits_state :
    Params → VbDeployment → List BlockVersionSample → Result ThresholdState
version_bits_state params d [] = ok defined
version_bits_state params d (s ∷ ss) =
    let period = to_int32 params.miner_confirmation_window in
    let threshold = to_int32 params.rule_change_activation_threshold in
    if eq_ℤ period (pos 0)
    then err division_by_zero
    else run_periods d period threshold (s ∷ ss) (rounds (last_height s ss +ℤ pos 1) period) 0
        defined

-- One round of the loop of `ComputeBlockVersion`.
unfoldable pub add_deployment : ℤ → ℕ → VbDeployment → Result ℕ
add_deployment mtp version d =
    if ltb_ℤ d.bit (pos 0)
    then ok version
    else if eq_ℤ d.start_time (negsuc 0)
    then ok version
    else if ltb_ℤ mtp d.start_time
    then ok version
    else if not (eq_ℤ d.timeout (negsuc 0)) && leb_ℤ d.timeout mtp
    then ok version
    else version_bits_mask d >>= λ mask. ok (bit_or version mask)

unfoldable pub add_deployments : ℤ → ℕ → List VbDeployment → Result ℕ
add_deployments mtp version [] = ok version
add_deployments mtp version (d ∷ ds) = do
  next ← add_deployment mtp version d
  add_deployments mtp next ds

unfoldable pub compute_block_version : Params → List VbDeployment → ℤ → Result ℕ
compute_block_version params deployments mtp = do
  version ← add_deployments mtp 0x20000000 deployments
  ok (bit_or version 0x10000000)
