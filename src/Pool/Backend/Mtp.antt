-- ===== src/Pool/Backend/Mtp.antt =====
-- Locktimes against the chain: what the cache keeps, and when a locktime is satisfied.
use umbrel_apps.Prelude.{
  ℕ, ◌≤◌, ◌<◌, Option, some, Bool, true, false, ◌≡◌, ◌↔◌, ◌⊎◌, Result, ok, arith, get_or,
}
use umbrel_apps.Pool.Backend.{
  Backend, Clock, MtpCache, get_median_time_past_cached, check_block_height, locktime_threshold,
  is_locktime_satisfied,
}

-- What the cached read answers.
abbrev pub mtp_of : Backend → Clock → MtpCache → Result ℕ
mtp_of b now cache = (get_median_time_past_cached b now cache).1

-- Reading again within the call gives the same answer.
pub mtp_of-stable :
    (b : Backend) (now : Clock) (cache : MtpCache)
    → mtp_of b now (get_median_time_past_cached b now cache).0 ≡ mtp_of b now cache
unfolding get_median_time_past_cached
mtp_of-stable b now cache = ground arith

abbrev pub locktime_of : Backend → Clock → MtpCache → Option ℕ → Result Bool
locktime_of b now cache nlocktime = (is_locktime_satisfied b now cache nlocktime).1

-- A locktime test leaves every later answer of the call as it was.
pub mtp_of-locktime :
    (b : Backend) (now : Clock) (cache : MtpCache) (nlocktime : Option ℕ)
    → mtp_of b now (is_locktime_satisfied b now cache nlocktime).0 ≡ mtp_of b now cache
unfolding is_locktime_satisfied
mtp_of-locktime b now cache nlocktime = ground (arith, mtp_of-stable b now cache)

pub locktime_of-eq :
    (b : Backend) (now : Clock) (c d : MtpCache) (nlocktime : Option ℕ)
    → mtp_of b now c ≡ mtp_of b now d
    → locktime_of b now c nlocktime ≡ locktime_of b now d nlocktime
unfolding is_locktime_satisfied
locktime_of-eq b now c d nlocktime h = ground arith

-- The chain has come to a locktime: none is set, or the median time past has reached a time, or the
-- height has reached a height.
abbrev pub IsMet : Result ℕ → Option ℕ → ℕ → Type 0
IsMet mtp height n =
    (n ≡ 0)
    ⊎ ((locktime_threshold < n) × ((m : ℕ) × (mtp ≡ ok m) × (n ≤ m)))
    ⊎ ((0 < n) × (n ≤ locktime_threshold) × ((h : ℕ) × (height ≡ some h) × (n ≤ h)))

satisfied→IsMet :
    (b : Backend) (now : Clock) (cache : MtpCache) (nlocktime : Option ℕ)
    → locktime_of b now cache nlocktime ≡ ok true
    → IsMet (mtp_of b now cache) (check_block_height b) (get_or nlocktime 0)
unfolding is_locktime_satisfied
satisfied→IsMet b now cache nlocktime e = ground arith

IsMet→satisfied :
    (b : Backend) (now : Clock) (cache : MtpCache) (nlocktime : Option ℕ)
    → IsMet (mtp_of b now cache) (check_block_height b) (get_or nlocktime 0)
    → locktime_of b now cache nlocktime ≡ ok true
unfolding is_locktime_satisfied
IsMet→satisfied b now cache nlocktime m = ground arith

-- A locktime test succeeds exactly when the chain has come to the locktime: it is zero, it is above
-- the threshold and the median time past is known and has reached it, or it is not above and the
-- height is known and has reached it.
pub locktime_iff :
    (b : Backend) (now : Clock) (cache : MtpCache) (nlocktime : Option ℕ)
    → (locktime_of b now cache nlocktime ≡ ok true)
      ↔ IsMet (mtp_of b now cache) (check_block_height b) (get_or nlocktime 0)
locktime_iff b now cache nlocktime =
    (satisfied→IsMet b now cache nlocktime, IsMet→satisfied b now cache nlocktime)

-- The locktime 500000000 is a time to Bitcoin, since heights lie below it. Here it counts as a
-- height: no median time past satisfies it while the chain is lower than that.
pub threshold_stuck :
    (b : Backend) (now : Clock) (cache : MtpCache) (h : ℕ)
    → check_block_height b ≡ some h
    → h < locktime_threshold
    → locktime_of b now cache (some locktime_threshold) ≡ ok false
unfolding is_locktime_satisfied
threshold_stuck b now cache h e lt = ground arith
