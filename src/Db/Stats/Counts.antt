-- ===== src/Db/Stats/Counts.antt =====
-- The statistics against the rows that they count.
use umbrel_apps.Prelude.{
  ℕ, ◌+◌, String, Bool, true, false, ◌&&◌, ◌||◌, List, [], ◌∷◌, ◌≡◌, refl, sym, ap, ◌∙◌, inl, inr,
  Bool-cases, not_both, str_eq, eq_iff, filter, length, arith, if◌then◌else◌,
}
use umbrel_apps.Prelude.Float.{F64}
use umbrel_apps.Db.Models.{
  TxStatus, pending, scheduled, broadcast, confirmed, expired, failed, as_str, is_status, status_eq,
  Row, PoolStats,
}
use umbrel_apps.Db.Table.{Table}
use umbrel_apps.Db.Stats.{
  Group, count_row, group_rows, no_stats, set_count, add_group, stats_loop, get_pool_stats,
}

total : List Group → ℕ
total [] = 0
total ((status, count, value) ∷ gs) = count + total gs

total-count_row :
    (add : F64 → F64 → F64) (r : Row) (gs : List Group) → total (count_row add r gs) ≡ total gs + 1
unfolding count_row total
total-count_row add r [] = omega arith
total-count_row add r (g ∷ gs) = ground (arith, total-count_row add r gs)

stats_loop-total :
    (add : F64 → F64 → F64) (gs : List Group) (s : PoolStats)
    → (stats_loop add gs s).total_transactions ≡ s.total_transactions + total gs
unfolding stats_loop add_group set_count total
stats_loop-total add [] s = omega arith
stats_loop-total add ((status, count, value) ∷ gs) s =
    ground (arith, stats_loop-total add gs (add_group add (status, count, value) s))

total-group_rows :
    (add : F64 → F64 → F64) (network : String) (t : Table)
    → total (group_rows add network t) ≡ length (filter (λ r. str_eq r.network network) t)
unfolding group_rows total
total-group_rows add network [] = omega arith
total-group_rows add network (r ∷ t) =
    ground (arith, total-group_rows add network t, total-count_row add r (group_rows add network t))

-- The rows counted in the groups of a status, and the groups of a status.
count_of : TxStatus → List Group → ℕ
count_of st [] = 0
count_of st ((status, count, value) ∷ gs) =
    (if is_status status st then count else 0) + count_of st gs

occurs : TxStatus → List Group → Bool
occurs st [] = false
occurs st ((status, count, value) ∷ gs) = is_status status st || occurs st gs

NoRepeat : List Group → Type 0
NoRepeat [] = Unit
NoRepeat ((status, count, value) ∷ gs) = (occurs status gs ≡ false) × NoRepeat gs

count_of-count_row :
    (add : F64 → F64 → F64) (st : TxStatus) (r : Row) (gs : List Group)
    → count_of st (count_row add r gs) ≡ (if is_status r.status st then 1 else 0) + count_of st gs
unfolding count_row count_of
count_of-count_row add st r [] = ground arith
count_of-count_row add st r ((status, count, value) ∷ gs) =
    ground (arith, count_of-count_row add st r gs, status_eq status r.status)

or_twice : (a b c : Bool) → a ≡ b → (a || c) ≡ (b || (a || c))
or_twice a b c h = ground arith

or_swap : (a b c d : Bool) → d ≡ (b || c) → (a || d) ≡ (b || (a || c))
or_swap a b c d h = ground arith

occurs-count_row :
    (add : F64 → F64 → F64) (st : TxStatus) (r : Row) (gs : List Group)
    → occurs st (count_row add r gs) ≡ (is_status r.status st || occurs st gs)
unfolding count_row occurs
occurs-count_row add st r [] = refl
occurs-count_row add st r ((status, count, value) ∷ gs) =
    elim (Bool-cases (is_status status r.status)) [
      | inl y ↦ rw y (or_twice _ _ _ (ap (λ u. is_status u st) (status_eq status r.status y)))
      | inr n ↦ rw n (or_swap _ _ _ _ (occurs-count_row add st r gs))
    ]

is_status-sym : (a b : TxStatus) → is_status a b ≡ is_status b a
is_status-sym a b = ground (arith, eq_iff (as_str a) (as_str b), eq_iff (as_str b) (as_str a))

NoRepeat-count_row :
    (add : F64 → F64 → F64) (r : Row) (gs : List Group)
    → NoRepeat gs
    → NoRepeat (count_row add r gs)
unfolding count_row NoRepeat occurs
NoRepeat-count_row add r [] d = (refl, tt)
NoRepeat-count_row add r ((status, count, value) ∷ gs) d = ground (
  arith,
  NoRepeat-count_row add r gs d.1,
  occurs-count_row add status r gs,
  is_status-sym status r.status,
)

NoRepeat-group_rows :
    (add : F64 → F64 → F64) (network : String) (t : Table) → NoRepeat (group_rows add network t)
unfolding group_rows NoRepeat
NoRepeat-group_rows add network [] = tt
NoRepeat-group_rows add network (r ∷ t) = elim (Bool-cases (str_eq r.network network)) [
  | inl y ↦
      rw y (NoRepeat-count_row add r (group_rows add network t) (NoRepeat-group_rows add network t))
  | inr n ↦ rw n (NoRepeat-group_rows add network t)
]

count_of-group_rows :
    (add : F64 → F64 → F64) (network : String) (st : TxStatus) (t : Table)
    → count_of st (group_rows add network t)
      ≡ length (filter (λ r. str_eq r.network network && is_status r.status st) t)
unfolding group_rows count_of
count_of-group_rows add network st [] = refl
count_of-group_rows add network st (r ∷ t) = ground (
  arith,
  count_of-group_rows add network st t,
  count_of-count_row add st r (group_rows add network t),
)

-- The number that is given for a status; none is given for an expired one.
abbrev pub number_of : TxStatus → PoolStats → ℕ
number_of pending s = s.pending
number_of scheduled s = s.scheduled
number_of broadcast s = s.broadcast
number_of confirmed s = s.confirmed
number_of failed s = s.failed
number_of expired s = 0

one_status :
    (s : TxStatus) (P : TxStatus → Type 0)
    → P pending
    → P scheduled
    → P broadcast
    → P confirmed
    → P expired
    → P failed
    → P s
one_status pending P a b c d e f = a
one_status scheduled P a b c d e f = b
one_status broadcast P a b c d e f = c
one_status confirmed P a b c d e f = d
one_status expired P a b c d e f = e
one_status failed P a b c d e f = f

number_of-set_count :
    (st status : TxStatus) (count : ℕ) (s : PoolStats)
    → is_status st expired ≡ false
    → number_of st (set_count status count s)
      ≡ (if is_status status st then count else number_of st s)
unfolding set_count
number_of-set_count pending status count s h =
    one_status status
      (λ u.
        number_of pending (set_count u count s)
        ≡ (if is_status u pending then count else s.pending))
      refl refl refl refl refl refl
number_of-set_count scheduled status count s h =
    one_status status
      (λ u.
        number_of scheduled (set_count u count s)
        ≡ (if is_status u scheduled then count else s.scheduled))
      refl refl refl refl refl refl
number_of-set_count broadcast status count s h =
    one_status status
      (λ u.
        number_of broadcast (set_count u count s)
        ≡ (if is_status u broadcast then count else s.broadcast))
      refl refl refl refl refl refl
number_of-set_count confirmed status count s h =
    one_status status
      (λ u.
        number_of confirmed (set_count u count s)
        ≡ (if is_status u confirmed then count else s.confirmed))
      refl refl refl refl refl refl
number_of-set_count failed status count s h =
    one_status status
      (λ u.
        number_of failed (set_count u count s) ≡ (if is_status u failed then count else s.failed))
      refl refl refl refl refl refl
number_of-set_count expired status count s h = elim (not_both refl h) [ ]

number_of-total :
    (st : TxStatus) (s : PoolStats) (n : ℕ) (v : F64)
    → number_of st (record s { total_transactions = n; total_value_btc = v }) ≡ number_of st s
number_of-total st s n v =
    one_status st
      (λ u. number_of u (record s { total_transactions = n; total_value_btc = v }) ≡ number_of u s)
      refl refl refl refl refl refl

number_of-add_group :
    (add : F64 → F64 → F64) (st : TxStatus) (g : Group) (s : PoolStats)
    → is_status st expired ≡ false
    → number_of st (add_group add g s) ≡ (if is_status g.0 st then g.1 else number_of st s)
unfolding add_group
number_of-add_group add st (status, count, value) s h =
    number_of-set_count st status count _ h
    ∙ ap (λ n. if is_status status st then count else n) (number_of-total st s _ _)

absent : (st : TxStatus) (gs : List Group) → occurs st gs ≡ false → count_of st gs ≡ 0
unfolding occurs count_of
absent st [] h = refl
absent st ((status, count, value) ∷ gs) h = ground (arith, absent st gs)

one_group :
    (same later : Bool) (count counted x n : ℕ)
    → (same ≡ true → later ≡ false)
    → (later ≡ false → counted ≡ 0)
    → x ≡ (if same then count else n)
    → (if later then counted else x)
      ≡ (if same || later then (if same then count else 0) + counted else n)
one_group same later count counted x n f g h = ground arith

stats_loop-number_of :
    (add : F64 → F64 → F64) (st : TxStatus) (gs : List Group) (s : PoolStats)
    → is_status st expired ≡ false
    → NoRepeat gs
    → number_of st (stats_loop add gs s) ≡ (if occurs st gs then count_of st gs else number_of st s)
unfolding stats_loop NoRepeat occurs count_of
stats_loop-number_of add st [] s h d = refl
stats_loop-number_of add st ((status, count, value) ∷ gs) s h d =
    stats_loop-number_of add st gs (add_group add (status, count, value) s) h d.1
    ∙ one_group (is_status status st) (occurs st gs) count (count_of st gs) _ (number_of st s)
        (λ e. sym (ap (λ u. occurs u gs) (status_eq status st e)) ∙ d.0) (absent st gs)
        (number_of-add_group add st (status, count, value) s h)

no_number : (st : TxStatus) → number_of st no_stats ≡ 0
no_number st = one_status st (λ u. number_of u no_stats ≡ 0) refl refl refl refl refl refl

counted_or_none :
    (st : TxStatus) (gs : List Group)
    → (if occurs st gs then count_of st gs else number_of st no_stats) ≡ count_of st gs
counted_or_none st gs = elim (Bool-cases (occurs st gs)) [
  | inl y ↦ rw y refl
  | inr n ↦ rw n (no_number st ∙ sym (absent st gs n))
]

-- The statistics count every transaction of the network, and under each status but `expired`, for
-- which they have no number, exactly the transactions of the network in it.
pub get_pool_stats-counts :
    (add : F64 → F64 → F64) (network : String) (t : Table)
    → ((get_pool_stats add network t).total_transactions
        ≡ length (filter (λ r. str_eq r.network network) t))
      × ((st : TxStatus)
          → is_status st expired ≡ false
          → number_of st (get_pool_stats add network t)
            ≡ length (filter (λ r. str_eq r.network network && is_status r.status st) t))
unfolding get_pool_stats
get_pool_stats-counts add network t = (
  stats_loop-total add (group_rows add network t) no_stats
      ∙ omega (arith, total-group_rows add network t),
  λ st h.
      stats_loop-number_of add st (group_rows add network t) no_stats h
        (NoRepeat-group_rows add network t)
      ∙ counted_or_none st _
      ∙ count_of-group_rows add network st t,
)
