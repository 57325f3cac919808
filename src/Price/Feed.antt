-- ===== src/Price/Feed.antt =====
-- What the price feed hands out, and what its cache keeps.
use umbrel_apps.Prelude.{
  All, leb, if◌then◌else◌, ◌++◌, ◌≤◌, ◌<◌, ◌-◌, String, Option, none, some, true, false, List, [],
  ◌∷◌, ◌≡◌, ◌≢◌, sym, ap, subst, ◌∙◌, ◌⊎◌, inl, inr, Result, ok, err, is_ok, arith, length,
  Result-cases, Option-cases,
}
use umbrel_apps.Pool.Backend.{Clock}
use umbrel_apps.Price.{
  fresh_snapshot, Prices, PriceSnapshot, CachedEntry, PriceFeed, Providers, accept, fetch_fresh,
  try_coinmarketcap, lkg_snapshot, lkg_max_age_secs, age_secs, fresh_entry, fetch_snapshot,
  cache_ttl,
}

-- The answers in the order in which they are asked for.
abbrev pub answers : Providers → List (String × Result Prices)
answers p =
    ("kraken", p.kraken)
    ∷ ("coingecko", p.coingecko)
    ∷ ("bitstamp", p.bitstamp)
    ∷ (elim p.coinmarketcap [ none ↦ [] | some a ↦ ("coinmarketcap", a) ∷ [] ])

-- The prices of an answer that has two or more.
abbrev pub two_or_more : Result Prices → Option Prices
two_or_more (err e) = none
two_or_more (ok prices) = if leb 2 (length prices) then some prices else none

-- The first answer with two prices or more.
abbrev pub first_accepted : List (String × Result Prices) → Option (String × Prices)
first_accepted [] = none
first_accepted ((name, a) ∷ rest) = elim (two_or_more a) [
  | some prices ↦ some (name, prices)
  | none ↦ first_accepted rest
]

abbrev pub ok_of : Result PriceSnapshot → Option PriceSnapshot
ok_of (ok s) = some s
ok_of (err e) = none

abbrev pub snapshot_of : Clock → Option (String × Prices) → Option PriceSnapshot
snapshot_of now none = none
snapshot_of now (some (name, prices)) = some (fresh_snapshot prices name now)

pub fetch_fresh-first_accepted :
    (p : Providers) (now : Clock)
    → ok_of (fetch_fresh p now) ≡ snapshot_of now (first_accepted (answers p))
unfolding fetch_fresh try_coinmarketcap accept
fetch_fresh-first_accepted p now = ground arith

two_or_more-length :
    (a : Result Prices) (prices : Prices) → two_or_more a ≡ some prices → 2 ≤ length prices
two_or_more-length a prices h = ground arith

two_or_more-ok : (a : Result Prices) (prices : Prices) → two_or_more a ≡ some prices → a ≡ ok prices
two_or_more-ok a prices h = ground arith

-- An answer that is not used: an error, or fewer than two prices.
abbrev pub IsUnusable : String × Result Prices → Type 0
IsUnusable (name, a) = (prices : Prices) → a ≡ ok prices → length prices < 2

-- An answer of two prices or more, with nothing usable before it.
abbrev pub IsFirstUsable : List (String × Result Prices) → String → Prices → Type 0
IsFirstUsable xs name prices =
    (before after : List (String × Result Prices)) × (xs ≡ before ++ ((name, ok prices) ∷ after))
    × All IsUnusable before
    × (2 ≤ length prices)

two_or_more-IsUnusable :
    (name : String) (a : Result Prices) → two_or_more a ≡ none → IsUnusable (name, a)
two_or_more-IsUnusable name a h prices e = ground arith

first_accepted-IsFirstUsable :
    (xs : List (String × Result Prices)) (name : String) (prices : Prices)
    → first_accepted xs ≡ some (name, prices)
    → IsFirstUsable xs name prices
first_accepted-IsFirstUsable [] name prices h = ground arith
first_accepted-IsFirstUsable ((n, a) ∷ rest) name prices h = elim (Option-cases (two_or_more a)) [
  | inr (ps, e) ↦
      (let same : (n ≡ name) × (ps ≡ prices) = ground arith in
        (
          [],
          rest,
          ap (λ u. u ∷ rest)
              (rw (sym same.0, sym same.1) (ap (λ r. (n, r)) (two_or_more-ok a ps e))),
          tt,
          subst (λ l. 2 ≤ length l) same.1 (two_or_more-length a ps e),
        ))
  | inl e ↦
      (let (before, after, split, all, two) =
          first_accepted-IsFirstUsable rest name prices (ground arith) in
        (
          (n, a) ∷ before,
          after,
          ap (λ l. (n, a) ∷ l) split,
          (two_or_more-IsUnusable n a e, all),
          two,
        ))
]

first_accepted-none :
    (xs : List (String × Result Prices)) → first_accepted xs ≡ none → All IsUnusable xs
first_accepted-none [] h = tt
first_accepted-none ((n, a) ∷ rest) h = elim (Option-cases (two_or_more a)) [
  | inr (ps, e) ↦ ground arith
  | inl e ↦ (two_or_more-IsUnusable n a e, first_accepted-none rest (ground arith))
]

-- What a fetch comes to: the first usable answer, or an error where none is usable.
abbrev pub IsOutcome : Providers → Clock → Result PriceSnapshot → Type 0
IsOutcome p now (ok s) =
    (name : String) × (prices : Prices) × IsFirstUsable (answers p) name prices
    × (s ≡ record { prices = prices; source = name; stale = false; fetched_at = now.utc })
IsOutcome p now (err e) = All IsUnusable (answers p)

outcome :
    (p : Providers) (now : Clock) (a : Result PriceSnapshot)
    → ok_of a ≡ snapshot_of now (first_accepted (answers p))
    → IsOutcome p now a
outcome p now (err e) h = first_accepted-none (answers p) (ground arith)
outcome p now (ok s) h = elim (Option-cases (first_accepted (answers p))) [
  | inl e ↦ elim (none_not_some (subst (λ o. some s ≡ snapshot_of now o) e h)) [ ]
  | inr ((name, prices), e) ↦ (
    name,
    prices,
    first_accepted-IsFirstUsable (answers p) name prices e,
    some_inj (subst (λ o. some s ≡ snapshot_of now o) e h),
  )
]
  where
    none_not_some : ¬ Path (Option PriceSnapshot) (some s) none
    none_not_some e = ground arith

    some_inj : {x y : PriceSnapshot} → some x ≡ some y → x ≡ y
    some_inj e = ground arith

-- A fetch asks kraken, coingecko, bitstamp and, if it is configured, coinmarketcap: it returns the first
-- answer with two prices or more, under the provider's name and the present time, where all before it
-- are errors or have fewer; and it fails only where every answer is so.
pub fetch_fresh-IsOutcome : (p : Providers) (now : Clock) → IsOutcome p now (fetch_fresh p now)
fetch_fresh-IsOutcome p now = outcome p now (fetch_fresh p now) (fetch_fresh-first_accepted p now)

-- A snapshot that was fetched has two prices or more.
abbrev IsGood : PriceSnapshot → Type 0
IsGood s = (s.stale ≡ false) × (2 ≤ length s.prices)

abbrev IsGoodEntry : Option CachedEntry → Type 0
IsGoodEntry none = Unit
IsGoodEntry (some e) = IsGood e.snapshot

abbrev IsGoodLkg : Option PriceSnapshot → Type 0
IsGoodLkg none = Unit
IsGoodLkg (some s) = IsGood s

abbrev pub IsGoodFeed : PriceFeed → Type 0
IsGoodFeed feed = IsGoodEntry feed.cache × IsGoodLkg feed.lkg

first_accepted-length :
    (as_given : List (String × Result Prices)) (name : String) (prices : Prices)
    → first_accepted as_given ≡ some (name, prices)
    → 2 ≤ length prices
first_accepted-length [] name prices h = ground arith
first_accepted-length ((n, a) ∷ rest) name prices h =
    ground (arith, two_or_more-length a prices, first_accepted-length rest name prices)

pub fetch_fresh-IsGood :
    (p : Providers) (now : Clock) (s : PriceSnapshot) → fetch_fresh p now ≡ ok s → IsGood s
fetch_fresh-IsGood p now s h =
    let e = sym (ap ok_of h) ∙ fetch_fresh-first_accepted p now in
    elim (Option-cases (first_accepted (answers p))) [
      | inl n ↦ ground arith
      | inr ((name, prices), f) ↦ ground (arith, first_accepted-length (answers p) name prices f)
    ]

-- What the feed keeps stays good, if it was: each snapshot in the cache or kept as the last good one was
-- fetched with two prices or more, and is never one that was handed out as stale.
pub fetch_snapshot-IsGoodFeed :
    (p : Providers) (now : Clock) (feed : PriceFeed)
    → IsGoodFeed feed
    → IsGoodFeed (fetch_snapshot p now feed).0
unfolding fetch_snapshot
fetch_snapshot-IsGoodFeed p now feed g = elim (Option-cases (fresh_entry now feed.cache)) [
  | inr (s, e) ↦ rw (e, fetch_snapshot) g
  | inl e ↦
      rw (e, fetch_snapshot)
        (elim (Result-cases (fetch_fresh p now)) [
          | inl (s, f) ↦
              rw (f, fetch_snapshot) (fetch_fresh-IsGood p now s f, fetch_fresh-IsGood p now s f)
          | inr (msg, f) ↦ rw (f, fetch_snapshot) g
        ])
]

-- Where a snapshot that is handed out comes from.
abbrev pub Source : Providers → Clock → PriceFeed → PriceSnapshot → Type 0
Source p now feed s =
    ((e : CachedEntry) × (feed.cache ≡ some e)
      × (now.instant - e.cached_at < cache_ttl)
      × (s ≡ e.snapshot))
    ⊎ (fetch_fresh p now ≡ ok s)
    ⊎ ((l : PriceSnapshot) × (feed.lkg ≡ some l)
        × (age_secs now l ≤ lkg_max_age_secs)
        × (s ≡ record l { stale = true }))

-- A snapshot that is handed out is the cached one of less than a minute, one that is fetched now, or
-- the last good one of at most ten minutes, marked as stale.
pub fetch_snapshot-Source :
    (p : Providers) (now : Clock) (feed : PriceFeed) (s : PriceSnapshot)
    → (fetch_snapshot p now feed).1 ≡ ok s
    → Source p now feed s
unfolding fetch_snapshot lkg_snapshot
fetch_snapshot-Source p now feed s h = ground arith

-- With two prices from some provider, or a last good snapshot of ten minutes at most, there is an
-- answer.
pub fetch_snapshot-live :
    (p : Providers) (now : Clock) (feed : PriceFeed)
    → (first_accepted (answers p) ≢ none)
      ⊎ ((l : PriceSnapshot) × (feed.lkg ≡ some l) × (age_secs now l ≤ lkg_max_age_secs))
    → is_ok (fetch_snapshot p now feed).1 ≡ true
unfolding fetch_snapshot lkg_snapshot
fetch_snapshot-live p now feed h = ground (arith, fetch_fresh-first_accepted p now)
