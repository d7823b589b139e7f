-- ===== src/Worker/Rate.antt =====
-- The rate counter of apps/worker/src/main.ts (`accountRateAllowed`) against what it stands for: a number
-- for each account and minute.
use tool_messager.Prelude.{
  ==_self, Bool, Bool-cases, List, Option, Option-cases, Result, [], any, any-find_first, arith,
  false, find_first, find_first-append_found, find_first-append_none, if◌then◌else◌, inl, inr, leb,
  min, none, ok, refl, some, suc, true, update_where, upsert, zero, ℕ, ◌&&◌, ◌+◌, ◌-◌, ◌==◌, ◌∙◌,
  ◌∷◌, ◌≡◌,
}
use tool_messager.Store.{Db, RateCounter}
use tool_messager.Worker.{
  WorkerError, World, account_rate_allowed, count_up, is_counter, minute_of, rate_of,
}

abbrev count_of : Option RateCounter → ℕ
count_of o = elim o [ none ↦ 0 | some r ↦ r.count ]

other_counter :
    (account minute a m : ℕ) (rs : List RateCounter)
    → (a == account && m == minute) ≡ false
    → find_first (is_counter a m) (update_where (is_counter account minute) count_up rs)
      ≡ find_first (is_counter a m) rs
unfolding find_first update_where
other_counter account minute a m [] h = refl
other_counter account minute a m (r ∷ rs) h = elim (Bool-cases (is_counter a m r)) [
  | inl own ↦ ground (arith, h, own)
  | inr foreign ↦ elim (Bool-cases (is_counter account minute r)) [
    | inl counted_up ↦ ground (arith, h, foreign, counted_up, other_counter account minute a m rs)
    | inr kept ↦ ground (arith, h, foreign, kept, other_counter account minute a m rs)
  ]
]

-- The rate that the counters stand for.
abbrev pub Rates : Type 0
Rates = (account minute : ℕ) → ℕ

-- One more call of an account in a minute.
unfoldable pub bump : (account minute : ℕ) → Rates → Rates
bump account minute f a m = if a == account && m == minute then f a m + 1 else f a m

own_counter :
    (account minute : ℕ) (rs : List RateCounter)
    → any (is_counter account minute) rs ≡ true
    → count_of (
        find_first
          (is_counter account minute)
          (update_where (is_counter account minute) count_up rs))
      ≡ count_of (find_first (is_counter account minute) rs) + 1
unfolding find_first update_where
own_counter account minute [] h = absurd (cc)
own_counter account minute (r ∷ rs) h = elim (Bool-cases (is_counter account minute r)) [
  | inl own ↦ ground (arith, own)
  | inr foreign ↦ ground (arith, h, foreign, own_counter account minute rs)
]

abbrev first_count : (account minute : ℕ) → RateCounter
first_count account minute = record { account_id = account; minute = minute; count = 1 }

same_counter :
    (account minute a m : ℕ) → (a == account && m == minute) ≡ true → (a ≡ account) × (m ≡ minute)
same_counter account minute a m h = (ground arith, ground arith)

counted-upsert :
    (account minute a m : ℕ) (rs : List RateCounter)
    → count_of (
        find_first
          (is_counter a m)
          (upsert (is_counter account minute) count_up (first_count account minute) rs))
      ≡ (if a == account && m == minute
          then count_of (find_first (is_counter a m) rs) + 1
          else count_of (find_first (is_counter a m) rs))
unfolding upsert
counted-upsert account minute a m rs = elim (Bool-cases (any (is_counter account minute) rs)) [
  | inl there ↦ elim (Bool-cases (a == account && m == minute)) [
    | inl own ↦
        let (ea, em) = same_counter account minute a m own in
        rw (ea, em) ground (arith, there, own_counter account minute rs there)
    | inr other ↦ ground (arith, there, other, other_counter account minute a m rs other)
  ]
  | inr fresh ↦ elim (Option-cases (find_first (is_counter a m) rs)) [
    | inl unseen ↦ ground (
      arith,
      fresh,
      unseen,
      find_first-append_none (is_counter a m) rs (first_count account minute) unseen,
    )
    | inr (r, known) ↦ elim (Bool-cases (a == account && m == minute)) [
      | inl own ↦
          let (ea, em) = same_counter account minute a m own in
          absurd (ground (arith, fresh, known, ea, em, any-find_first (is_counter a m) rs))
      | inr other ↦ ground (
        arith,
        fresh,
        known,
        other,
        find_first-append_found (is_counter a m) rs (first_count account minute) known,
      )
    ]
  ]
]

-- `accountRateAllowed` implements a counter for each account and minute: it adds one to that of the
-- account's present minute and to no other, and allows the call exactly while the new count is within
-- the limit.
pub account_rate-refines :
    (w : World) (now account a m : ℕ) (db : Db)
    → ((account_rate_allowed w now account db).0
        ≡ ok (
            leb
              (bump account (minute_of now) (rate_of db) account (minute_of now))
              w.messages_per_minute))
      × (rate_of (account_rate_allowed w now account db).1 a m
          ≡ bump account (minute_of now) (rate_of db) a m)
unfolding account_rate_allowed bump rate_of
account_rate-refines w now account a m db = (
  ground (
    arith,
    counted-upsert account (minute_of now) account (minute_of now) db.rates,
    ==_self account,
    ==_self (minute_of now),
  ),
  counted-upsert account (minute_of now) a m db.rates,
)

bump_self :
    (account minute : ℕ) (f : Rates) → bump account minute f account minute ≡ f account minute + 1
unfolding bump
bump_self account minute f = ground (arith, ==_self account, ==_self minute)

abbrev allowed_now : Result WorkerError Bool → ℕ
allowed_now (ok true) = 1
allowed_now _ = 0

-- How many of `n` calls of an account, made one after another in the minute of `now`, are allowed.
pub allowed_calls : World → (now account n : ℕ) → Db → ℕ
allowed_calls w now account zero db = 0
allowed_calls w now account (suc n) db =
    allowed_now (account_rate_allowed w now account db).0
    + allowed_calls w now account n (account_rate_allowed w now account db).1

-- Of any number of calls of an account in a minute, as many are allowed as the limit still leaves, and
-- all of them if it leaves enough.
pub allowed_calls-min :
    (w : World) (now account n : ℕ) (db : Db)
    → allowed_calls w now account n db
      ≡ min n (w.messages_per_minute - rate_of db account (minute_of now))
unfolding allowed_calls
allowed_calls-min w now account zero db = omega arith
allowed_calls-min w now account (suc n) db =
    let (answer, grown) = account_rate-refines w now account account (minute_of now) db in
    let one_more : rate_of (account_rate_allowed w now account db).1 account (minute_of now)
        ≡ rate_of db account (minute_of now) + 1 =
      grown ∙ bump_self account (minute_of now) (rate_of db) in
    rw answer (
      ground (
        arith,
        bump_self account (minute_of now) (rate_of db),
        one_more,
        allowed_calls-min w now account n (account_rate_allowed w now account db).1,
      ))
