-- ===== src/Dhcp/Lease.antt =====
-- The DHCPv6 lease loop: pkg/lib/dhcp/lease_loop.go. A time.Duration is its 64-bit word, in
-- nanoseconds; an instant is in nanoseconds since the loop's start, and one before it is 0. The
-- client's calls and the timers are events, with the time that they took.
use sandal.Prelude.{
  ℕ, ◌+◌, ◌-◌, ◌*◌, ◌/◌, ◌%◌, Bool, ◌||◌, List, [], ◌∷◌, ltb, leb, ◌==◌, if◌then◌else◌,
}

abbrev two63 : ℕ
two63 = 9223372036854775808

abbrev two64 : ℕ
two64 = 18446744073709551616

abbrev pub is_negative : ℕ → Bool
is_negative d = leb two63 d

-- d / k, which rounds towards zero.
abbrev quotient : ℕ → ℕ → ℕ
quotient d k = if is_negative d then (two64 - (two64 - d) / k) % two64 else d / k

-- a - b
abbrev minus : ℕ → ℕ → ℕ
minus a b = (a + (two64 - b)) % two64

-- a < b
abbrev less : ℕ → ℕ → Bool
less a b = ltb ((a + two63) % two64) ((b + two63) % two64)

pub record LeaseTimes : Type 0 where
  pub t1 : ℕ
  pub t2 : ℕ
  pub valid : ℕ

abbrev unset : ℕ → Bool
unset d = is_negative d || d == 0

-- defaultsFor
unfoldable pub defaults_for : LeaseTimes → LeaseTimes
defaults_for times =
    let valid = if unset times.valid then 86_400_000_000_000 else times.valid in
    record {
      t1 = if unset times.t1 then quotient valid 2 else times.t1;
      t2 = if unset times.t2 then quotient (valid * 4 % two64) 5 else times.t2;
      valid = valid;
    }

unfoldable pub at_least_100ms : ℕ → ℕ
at_least_100ms d = if less d 100_000_000 then 100_000_000 else d

unfoldable pub at_most_10s : ℕ → ℕ
at_most_10s d = if less 10_000_000_000 d then 10_000_000_000 else d

-- retryBackoff
unfoldable pub retry_backoff : ℕ → ℕ → ℕ
unfolding at_least_100ms at_most_10s
retry_backoff t1 t2 = at_most_10s (at_least_100ms (quotient (minus t2 t1) 4))

-- now.Add(d)
abbrev add : ℕ → ℕ → ℕ
add now d = if is_negative d then now - (two64 - d) else now + d

-- Where the loop is: asleep until T1, before the test of phase 2 or of phase 3, or returned.
pub data Phase : Type 0 where
  asleep renewing rebinding expired cancelled : Phase

-- The calls of the client, each with when it begins, and the deadlines of the time: T1's and T2's
-- for a Renew, whose context ends at T2, and T2's and the lifetime's for a Rebind, whose context ends
-- with the lifetime.
pub data Call : Type 0 where
  renew rebind : ℕ → ℕ → ℕ → Call
  release : ℕ → Call

pub record Loop : Type 0 where
  pub now : ℕ
  pub times : LeaseTimes
  pub t1_at : ℕ
  pub t2_at : ℕ
  pub valid_at : ℕ
  pub phase : Phase
  pub calls : List Call

-- The deadlines that a lease sets.
unfoldable pub schedule : LeaseTimes → Loop → Loop
schedule lease l =
    let times = defaults_for lease in
    record l {
      times = times;
      t1_at = add l.now times.t1;
      t2_at = add l.now times.t2;
      valid_at = add l.now times.valid;
      phase = asleep;
    }

-- The start of Run.
unfoldable pub start : ℕ → LeaseTimes → Loop
unfolding schedule
start now initial = schedule initial (record {
  now = now;
  times = initial;
  t1_at = 0;
  t2_at = 0;
  valid_at = 0;
  phase = asleep;
  calls = [];
})

-- What ends a wait or a call: a lease that the call got after `took`; an error after `took` and then
-- the retry's timer, `late` beyond its time; an error and then, in the wait of `waited`, the end of the
-- loop's context; or the end of that context. A timer alone is an error's, without the call.
pub data Event : Type 0 where
  leased : ℕ → LeaseTimes → Event
  failed failed_done : ℕ → ℕ → Event
  done : ℕ → Event

-- The return of Run, with its deferred call of Release.
unfoldable pub stop : Phase → Loop → Loop
stop phase l = record l { phase = phase; calls = release l.now ∷ l.calls }

-- What follows an error of Renew or Rebind: the retry's wait, unless the time of the phase is over.
unfoldable pub retry : ℕ → Loop → Loop → Loop
retry deadline l waited = if ltb l.now deadline then waited else l

-- What follows a call of Renew or Rebind, whose phase ends at `deadline`.
unfoldable pub answer : ℕ → Event → Loop → Loop
answer deadline (leased took lease) l = schedule lease (record l { now = l.now + took })
answer deadline (done took) l = stop cancelled (record l { now = l.now + took })
answer deadline (failed took late) l =
    retry deadline (record l { now = l.now + took })
      (record l { now = l.now + took + retry_backoff l.times.t1 l.times.t2 + late })
answer deadline (failed_done took waited) l =
    retry deadline (record l { now = l.now + took })
      (stop cancelled (record l { now = l.now + took + waited }))

-- The select of phase 1, which a T1 that is over skips.
unfoldable pub sleep : Event → Loop → Loop
sleep (done took) l =
    if ltb l.now l.t1_at
    then stop cancelled (record l { now = l.now + took })
    else record l { phase = renewing }
sleep (failed _ late) l = record l { now = l.now + (l.t1_at - l.now) + late; phase = renewing }
sleep _ l = record l { now = l.now + (l.t1_at - l.now); phase = renewing }

-- A round of Run from one of its waits or tests to the next, on the event that ends it. The calls are
-- listed from the last to the first. A test that ends a phase passes over its event.
unfoldable pub round_in : Phase → Event → Loop → Loop
round_in asleep e l = sleep e l
round_in renewing e l =
    if ltb l.now l.t2_at
    then answer l.t2_at e (record l { calls = renew l.now l.t1_at l.t2_at ∷ l.calls })
    else record l { phase = rebinding }
round_in rebinding e l =
    if ltb l.now l.valid_at
    then answer l.valid_at e (record l { calls = rebind l.now l.t2_at l.valid_at ∷ l.calls })
    else stop expired l
round_in _ e l = l

unfoldable pub round : Event → Loop → Loop
round e l = round_in l.phase e l

unfoldable pub rounds : List Event → Loop → Loop
rounds [] l = l
rounds (e ∷ es) l = rounds es (round e l)
