-- ===== src/Tests/LeaseRuns.antt =====
-- pkg/lib/dhcp/lease_loop.go on short leases and on the infinite one.
use sandal.Prelude.{◌≡◌, refl, true, [], ◌∷◌, arith, List}
use sandal.Dhcp.Lease.{
  LeaseTimes, is_negative, defaults_for, retry_backoff, at_least_100ms, at_most_10s, expired,
  cancelled, renew, rebind, release, rebinding, Loop, schedule, start, Event, leased, failed, done,
  stop, retry, answer, sleep, round_in, round, rounds,
}
use sandal.Dhcp.LeaseOrder.{
  IsOrdered, leases, failures, defaults_for-overflow, rounds-start-IsOrdered,
  rounds-failures-expired,
}

abbrev short : LeaseTimes
short = record { t1 = 50_000_000; t2 = 200_000_000; valid = 500_000_000 }

abbrev infinite : LeaseTimes
infinite = record { t1 = 0; t2 = 0; valid = 4_294_967_295_000_000_000 }

abbrev script : List Event
script =
    failed 0 0
    ∷ leased 10_000_000 short
    ∷ failed 0 5
    ∷ failed 150_000_000 0
    ∷ failed 0 0
    ∷ failed 1_000_000 0
    ∷ done 7
    ∷ []

-- A renewed lease, then an error until T2, an error of the Rebind, and the end of the context.
runs :
    ((rounds script (start 0 short)).phase ≡ cancelled)
    × ((rounds script (start 0 short)).calls
        ≡ release 361_000_012
          ∷ rebind 361_000_005 260_000_000 560_000_000
          ∷ rebind 260_000_005 260_000_000 560_000_000
          ∷ renew 110_000_005 110_000_000 260_000_000
          ∷ renew 50_000_000 50_000_000 200_000_000
          ∷ [])
unfolding rounds round round_in answer retry retry_backoff at_least_100ms at_most_10s sleep stop
    start schedule defaults_for
runs = (refl, refl)

-- Two calls of the loop's phase 3 that fail at once.
abbrev late_loop : Loop
late_loop = record {
  now = 400_000_000;
  times = short;
  t1_at = 50_000_000;
  t2_at = 200_000_000;
  valid_at = 500_000_000;
  phase = rebinding;
  calls = [];
}

rounds-failures-expired_example :
    (rounds (failures ((0, 0) ∷ (0, 0) ∷ [])) late_loop).phase ≡ expired
rounds-failures-expired_example =
    rounds-failures-expired ((0, 0) ∷ []) 0 0 late_loop refl (omega arith)

rounds-start-IsOrdered_example :
    IsOrdered (leases script (start 0 short) ((0, short) ∷ [])) (rounds script (start 0 short))
rounds-start-IsOrdered_example = rounds-start-IsOrdered script 0 short

defaults_for-overflow_example : is_negative (defaults_for infinite).t2 ≡ true
defaults_for-overflow_example = defaults_for-overflow infinite refl (omega arith) (omega arith)
