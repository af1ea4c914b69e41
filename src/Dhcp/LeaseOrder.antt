-- ===== src/Dhcp/LeaseOrder.antt =====
-- The order of the calls that the DHCPv6 lease loop (pkg/lib/dhcp/lease_loop.go) makes.
use sandal.Prelude.{
  ◌≡◌, refl, inl, inr, ◌⊎◌, ap, ◌∙◌, ℕ, ◌+◌, ◌-◌, ◌*◌, ◌≤◌, ◌<◌, true, if◌then◌else◌, List, [], ◌∷◌,
  ltb, ltb→lt, length, ◌*◌, Bool-cases, arith, All,
}
use sandal.Dhcp.Lease.{
  is_negative, LeaseTimes, defaults_for, retry_backoff, Phase, asleep, renewing, rebinding, expired,
  cancelled, Call, renew, rebind, release, Loop, schedule, start, Event, leased, failed,
  failed_done, done, stop, retry, answer, sleep, round_in, round, rounds,
}
use sandal.Dhcp.LeaseDue.{
  Held, schedule-IsDue, IsCurrent, IsCurrent-later, current-HadT1T2, current-HadT2End, IsTimely,
  IsTimely-more,
}

-- The pause between two tries is from 0.1 to 10 seconds.
retry_backoff-bounds :
    (t1 t2 : ℕ) → (100_000_000 ≤ retry_backoff t1 t2) × (retry_backoff t1 t2 ≤ 10_000_000_000)
unfolding retry_backoff
retry_backoff-bounds t1 t2 = ground arith

-- Of a lifetime from 2^61 to 2^62 nanoseconds and no T2, as the infinite lifetime is, the time to
-- Rebind is negative: the product with 4 overflows.
pub defaults_for-overflow :
    (times : LeaseTimes)
    → times.t2 ≡ 0
    → 2305843009213693952 ≤ times.valid
    → times.valid + 1 < 4611686018427387904
    → is_negative (defaults_for times).t2 ≡ true
unfolding defaults_for
defaults_for-overflow times z l u = ground arith

abbrev releases : List Call → ℕ
releases [] = 0
releases (release _ ∷ calls) = releases calls + 1
releases (_ ∷ calls) = releases calls

-- What time it is in a phase, and how often Release was called.
abbrev Reached : Phase → Loop → Type 0
Reached asleep l = releases l.calls ≡ 0
Reached renewing l = (l.t1_at ≤ l.now) × (releases l.calls ≡ 0)
Reached rebinding l = (l.t2_at ≤ l.now) × (releases l.calls ≡ 0)
Reached expired l = (l.valid_at ≤ l.now) × (releases l.calls ≡ 1)
Reached cancelled l = releases l.calls ≡ 1

-- The leases that the loop has got, from the last to the first: those that a call of Renew before
-- T2 or of Rebind before the lifetime's end gave.
abbrev answered : Event → ℕ → List Held → List Held
answered (leased took lease) now hs = (now + took, lease) ∷ hs
answered (failed took late) now hs = hs
answered (failed_done took waited) now hs = hs
answered (done took) now hs = hs

abbrev gained : Phase → Event → Loop → List Held → List Held
gained renewing e l hs = if ltb l.now l.t2_at then answered e l.now hs else hs
gained rebinding e l hs = if ltb l.now l.valid_at then answered e l.now hs else hs
gained asleep e l hs = hs
gained expired e l hs = hs
gained cancelled e l hs = hs

abbrev pub leases : List Event → Loop → List Held → List Held
leases [] l hs = hs
leases (e ∷ es) l hs = leases es (round e l) (gained l.phase e l hs)

pub record IsOrdered (hs : List Held) (l : Loop) : Type 0 where
  pub timely : All (IsTimely hs) l.calls
  pub reached : Reached l.phase l
  pub current : IsCurrent hs l.now l.t1_at l.t2_at l.valid_at

retry-IsOrdered :
    (deadline : ℕ) (hs : List Held) (l waited : Loop)
    → IsOrdered hs l
    → IsOrdered hs waited
    → IsOrdered hs (retry deadline l waited)
unfolding retry
retry-IsOrdered deadline hs l waited h k = elim (Bool-cases (ltb l.now deadline)) [
  | inl e ↦ rw e k
  | inr e ↦ rw e h
]

-- The same loop at a later time.
abbrev Later : List Held → Loop → ℕ → Type 0
Later hs l new = IsCurrent hs new l.t1_at l.t2_at l.valid_at

IsCurrent-add :
    (hs : List Held) (l : Loop) (d : ℕ)
    → IsCurrent hs l.now l.t1_at l.t2_at l.valid_at
    → Later hs l (l.now + d)
IsCurrent-add hs l d c =
    IsCurrent-later hs l.now (l.now + d) l.t1_at l.t2_at l.valid_at (omega arith) c

answer-IsOrdered :
    (deadline : ℕ) (e : Event) (hs : List Held) (l : Loop)
    → All (IsTimely hs) l.calls
    → releases l.calls ≡ 0
    → IsCurrent hs l.now l.t1_at l.t2_at l.valid_at
    → ((now : ℕ) → l.now ≤ now → Reached l.phase (record l { now = now }))
    → IsOrdered (answered e l.now hs) (answer deadline e l)
unfolding answer stop
answer-IsOrdered deadline (leased took lease) hs l h r c k =
    let x : Loop = record l { now = l.now + took } in
    record {
      timely = unfold schedule in IsTimely-more (l.now + took, lease) hs l.calls h;
      reached = unfold schedule in r;
      current = (unfold schedule in omega arith, schedule-IsDue lease x);
    }
answer-IsOrdered deadline (done took) hs l h r c k = record {
  timely = (tt, h);
  reached = omega (arith, r);
  current = IsCurrent-add hs l took c;
}
answer-IsOrdered deadline (failed took late) hs l h r c k =
    let pause : ℕ = retry_backoff l.times.t1 l.times.t2 in
    retry-IsOrdered deadline hs (record l { now = l.now + took }) _
      (record {
        timely = h;
        reached = k (l.now + took) (omega arith);
        current = IsCurrent-add hs l took c;
      })
      (record {
        timely = h;
        reached = k (l.now + took + pause + late) (omega arith);
        current =
            IsCurrent-later hs l.now (l.now + took + pause + late) l.t1_at l.t2_at l.valid_at
              (omega arith) c;
      })
answer-IsOrdered deadline (failed_done took waited) hs l h r c k =
    retry-IsOrdered deadline hs (record l { now = l.now + took }) _
      (record {
        timely = h;
        reached = k (l.now + took) (omega arith);
        current = IsCurrent-add hs l took c;
      })
      (record {
        timely = (tt, h);
        reached = omega (arith, r);
        current =
            IsCurrent-later hs l.now (l.now + took + waited) l.t1_at l.t2_at l.valid_at
              (omega arith) c;
      })

sleep-IsOrdered :
    (e : Event) (hs : List Held) (l : Loop)
    → All (IsTimely hs) l.calls
    → releases l.calls ≡ 0
    → IsCurrent hs l.now l.t1_at l.t2_at l.valid_at
    → IsOrdered hs (sleep e l)
unfolding sleep stop
sleep-IsOrdered (leased took lease) hs l h r c = record {
  timely = h;
  reached = (omega arith, r);
  current = IsCurrent-add hs l (l.t1_at - l.now) c;
}
sleep-IsOrdered (failed took late) hs l h r c = record {
  timely = h;
  reached = (omega arith, r);
  current =
      IsCurrent-later hs l.now (l.now + (l.t1_at - l.now) + late) l.t1_at l.t2_at l.valid_at
        (omega arith) c;
}
sleep-IsOrdered (failed_done took waited) hs l h r c = record {
  timely = h;
  reached = (omega arith, r);
  current = IsCurrent-add hs l (l.t1_at - l.now) c;
}
sleep-IsOrdered (done took) hs l h r c = elim (Bool-cases (ltb l.now l.t1_at)) [
  | inl e ↦
      rw e (record {
        timely = (tt, h);
        reached = omega (arith, r);
        current = IsCurrent-add hs l took c;
      })
  | inr e ↦ rw e (record { timely = h; reached = (ground arith, r); current = c })
]

round_in-IsOrdered :
    (phase : Phase) (e : Event) (hs : List Held) (l : Loop)
    → l.phase ≡ phase
    → All (IsTimely hs) l.calls
    → Reached phase l
    → IsCurrent hs l.now l.t1_at l.t2_at l.valid_at
    → IsOrdered (gained phase e l hs) (round_in phase e l)
unfolding round_in stop
round_in-IsOrdered asleep e hs l p h r k = sleep-IsOrdered e hs l h r k
round_in-IsOrdered renewing e hs l p h r k = elim (Bool-cases (ltb l.now l.t2_at)) [
  | inl c ↦ rw c (
      answer-IsOrdered l.t2_at e hs (record l { calls = renew l.now l.t1_at l.t2_at ∷ l.calls })
        ((r.0, ltb→lt l.now l.t2_at c, current-HadT1T2 hs l.now l.t1_at l.t2_at l.valid_at k), h)
        r.1 k (λ now m. rw p (omega (arith, r.0), r.1)))
  | inr c ↦ rw c (record { timely = h; reached = (ground arith, r.1); current = k })
]
round_in-IsOrdered rebinding e hs l p h r k = elim (Bool-cases (ltb l.now l.valid_at)) [
  | inl c ↦ rw c (
      answer-IsOrdered l.valid_at e hs
        (record l { calls = rebind l.now l.t2_at l.valid_at ∷ l.calls })
        (
          (r.0, ltb→lt l.now l.valid_at c, current-HadT2End hs l.now l.t1_at l.t2_at l.valid_at k),
          h,
        )
        r.1 k (λ now m. rw p (omega (arith, r.0), r.1)))
  | inr c ↦
      rw c (record { timely = (tt, h); reached = (ground arith, omega (arith, r.1)); current = k })
]
round_in-IsOrdered expired e hs l p h r k = record { timely = h; reached = rw p r; current = k }
round_in-IsOrdered cancelled e hs l p h r k = record { timely = h; reached = rw p r; current = k }

rounds-IsOrdered :
    (es : List Event) (hs : List Held) (l : Loop)
    → IsOrdered hs l
    → IsOrdered (leases es l hs) (rounds es l)
unfolding rounds round
rounds-IsOrdered [] hs l h = h
rounds-IsOrdered (e ∷ es) hs l h =
    rounds-IsOrdered es (gained l.phase e l hs) _
      (round_in-IsOrdered l.phase e hs l refl h.timely h.reached h.current)

-- Whatever the client answers and whenever the context ends, the loop's deadlines are those of the
-- latest lease, counted from when it came. Every Renew begins between T1 and T2 and every Rebind
-- between T2 and the end of the lifetime, of a lease that had come by then; Release is called once,
-- when the loop ends, and not before; and the loop that ends as expired is past the lifetime. T1 and
-- T2 are the lease's own if they are positive, and a half and four fifths of the lifetime if they
-- are 0 and that is below 2^61; a lifetime of 0 is a day.
pub rounds-start-IsOrdered :
    (es : List Event) (now : ℕ) (initial : LeaseTimes)
    → IsOrdered
        (leases es (start now initial) ((now, initial) ∷ []))
        (rounds es (start now initial))
unfolding start
rounds-start-IsOrdered es now initial =
    let l : Loop = record {
      now = now;
      times = initial;
      t1_at = 0;
      t2_at = 0;
      valid_at = 0;
      phase = asleep;
      calls = [];
    } in
    rounds-IsOrdered es ((now, initial) ∷ []) _ (record {
      timely = unfold schedule in tt;
      reached = unfold schedule in refl;
      current = (unfold schedule in omega arith, schedule-IsDue initial l);
    })

-- Calls that all fail, each after a time and with a lateness of its retry.
abbrev pub failures : List (ℕ × ℕ) → List Event
failures [] = []
failures ((took, late) ∷ rest) = failed took late ∷ failures rest

rounds_expired : (es : List Event) (l : Loop) → l.phase ≡ expired → (rounds es l).phase ≡ expired
unfolding rounds round round_in
rounds_expired [] l p = p
rounds_expired (e ∷ es) l p = rounds_expired es _ (round_in_expired e l p)
  where
    round_in_expired :
        (f : Event) (k : Loop) → k.phase ≡ expired → (round_in k.phase f k).phase ≡ expired
    round_in_expired f k q = ap (λ x. (round_in x f k).phase) q ∙ q

-- A call of phase 3 that fails: the lifetime was over, or is now, or a tenth of a second passed.
record IsCloser (l k : Loop) : Type 0 where
  still : k.phase ≡ rebinding
  same_end : k.valid_at ≡ l.valid_at
  closer : (k.valid_at ≤ k.now) ⊎ (l.now + 100_000_000 ≤ k.now)

round_in_failed :
    (took late : ℕ) (l : Loop)
    → l.phase ≡ rebinding
    → ((round_in rebinding (failed took late) l).phase ≡ expired)
      ⊎ ((l.now < l.valid_at) × IsCloser l (round_in rebinding (failed took late) l))
unfolding round_in stop answer retry
round_in_failed took late l p = elim (Bool-cases (ltb l.now l.valid_at)) [
  | inr c ↦ rw c (inl refl)
  | inl c ↦ elim (Bool-cases (ltb (l.now + took) l.valid_at)) [
    | inl d ↦
        rw (c, d)
          (inr (
            ltb→lt l.now l.valid_at c,
            record {
              still = p;
              same_end = refl;
              closer = inr (omega (arith, (retry_backoff-bounds l.times.t1 l.times.t2).0));
            },
          ))
    | inr d ↦
        rw (c, d)
          (inr (
            ltb→lt l.now l.valid_at c,
            record { still = p; same_end = refl; closer = inl (ground arith) },
          ))
  ]
]

-- A loop in phase 3 whose calls all fail ends as expired, after a round for each tenth of a second
-- that the lifetime has left, and one more.
pub rounds-failures-expired :
    (ts : List (ℕ × ℕ)) (took late : ℕ) (l : Loop)
    → l.phase ≡ rebinding
    → l.valid_at ≤ l.now + length ts * 100_000_000
    → (rounds (failures ((took, late) ∷ ts)) l).phase ≡ expired
unfolding rounds round
rounds-failures-expired [] took late l p h = elim (round_in_failed took late l p) [
  | inl e ↦ ap (λ x. (round_in x (failed took late) l).phase) p ∙ e
  | inr (b, k) ↦ absurd (omega (arith, b, h))
]
rounds-failures-expired ((took', late') ∷ ts) took late l p h =
    let l1 : Loop = round_in rebinding (failed took late) l in
    let rest : (rounds (failures ((took', late') ∷ ts)) l1).phase ≡ expired =
      elim (round_in_failed took late l p) [
        | inl e ↦ rounds_expired (failures ((took', late') ∷ ts)) l1 e
        | inr (b, k) ↦
            rounds-failures-expired ts took' late' l1 k.still
              (elim k.closer [ inl c ↦ omega (arith, c) | inr c ↦ omega (arith, c, k.same_end, h) ])
      ] in
    ap (λ x. (rounds (failures ((took', late') ∷ ts)) (round_in x (failed took late) l)).phase) p
    ∙ rest
