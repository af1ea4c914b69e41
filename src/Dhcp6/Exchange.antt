-- ===== src/Dhcp6/Exchange.antt =====
-- The exchange of a DHCPv6 message for its answer: pkg/lib/dhcp/retransmit6.go. A round is one
-- transmission and what the socket gives until its deadline; the deadlines themselves (nextRT, which
-- is random) are what the events stand for.
use sandal.Prelude.{
  ℕ, suc, Bool, true, false, ◌&&◌, Option, none, some, List, [], ◌∷◌, leb, ltb, ◌==◌, if◌then◌else◌,
}
use sandal.Prelude.Words.{Bytes}
use sandal.Dhcp6.Options.{Options6}
use sandal.Dhcp6.Packet.{
  Packet6, Unmarshalled6, packet6, too_short6, no_fuel6, bad_options6, unmarshal6, set_elapsed,
}

-- What ReadFrom gives: a datagram, a timeout of its slice, another error, or any of these when the
-- context has ended, which is looked at first.
pub data Received : Type 0 where
  datagram : Bytes → Received
  slice_over broken ended : Received

pub record Round : Type 0 where
  -- time.Since(first), from the second transmission on
  pub elapsed : ℕ
  -- Whether the packet was sent before the context ended.
  pub sent : Bool
  pub heard : List Received
  -- Whether the context has ended at the deadline.
  pub over : Bool

pub data Answer : Type 0 where
  answered : Packet6 → Answer
  -- The context's error, a socket's error, the transmissions used up, the panic of setElapsed, and
  -- that no more events are given.
  context_ended socket_failed unanswered crashed waiting : Answer

abbrev pub same_id : Packet6 → Packet6 → Bool
same_id r p = r.id0 == p.id0 && (r.id1 == p.id1 && r.id2 == p.id2)

-- The test of a datagram.
abbrev pub wanted : Packet6 → ℕ → Unmarshalled6 → Option Packet6
wanted p want (packet6 r) = if same_id r p && r.msg_type == want then some r else none
wanted p want too_short6 = none
wanted p want no_fuel6 = none
wanted p want (bad_options6 e) = none

abbrev heard_or : Option Packet6 → Option Answer → Option Answer
heard_or (some r) rest = some (answered r)
heard_or none rest = rest

-- The inner loop, until the deadline: `none` where it passes without an answer.
unfoldable pub listen : Packet6 → ℕ → List Received → Option Answer
listen p want [] = none
listen p want (datagram b ∷ more) = heard_or (wanted p want (unmarshal6 b)) (listen p want more)
listen p want (slice_over ∷ more) = listen p want more
listen p want (broken ∷ more) = some socket_failed
listen p want (ended ∷ more) = some context_ended

abbrev pub unless_over : Bool → Option Answer → Option Answer
unless_over over (some a) = some a
unless_over true none = some context_ended
unless_over false none = none

-- A transmission of the packet and what follows: `none` where another one is due.
unfoldable pub transmit : Packet6 → ℕ → Round → Option Answer
transmit p want r =
    if r.sent then unless_over r.over (listen p want r.heard) else some context_ended

-- What follows a transmission of `q`, the `count`th of at most `mrc`, which is 0 for no limit;
-- `later` is what the further rounds give.
unfoldable pub after :
    ℕ → ℕ → Packet6 → Option Answer → List Packet6 × Answer → List Packet6 × Answer
after mrc count q (some a) later = (q ∷ [], a)
after mrc count q none later =
    if ltb 0 mrc && leb mrc count then (q ∷ [], unanswered) else (q ∷ later.0, later.1)

-- The packet with its time set.
unfoldable pub timed :
    Packet6 → Option Options6 → (Packet6 → List Packet6 × Answer) → List Packet6 × Answer
timed p none go = ([], crashed)
timed p (some opts) go = go (record p { options = opts })

-- Client6.exchange from its `count`th transmission on: the packets that it hands to the socket and
-- its answer. The loop sets the time in the packet, which the next round goes on with.
unfoldable pub exchange : Packet6 → ℕ → ℕ → ℕ → List Round → List Packet6 × Answer
exchange p want mrc count [] = ([], waiting)
exchange p want mrc count (r ∷ rounds) =
    timed p (set_elapsed (if count == 1 then 0 else r.elapsed) p.options)
      (λ q. after mrc count q (transmit q want r) (exchange q want mrc (suc count) rounds))
