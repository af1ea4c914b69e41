-- ===== src/Dhcp6/Answers.antt =====
-- What an exchange of pkg/lib/dhcp/retransmit6.go sends and what it takes for an answer.
use mathlib.Core.Path.{subst}
use mathlib.Core.Option.{some-injective}
use sandal.Prelude.{
  ◌≡◌, refl, inl, inr, ◌⊎◌, ℕ, zero, suc, ◌+◌, ◌≤◌, Bool, true, false, ◌&&◌, Option, none, some,
  List, [], ◌∷◌, leb, ltb, ◌==◌, length, arith, Bool-cases, Option-cases, All,
}
use sandal.Dhcp6.Options.{Options6}
use sandal.Dhcp6.Packet.{
  Packet6, Unmarshalled6, packet6, too_short6, no_fuel6, bad_options6, unmarshal6,
}
use sandal.Dhcp6.Exchange.{
  Received, datagram, slice_over, broken, ended, Round, Answer, answered, same_id, wanted, listen,
  unless_over, transmit, after, timed, exchange,
}

-- The packet has the type and the transaction ID of another.
abbrev IsSame : Packet6 → Packet6 → Type 0
IsSame p q = (q.msg_type ≡ p.msg_type) × (q.id0 ≡ p.id0) × (q.id1 ≡ p.id1) × (q.id2 ≡ p.id2)

-- The answer is of the wanted type and to the packet.
abbrev IsAnswerTo : Packet6 → ℕ → Answer → Type 0
IsAnswerTo p want (answered r) =
    (r.msg_type ≡ want) × (r.id0 ≡ p.id0) × (r.id1 ≡ p.id1) × (r.id2 ≡ p.id2)
IsAnswerTo p want _ = Unit

pub record IsExchange (p : Packet6) (want mrc count : ℕ) (e : List Packet6 × Answer) : Type 0 where
  pub all_same : All (IsSame p) e.0
  pub limited : (mrc ≡ 0) ⊎ (length e.0 + count ≤ mrc + 1)
  pub answers : IsAnswerTo p want e.1

is_answer :
    (p q : Packet6) (want : ℕ)
    → (same_id q p && q.msg_type == want) ≡ true
    → IsAnswerTo p want (answered q)
is_answer p q want c = (ground arith, ground arith, ground arith, ground arith)

wanted-IsAnswerTo :
    (p r : Packet6) (want : ℕ) (u : Unmarshalled6)
    → wanted p want u ≡ some r
    → IsAnswerTo p want (answered r)
wanted-IsAnswerTo p r want (packet6 q) e = elim (Bool-cases (same_id q p && q.msg_type == want)) [
  | inl c ↦
      let same : q ≡ r = some-injective _ _ (rw c at e) in
      subst (λ x. IsAnswerTo p want (answered x)) same (is_answer p q want c)
  | inr c ↦ let none_is : ◌≡◌ {A = Option Packet6} none (some r) = rw c at e in absurd cc
]
wanted-IsAnswerTo p r want too_short6 e = absurd cc
wanted-IsAnswerTo p r want no_fuel6 e = absurd cc
wanted-IsAnswerTo p r want (bad_options6 x) e = absurd cc

-- The answer that listening gives, if it gives one.
abbrev IsHeard : Packet6 → ℕ → Option Answer → Type 0
IsHeard p want none = Unit
IsHeard p want (some a) = IsAnswerTo p want a

listen-IsHeard :
    (p : Packet6) (want : ℕ) (heard : List Received) → IsHeard p want (listen p want heard)
unfolding listen
listen-IsHeard p want [] = tt
listen-IsHeard p want (datagram b ∷ more) = elim (Option-cases (wanted p want (unmarshal6 b))) [
  | inl e ↦ rw e (listen-IsHeard p want more)
  | inr (r, e) ↦ rw e (wanted-IsAnswerTo p r want (unmarshal6 b) e)
]
listen-IsHeard p want (slice_over ∷ more) = listen-IsHeard p want more
listen-IsHeard p want (broken ∷ more) = tt
listen-IsHeard p want (ended ∷ more) = tt

transmit-IsHeard : (p : Packet6) (want : ℕ) (r : Round) → IsHeard p want (transmit p want r)
unfolding transmit
transmit-IsHeard p want r = elim (Bool-cases r.sent) [
  | inl e ↦ simp e (over r.over (listen p want r.heard) (listen-IsHeard p want r.heard))
  | inr e ↦ simp e tt
]
  where
    over : (o : Bool) (a : Option Answer) → IsHeard p want a → IsHeard p want (unless_over o a)
    over o (some a) h = h
    over true none h = tt
    over false none h = tt

-- The transmissions that are left of a limit.
abbrev IsLeft : ℕ → ℕ → Type 0
IsLeft mrc count = (mrc ≡ 0) ⊎ (count ≤ mrc)

once : (mrc count : ℕ) → IsLeft mrc count → (mrc ≡ 0) ⊎ (1 + count ≤ mrc + 1)
once mrc count l = elim l [ inl z ↦ inl z | inr c ↦ inr (omega arith) ]

IsLeft-suc :
    (mrc count : ℕ)
    → IsLeft mrc count
    → (ltb 0 mrc && leb mrc count) ≡ false
    → IsLeft mrc (suc count)
IsLeft-suc zero count l e = inl refl
IsLeft-suc (suc m) count l e = inr (ground arith)

after-IsExchange :
    (p q : Packet6) (want mrc count : ℕ) (a : Option Answer) (later : List Packet6 × Answer)
    → IsSame p q
    → IsLeft mrc count
    → IsHeard p want a
    → (IsLeft mrc (suc count) → IsExchange p want mrc (suc count) later)
    → IsExchange p want mrc count (after mrc count q a later)
unfolding after
after-IsExchange p q want mrc count (some a) later s l h k = record {
  all_same = (s, tt);
  limited = once mrc count l;
  answers = h;
}
after-IsExchange p q want mrc count none later s l h k =
    elim (Bool-cases (ltb 0 mrc && leb mrc count)) [
      | inl e ↦ rw e (record { all_same = (s, tt); limited = once mrc count l; answers = tt })
      | inr e ↦ rw e (
          let rest = k (IsLeft-suc mrc count l e) in
          record {
            all_same = (s, rest.all_same);
            limited = elim rest.limited [ inl z ↦ inl z | inr c ↦ inr (omega arith) ];
            answers = rest.answers;
          })
    ]

timed-IsExchange :
    (p : Packet6) (want mrc count : ℕ) (opts : Option Options6)
    (go : Packet6 → List Packet6 × Answer)
    → IsLeft mrc count
    → ((os : Options6) → IsExchange p want mrc count (go (record p { options = os })))
    → IsExchange p want mrc count (timed p opts go)
unfolding timed
timed-IsExchange p want mrc count (some os) go l k = k os
timed-IsExchange p want mrc count none go l k = record {
  all_same = tt;
  limited = elim l [ inl z ↦ inl z | inr c ↦ inr (omega arith) ];
  answers = tt;
}

from_count :
    (p : Packet6) (want mrc count : ℕ) (rounds : List Round)
    → IsLeft mrc count
    → IsExchange p want mrc count (exchange p want mrc count rounds)
unfolding exchange
from_count p want mrc count [] l = record {
  all_same = tt;
  limited = elim l [ inl z ↦ inl z | inr c ↦ inr (omega arith) ];
  answers = tt;
}
from_count p want mrc count (r ∷ rounds) l = timed-IsExchange p want mrc count _ _ l (λ os.
    let q : Packet6 = record p { options = os } in
    after-IsExchange p q want mrc count (transmit q want r) (exchange q want mrc (suc count) rounds)
      (refl, refl, refl, refl) l (transmit-IsHeard q want r)
      (λ more.
        let rest = from_count q want mrc (suc count) rounds more in
        record { all_same = rest.all_same; limited = rest.limited; answers = rest.answers }))

-- Whatever the socket gives and when: every packet that an exchange hands to it has the type and the
-- transaction ID of the first; there are at most `mrc` of them, if that is not 0; and an answer is
-- of the wanted type and has the same transaction ID.
pub exchange-IsExchange :
    (p : Packet6) (want mrc : ℕ) (rounds : List Round)
    → IsExchange p want mrc 1 (exchange p want mrc 1 rounds)
exchange-IsExchange p want zero rounds = from_count p want zero 1 rounds (inl refl)
exchange-IsExchange p want (suc m) rounds = from_count p want (suc m) 1 rounds (inr (omega arith))
