-- ===== src/Kvm/Virtio/QueueSetup.antt =====
-- How a driver sets a queue up through the registers of pkg/vm/kvm/virtio.go.
use sandal.Prelude.{
  ℕ, zero, suc, ◌+◌, ◌*◌, ◌<◌, ◌≡◌, refl, true, some, List, [], ◌∷◌, length, get_or, get_elem?, set,
  ◌==◌, if◌then◌else◌, arith, ◌∙◌, ap,
}
use sandal.Kvm.Virtio.{
  Virtqueue, zero_queue, Kind, MmioDev, current_queue, on_queue, with_low, with_high, write_reg,
}

module _ {ℓ} {A : Type ℓ} where
  length-set : (xs : List A) (i : ℕ) (a : A) → length (set xs i a) ≡ length xs
  length-set [] i a = refl
  length-set (x ∷ xs) zero a = refl
  length-set (x ∷ xs) (suc i) a = ap suc (length-set xs i a)

  set-set : (xs : List A) (i : ℕ) (a b : A) → set (set xs i a) i b ≡ set xs i b
  set-set [] i a b = refl
  set-set (x ∷ xs) zero a b = refl
  set-set (x ∷ xs) (suc i) a b = ap (◌∷◌ x) (set-set xs i a b)

  get_or-set : (xs : List A) (i : ℕ) (a d : A) → i < length xs → get_or (set xs i a) i d ≡ a
  get_or-set [] i a d h = elim h [ ]
  get_or-set (x ∷ xs) zero a d h = refl
  get_or-set (x ∷ xs) (suc i) a d h = get_or-set xs i a d (omega arith)

  get_elem?-set :
      (xs : List A) (i j : ℕ) (a : A)
      → i < length xs
      → get_elem? (set xs i a) j ≡ (if j == i then some a else get_elem? xs j)
  get_elem?-set [] i j a h = elim h [ ]
  get_elem?-set (x ∷ xs) zero zero a h = refl
  get_elem?-set (x ∷ xs) zero (suc j) a h = ground arith
  get_elem?-set (x ∷ xs) (suc i) zero a h = ground arith
  get_elem?-set (x ∷ xs) (suc i) (suc j) a h = ground (arith, get_elem?-set xs i j a)

-- Two writes to the selected queue are one.
on_queue-on_queue :
    (f g : Virtqueue → Virtqueue) (v : MmioDev)
    → on_queue g (on_queue f v) ≡ on_queue (λ q. g (f q)) v
unfolding on_queue current_queue
on_queue-on_queue f g v =
    let q : Virtqueue = get_or v.queues v.queue_sel zero_queue in
    ground (
      arith,
      length-set v.queues v.queue_sel (f q),
      get_or-set v.queues v.queue_sel (f q) zero_queue,
      set-set v.queues v.queue_sel (f q) (g (f q)),
    )

-- The driver selects a queue and writes its registers one by one.
abbrev pub writes : Kind → List (ℕ × ℕ) → MmioDev → MmioDev
writes k [] v = v
writes k ((offset, val) ∷ rest) v = writes k rest (write_reg k offset val v)

abbrev pub setup : (i n dlo dhi alo ahi ulo uhi : ℕ) → List (ℕ × ℕ)
setup i n dlo dhi alo ahi ulo uhi =
    (0x030, i)
    ∷ (0x038, n)
    ∷ (0x080, dlo)
    ∷ (0x084, dhi)
    ∷ (0x090, alo)
    ∷ (0x094, ahi)
    ∷ (0x0a0, ulo)
    ∷ (0x0a4, uhi)
    ∷ (0x044, 1)
    ∷ []

abbrev word64 : ℕ → ℕ → ℕ
word64 lo hi = lo + hi * 4294967296

-- The selected queue, as the driver wants it.
abbrev pub ready_queue : (n dlo dhi alo ahi ulo uhi : ℕ) → Virtqueue → Virtqueue
ready_queue n dlo dhi alo ahi ulo uhi q = record q {
  num = n;
  ready = true;
  desc_addr = word64 dlo dhi;
  drv_addr = word64 alo ahi;
  dev_addr = word64 ulo uhi;
}

with_both : (x lo hi : ℕ) → lo < 4294967296 → with_high (with_low x lo) hi ≡ word64 lo hi
with_both x lo hi h = omega arith

setup-on_queue :
    (k : Kind) (i n dlo dhi alo ahi ulo uhi : ℕ) (v : MmioDev)
    → dlo < 4294967296
    → alo < 4294967296
    → ulo < 4294967296
    → writes k (setup i n dlo dhi alo ahi ulo uhi) v
      ≡ on_queue (ready_queue n dlo dhi alo ahi ulo uhi) (record v { queue_sel = i })
unfolding write_reg
setup-on_queue k i n dlo dhi alo ahi ulo uhi v hd ha hu =
    simp on_queue-on_queue
      (simp (with_both _ dlo dhi hd, with_both _ alo ahi ha, with_both _ ulo uhi hu))

-- After the driver's writes to queue `i` the queue is ready with the size and the three 64-bit
-- addresses that it wrote in halves; its position in the ring and the other queues are as before.
pub setup_lem :
    (k : Kind) (i n dlo dhi alo ahi ulo uhi : ℕ) (v : MmioDev) (j : ℕ)
    → dlo < 4294967296
    → alo < 4294967296
    → ulo < 4294967296
    → i < length v.queues
    → get_elem? (writes k (setup i n dlo dhi alo ahi ulo uhi) v).queues j ≡ (
        if j == i
        then some (ready_queue n dlo dhi alo ahi ulo uhi (get_or v.queues i zero_queue))
        else get_elem? v.queues j)
unfolding on_queue current_queue
setup_lem k i n dlo dhi alo ahi ulo uhi v j hd ha hu h =
    let f : Virtqueue → Virtqueue = ready_queue n dlo dhi alo ahi ulo uhi in
    ap (λ w. get_elem? w.queues j) (setup-on_queue k i n dlo dhi alo ahi ulo uhi v hd ha hu)
    ∙ ground (arith, get_elem?-set v.queues i j (f (get_or v.queues i zero_queue)))
