-- ===== src/Kvm/Block/Bounds.antt =====
-- What every request to the disk of pkg/vm/kvm/virtio_blk.go keeps.
use mathlib.Core.Path.{subst}
use sandal.Prelude.{
  Option, none, some, ◌≡◌, refl, ap, sym, ◌∙◌, inl, inr, ℕ, ◌+◌, ◌*◌, ◌/◌, ◌≤◌, ◌<◌, Bool, true,
  false, ◌&&◌, List, [], ◌∷◌, ◌++◌, length, drop, arith, Bool-cases, length-append, length-take,
  length-drop, ◌==◌, get_or,
}
use sandal.Prelude.Words.{Bytes, u64}
use sandal.Kvm.Virtqueue.{ok}
use sandal.Kvm.Block.{
  Disk, config_read, read_at, Filled, fill, read_loop, Served, set_status, finish, split_last,
  perform, write_if, handle_request, with_header, type_and_sector,
}

-- The bytes of all buffers.
abbrev pub total : List Bytes → ℕ
total [] = 0
total (b ∷ bs) = length b + total bs

abbrev lengths : List Bytes → List ℕ
lengths [] = []
lengths (b ∷ bs) = length b ∷ lengths bs

-- The capacity that a driver puts together from its two halves is the size in whole sectors.
pub config_read-capacity :
    (d : Disk)
    → d.size < 18446744073709551616
    → (low high : ℕ) × (config_read d 0 4 ≡ ok low)
      × (config_read d 4 4 ≡ ok high)
      × (low + high * 4294967296 ≡ d.size / 512)
unfolding config_read
config_read-capacity d h = (_, _, refl, refl, omega arith)

-- Buffers of the same lengths as before, of which at most all bytes are counted.
pub record IsFilled (bufs : List Bytes) (f : Filled) : Type 0 where
  pub same : lengths f.bufs ≡ lengths bufs
  pub counted : f.count ≤ total bufs

length-read_at : (c : Bytes) (size offset : ℕ) → length (read_at c size offset).0 ≤ size
unfolding read_at
length-read_at c size offset = ground (arith, length-take size (drop offset c))

length-overwrite :
    (got buf : Bytes) → length got ≤ length buf → length (got ++ drop (length got) buf) ≡ length buf
length-overwrite got buf h =
    omega (arith, length-append got (drop (length got) buf), length-drop (length got) buf)

fill-IsFilled :
    (buf : Bytes) (bufs : List Bytes) (got : Bytes) (failed : Bool) (rest : Filled)
    → length got ≤ length buf
    → IsFilled bufs rest
    → IsFilled (buf ∷ bufs) (fill buf bufs (got, failed) rest)
unfolding fill
fill-IsFilled buf bufs got failed rest l h = elim (Bool-cases (failed && length got == 0)) [
  | inl e ↦ rw e (record { same = refl; counted = omega arith })
  | inr e ↦ rw e (record {
    same =
        ap (λ n. n ∷ lengths rest.bufs) (length-overwrite got buf l) ∙ ap (◌∷◌ (length buf)) h.same;
    counted = omega (arith, h.counted);
  })
]

read_loop-IsFilled :
    (c : Bytes) (offset : ℕ) (bufs : List Bytes) → IsFilled bufs (read_loop c offset bufs)
unfolding read_loop
read_loop-IsFilled c offset [] = record { same = refl; counted = omega arith }
read_loop-IsFilled c offset (buf ∷ bufs) =
    let r = read_at c (length buf) offset in
    fill-IsFilled buf bufs r.0 r.1 _ (length-read_at c (length buf) offset)
      (read_loop-IsFilled c (u64 (offset + length r.0)) bufs)

-- What every request leaves of the buffers and the disk.
pub record IsServed (d : Disk) (bufs : List Bytes) (s : Served) : Type 0 where
  pub same_lengths : lengths s.buffers ≡ lengths bufs
  pub counted : s.written ≤ total bufs
  pub unchanged : d.read_only ≡ true → s.disk ≡ d

lengths-append :
    (xs ys : List Bytes) (x y : Bytes)
    → lengths xs ≡ lengths ys
    → length x ≡ length y
    → lengths (xs ++ x ∷ []) ≡ lengths (ys ++ y ∷ [])
lengths-append [] [] x y e f = ap (λ n. n ∷ []) f
lengths-append [] (b ∷ ys) x y e f = absurd cc
lengths-append (a ∷ xs) [] x y e f = absurd cc
lengths-append (a ∷ xs) (b ∷ ys) x y e f =
    ap (λ l. get_or l 0 0 ∷ lengths (xs ++ x ∷ [])) e
    ∙ ap (λ l. length b ∷ l) (lengths-append xs ys x y (ap (drop 1) e) f)

total-append : (xs : List Bytes) (x : Bytes) → total (xs ++ x ∷ []) ≡ total xs + length x
total-append [] x = omega arith
total-append (a ∷ xs) x = omega (arith, total-append xs x)

length-set_status : (s : ℕ) (b : Bytes) → length (set_status s b) ≡ length b
unfolding set_status
length-set_status s [] = refl
length-set_status s (x ∷ b) = refl

finish-IsServed :
    (d e : Disk) (bufs filled : List Bytes) (last : Bytes) (count status : ℕ)
    → lengths filled ≡ lengths bufs
    → count ≤ total bufs
    → (d.read_only ≡ true → e ≡ d)
    → IsServed d (bufs ++ last ∷ []) (finish filled last count status e)
finish-IsServed d e bufs filled last count status h c u = record {
  same_lengths =
      lengths-append filled bufs (set_status status last) last h (length-set_status status last);
  counted = ground (arith, total-append bufs last);
  unchanged = u;
}

split_last_lem :
    (b : Bytes) (bs : List Bytes) → (split_last b bs).0 ++ (split_last b bs).1 ∷ [] ≡ b ∷ bs
split_last_lem b [] = refl
split_last_lem b (c ∷ bs) = ap (◌∷◌ b) (split_last_lem c bs)

write_if-IsServed :
    (read_only : Bool) (d : Disk) (w : Bytes × ℕ) (bufs : List Bytes) (last : Bytes)
    → d.read_only ≡ read_only
    → IsServed d (bufs ++ last ∷ []) (write_if read_only d w bufs last)
unfolding write_if
write_if-IsServed true d w bufs last e =
    finish-IsServed d d bufs bufs last 0 1 refl (omega arith) (λ _. refl)
write_if-IsServed false d w bufs last e =
    finish-IsServed d (record d { contents = w.0 }) bufs bufs last 0 w.1 refl (omega arith)
      (λ t. let absent : true ≡ false = sym t ∙ e in absurd cc)

perform-IsServed :
    (d : Disk) (type offset : ℕ) (out bufs : List Bytes) (last : Bytes)
    → IsServed d (bufs ++ last ∷ []) (perform d type offset out bufs last)
unfolding perform
perform-IsServed d type offset out bufs last = elim (Bool-cases (type == 0)) [
  | inl e ↦
      let f = read_loop-IsFilled d.contents offset bufs in
      rw e (finish-IsServed d d bufs _ last _ _ f.same f.counted (λ _. refl))
  | inr e ↦ elim (Bool-cases (type == 1)) [
    | inl k ↦ rw (e, k) (write_if-IsServed d.read_only d _ bufs last refl)
    | inr k ↦ elim (Bool-cases (type == 4)) [
      | inl s ↦ rw (e, k, s) (finish-IsServed d d bufs bufs last 0 _ refl (omega arith) (λ _. refl))
      | inr s ↦ rw (e, k, s) (finish-IsServed d d bufs bufs last 0 2 refl (omega arith) (λ _. refl))
    ]
  ]
]

unserved :
    (d : Disk) (bufs : List Bytes)
    → IsServed d bufs (record { written = 0; buffers = bufs; disk = d })
unserved d bufs = record { same_lengths = refl; counted = omega arith; unchanged = λ _. refl }

with_header-IsServed :
    (d : Disk) (h : Option (ℕ × ℕ)) (out : List Bytes) (b : Bytes) (bs : List Bytes)
    → IsServed d (b ∷ bs) (with_header d h out b bs)
unfolding with_header
with_header-IsServed d none out b bs = unserved d (b ∷ bs)
with_header-IsServed d (some (type, sector)) out b bs =
    subst (λ l. IsServed d l (with_header d (some (type, sector)) out b bs)) (split_last_lem b bs)
      (perform-IsServed d type (u64 (sector * 512)) out (split_last b bs).0 (split_last b bs).1)

-- Every request leaves the lengths of the writable buffers as they are, reports at most their
-- bytes, and changes nothing of a read-only disk.
pub handle_request-IsServed :
    (d : Disk) (out bufs : List Bytes) → IsServed d bufs (handle_request d out bufs)
unfolding handle_request
handle_request-IsServed d [] bufs = unserved d bufs
handle_request-IsServed d (h ∷ out) [] = unserved d []
handle_request-IsServed d (h ∷ out) (b ∷ bs) = with_header-IsServed d (type_and_sector h) out b bs
