-- ===== src/Controller/Listing.antt =====
-- The list of the controller: what replacing, adding and deleting an entry leave of the others.
use sandal.Prelude.{
  ◌≡◌, refl, ap, ◌∙◌, inl, inr, true, none, some, List, [], ◌∷◌, ◌++◌, Bool-cases, arith,
  if◌then◌else◌,
}
use sandal.Prelude.Words.{Bytes}
use sandal.Prelude.Text.{equal, equal_iff}
use sandal.Controller.Store.{Config, find, put, put_last, last_first, delete_container}

-- No two entries have one name.
abbrev pub IsUnique : List Config → Type 0
IsUnique [] = Unit {0}
IsUnique (c ∷ cs) = (find c.name cs ≡ none) × IsUnique cs

pub equal_self : (s : Bytes) → equal s s ≡ true
equal_self s = (equal_iff s s).1 refl

pub find-put :
    (n : Bytes) (c : Config) (ms : List Config)
    → find n (put c ms) ≡ (if equal c.name n then some c else find n ms)
unfolding find put
find-put n c [] = refl
find-put n c (m ∷ ms) =
    ground (arith, equal_iff m.name c.name, equal_iff m.name n, equal_iff c.name n, find-put n c ms)

pub find-append :
    (n : Bytes) (c : Config) (ms : List Config)
    → find c.name ms ≡ none
    → find n (ms ++ c ∷ []) ≡ (if equal c.name n then some c else find n ms)
unfolding find
find-append n c [] h = refl
find-append n c (m ∷ ms) h =
    ground
      (arith, equal_iff m.name c.name, equal_iff m.name n, equal_iff c.name n, find-append n c ms)

pub put-IsUnique : (c : Config) (ms : List Config) → IsUnique ms → IsUnique (put c ms)
unfolding find put
put-IsUnique c [] u = (refl, tt)
put-IsUnique c (m ∷ ms) (f, u) = elim (Bool-cases (equal m.name c.name)) [
  | inl e ↦ rw e (let k : m.name ≡ c.name = (equal_iff _ _).0 e in rw (← k) f, u)
  | inr e ↦ rw e (
    ground (arith, find-put m.name c ms, equal_iff m.name c.name, equal_iff c.name m.name),
    put-IsUnique c ms u,
  )
]

pub append-IsUnique :
    (c : Config) (ms : List Config) → find c.name ms ≡ none → IsUnique ms → IsUnique (ms ++ c ∷ [])
unfolding find
append-IsUnique c [] h u = (refl, tt)
append-IsUnique c (m ∷ ms) h (f, u) =
    let k : find c.name ms ≡ none = ground (arith) in
    (
      ground (arith, find-append m.name c ms, equal_iff m.name c.name, equal_iff c.name m.name),
      append-IsUnique c ms k u,
    )

find-put_last :
    (n : Bytes) (m : Config) (l : List Config)
    → find m.name l ≡ none
    → find n (put_last m l) ≡ find n (m ∷ l)
unfolding find
find-put_last n m [] f = refl
find-put_last n m (x ∷ r) f =
    ground (arith, equal_iff x.name m.name, equal_iff x.name n, equal_iff m.name n)

put_last-IsUnique :
    (m : Config) (l : List Config) → find m.name l ≡ none → IsUnique l → IsUnique (put_last m l)
unfolding find
put_last-IsUnique m [] f u = (refl, tt)
put_last-IsUnique m (x ∷ r) f (g, u) =
    (ground (arith, equal_iff x.name m.name, equal_iff m.name x.name), (ground (arith), u))

find-cons :
    (n : Bytes) (m : Config) (l r : List Config)
    → find n l ≡ find n r
    → find n (m ∷ l) ≡ find n (m ∷ r)
unfolding find
find-cons n m l r e = rw e

-- Where no two entries share a name, the last one may come first.
last_first_lem :
    (ms : List Config)
    → IsUnique ms
    → IsUnique (last_first ms) × ((n : Bytes) → find n (last_first ms) ≡ find n ms)
unfolding last_first
last_first_lem [] u = (tt, λ n. refl)
last_first_lem (m ∷ ms) (f, u) =
    let (v, same) = last_first_lem ms u in
    let g : find m.name (last_first ms) ≡ none = same m.name ∙ f in
    (
      put_last-IsUnique m (last_first ms) g v,
      λ n. find-put_last n m (last_first ms) g ∙ find-cons n m _ _ (same n),
    )

-- A deletion takes the entry of the name and no other.
pub find-delete_container :
    (n k : Bytes) (ms : List Config)
    → IsUnique ms
    → find n (delete_container k ms) ≡ (if equal k n then none else find n ms)
unfolding find delete_container
find-delete_container n k [] u = ground arith
find-delete_container n k (m ∷ ms) (f, u) = elim (Bool-cases (equal m.name k)) [
  | inl e ↦
      rw (e, (last_first_lem ms u).1 n)
        (let i : m.name ≡ k = (equal_iff _ _).0 e in
          ground (arith, equal_iff k n, equal_iff m.name n, ap (λ a. find a ms) i))
  | inr e ↦ rw e (
      ground (
        arith,
        equal_iff m.name k,
        equal_iff m.name n,
        equal_iff k n,
        find-delete_container n k ms u,
      ))
]

pub delete_container-IsUnique :
    (k : Bytes) (ms : List Config) → IsUnique ms → IsUnique (delete_container k ms)
unfolding find delete_container
delete_container-IsUnique k [] u = tt
delete_container-IsUnique k (m ∷ ms) (f, u) = elim (Bool-cases (equal m.name k)) [
  | inl e ↦ rw e (last_first_lem ms u).0
  | inr e ↦
      rw e (ground (arith, find-delete_container m.name k ms u), delete_container-IsUnique k ms u)
]
