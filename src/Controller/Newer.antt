-- ===== src/Controller/Newer.antt =====
-- What LoadFromDisk of pkg/controller/set.go does to the entry of each name.
use sandal.Prelude.{
  ◌≡◌, refl, sym, ◌∙◌, inl, inr, ◌⊎◌, ◌<◌, ◌≤◌, true, Option, none, some, Bool-cases, Option-cases,
  arith,
}
use sandal.Prelude.Words.{Bytes}
use sandal.Prelude.Text.{equal, equal_iff}
use sandal.Controller.Names.{is_some, is_valid, config_file, validate_name}
use sandal.Controller.Store.{Config, Json, State, read_file, find}
use sandal.Controller.Sets.{is_newer, load_entry, load_new, load_from_disk}
use sandal.Controller.Listing.{IsUnique, find-put, put-IsUnique, find-append, append-IsUnique}
use sandal.Controller.Dropping.{same_entry}

-- The entry is the same, or a newer one.
abbrev pub Advance : Config → Option Config → Type 0
Advance m o = (o ≡ some m) ⊎ ((d : Config) × (o ≡ some d) × (m.generation < d.generation))

pub Advance-newer :
    (m d : Config) (o : Option Config) → m.generation < d.generation → Advance d o → Advance m o
Advance-newer m d o l (inl e) = inr (d, e, l)
Advance-newer m d o l (inr (x, e, h)) = inr (x, e, omega arith)

pub Advance-trans :
    (m : Config) (o p : Option Config)
    → Advance m o
    → ((d : Config) → o ≡ some d → m.generation ≤ d.generation → Advance d p)
    → Advance m p
Advance-trans m o p (inl e) f = f m e (omega arith)
Advance-trans m o p (inr (d, e, l)) f = elim (f d e (omega arith)) [
  | inl k ↦ inr (d, k, l)
  | inr (x, k, h) ↦ inr (x, k, omega arith)
]

module _ (j : Json) (c : Config) (n : Bytes) (s : State) where
  -- How the entry of a name comes out of a load.
  pub data LoadCase (o : Option Config) : Type 0 where
    kept : o ≡ find n s.memory → LoadCase o
    added :
        o ≡ some c
        → find n s.memory ≡ none
        → is_some (read_file (config_file n) s.files) ≡ true
        → LoadCase o
    replaced :
        (m : Config) → o ≡ some c → find n s.memory ≡ some m → is_newer j c m ≡ true → LoadCase o

  found_case :
      (m : Config)
      → find c.name s.memory ≡ some m
      → LoadCase (find n (load_entry j (some m) c s).0.memory)
  found_case m f = elim (Bool-cases (is_newer j c m)) [
    | inr k ↦ rw k (kept refl)
    | inl k ↦ elim (Bool-cases (equal c.name n)) [
      | inr e ↦ rw k (kept (find-put n c s.memory ∙ rw e refl))
      | inl e ↦ rw k (
          replaced m (find-put n c s.memory ∙ rw e refl) (sym (same_entry c.name n s.memory e) ∙ f)
            k)
    ]
  ]

  new_case :
      (o : Option Bytes)
      → find c.name s.memory ≡ none
      → read_file (config_file c.name) s.files ≡ o
      → LoadCase (find n (load_new j o c s).0.memory)
  new_case none f r = kept refl
  new_case (some b) f r = elim (Bool-cases (equal c.name n)) [
    | inr e ↦ kept (find-append n c s.memory f ∙ rw e refl)
    | inl e ↦
        added (find-append n c s.memory f ∙ rw e refl) (sym (same_entry c.name n s.memory e) ∙ f)
          (let k : c.name ≡ n = (equal_iff c.name n).0 e in rw (← k, r) refl)
  ]

  pub load_from_disk-LoadCase : LoadCase (find n (load_from_disk j c s).0.memory)
  unfolding load_from_disk
  load_from_disk-LoadCase = elim (Bool-cases (is_valid (validate_name c.name))) [
    | inr v ↦ rw v (kept refl)
    | inl v ↦ elim (Option-cases (find c.name s.memory)) [
      | inl f ↦ rw (v, f) (new_case (read_file (config_file c.name) s.files) f refl)
      | inr (m, f) ↦ rw (v, f) (found_case m f)
    ]
  ]

  -- A load keeps an entry that was set, or takes a newer one.
  pub load_from_disk-Advance :
      (m : Config)
      → find n s.memory ≡ some m
      → 0 < m.generation
      → Advance m (find n (load_from_disk j c s).0.memory)
  unfolding is_newer
  load_from_disk-Advance m f p = elim (load_from_disk-LoadCase) [
    | kept e ↦ inl (e ∙ f)
    | added e g r ↦ absurd (cc)
    | replaced x e g k ↦ inr (c, e, ground (arith, g, f))
  ]

module _ (j : Json) (c : Config) (s : State) where
  found-files : (m : Config) → (load_entry j (some m) c s).0.files ≡ s.files
  found-files m = elim (Bool-cases (is_newer j c m)) [ inl k ↦ rw k refl | inr k ↦ rw k refl ]

  found-IsUnique : (m : Config) → IsUnique s.memory → IsUnique (load_entry j (some m) c s).0.memory
  found-IsUnique m u = elim (Bool-cases (is_newer j c m)) [
    | inl k ↦ rw k (put-IsUnique c s.memory u)
    | inr k ↦ rw k u
  ]

  new-files : (o : Option Bytes) → (load_new j o c s).0.files ≡ s.files
  new-files none = refl
  new-files (some b) = refl

  new-IsUnique :
      (o : Option Bytes)
      → find c.name s.memory ≡ none
      → IsUnique s.memory
      → IsUnique (load_new j o c s).0.memory
  new-IsUnique none f u = u
  new-IsUnique (some b) f u = append-IsUnique c s.memory f u

  -- A load writes no file.
  pub load_from_disk-files : (load_from_disk j c s).0.files ≡ s.files
  unfolding load_from_disk
  load_from_disk-files = elim (Bool-cases (is_valid (validate_name c.name))) [
    | inr v ↦ rw v refl
    | inl v ↦ elim (Option-cases (find c.name s.memory)) [
      | inl f ↦ rw (v, f) (new-files (read_file (config_file c.name) s.files))
      | inr (m, f) ↦ rw (v, f) (found-files m)
    ]
  ]

  -- No name comes twice.
  pub load_from_disk-IsUnique : IsUnique s.memory → IsUnique (load_from_disk j c s).0.memory
  unfolding load_from_disk
  load_from_disk-IsUnique u = elim (Bool-cases (is_valid (validate_name c.name))) [
    | inr v ↦ rw v u
    | inl v ↦ elim (Option-cases (find c.name s.memory)) [
      | inl f ↦ rw (v, f) (new-IsUnique (read_file (config_file c.name) s.files) f u)
      | inr (m, f) ↦ rw (v, f) (found-IsUnique m u)
    ]
  ]
