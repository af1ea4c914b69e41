-- ===== src/Controller/Loading.antt =====
-- The second loop of reconcileState of pkg/daemon/disk-events.go: the files that are loaded.
use sandal.Prelude.{
  ◌≡◌, refl, ap, ◌∙◌, inl, inr, ◌⊎◌, true, false, not, ◌&&◌, Option, none, some, List, [], ◌∷◌,
  ◌++◌, All, Bool-cases, Option-cases, arith, if◌then◌else◌,
}
use sandal.Prelude.Words.{Bytes}
use sandal.Prelude.Text.{equal, equal_iff}
use sandal.Controller.Names.{config_file, validate_name, valid}
use sandal.Controller.Store.{Config, Json, State, read_file, find}
use sandal.Controller.Sets.{load_from_disk}
use sandal.Controller.Watch.{is_member, load_file, load_read, load_missing}
use sandal.Controller.Listing.{IsUnique, find-append, append-IsUnique}
use sandal.Controller.Dropping.{same_entry, same_member}

-- The configuration that is read is the one of its file's name.
abbrev pub ReadsAs : Bytes → Option Config → Type 0
ReadsAs n none = Unit {0}
ReadsAs n (some c) = c.name ≡ n

abbrev pub IsDistinct : List Bytes → Type 0
IsDistinct [] = Unit {0}
IsDistinct (n ∷ ns) = All (λ k. equal n k ≡ false) ns × IsDistinct ns

-- An entry is there already, or the list has none of the name.
abbrev pub IsNew : List Bytes → State → Bytes → Type 0
IsNew in_mem s k = (is_member k in_mem ≡ true) ⊎ (find k s.memory ≡ none)

module _ (j : Json) where
  -- What the file of a name says.
  abbrev pub saved : Bytes → State → Option Config
  saved n s = load_file j (read_file (config_file n) s.files)

  abbrev Loaded : Bytes → State → State → Type 0
  Loaded k s t =
      (t.files ≡ s.files)
      × IsUnique t.memory
      × ((n : Bytes) → find n t.memory ≡ (if equal k n then saved k s else find n s.memory))

  absent :
      (k n : Bytes) (s : State)
      → find k s.memory ≡ none
      → find n s.memory ≡ (if equal k n then none else find n s.memory)
  absent k n s e = ground (arith, same_entry k n s.memory)

  load_absent :
      (c : Config) (s : State) {b : Bytes}
      → validate_name c.name ≡ valid
      → find c.name s.memory ≡ none
      → read_file (config_file c.name) s.files ≡ some b
      → load_from_disk j c s ≡ (record s { memory = s.memory ++ c ∷ [] }, true)
  unfolding load_from_disk
  load_absent c s v f e = rw (v, f, e) refl

  load_some :
      (c : Config) (s : State) {b : Bytes}
      → validate_name c.name ≡ valid
      → IsUnique s.memory
      → find c.name s.memory ≡ none
      → read_file (config_file c.name) s.files ≡ some b
      → ((load_from_disk j c s).0.files ≡ s.files)
        × IsUnique (load_from_disk j c s).0.memory
        × ((n : Bytes)
            → find n (load_from_disk j c s).0.memory
              ≡ (if equal c.name n then some c else find n s.memory))
  load_some c s v u f e =
      rw (load_absent c s v f e)
        (refl, append-IsUnique c s.memory f u, (λ n. find-append n c s.memory f))

  load_read-Loaded :
      (k : Bytes) (s : State)
      → validate_name k ≡ valid
      → IsUnique s.memory
      → find k s.memory ≡ none
      → ReadsAs k (saved k s)
      → Loaded k s (load_read j (saved k s) s)
  unfolding load_file
  load_read-Loaded k s v u f r = elim (Option-cases (read_file (config_file k) s.files)) [
    | inl e ↦ rw e (refl, u, (λ n. absent k n s f))
    | inr (b, e) ↦ elim (Option-cases (j.unmarshal b)) [
      | inl d ↦ rw (e, d) (refl, u, (λ n. absent k n s f))
      | inr (c, d) ↦
          (let same : c.name ≡ k = rw (e, d) at r in
            rw (e, d, ← same)
              (load_some c s (rw (← same) at v) u (rw (← same) at f) (rw (← same) at e)))
    ]
  ]

  -- Only the entry of one name has changed.
  IsNew-All :
      (in_mem : List Bytes) (k : Bytes) (s t : State) (x : Option Config) (ks : List Bytes)
      → ((n : Bytes) → find n t.memory ≡ (if equal k n then x else find n s.memory))
      → All (λ n. equal k n ≡ false) ks
      → All (IsNew in_mem s) ks
      → All (IsNew in_mem t) ks
  IsNew-All in_mem k s t x [] f d a = tt
  IsNew-All in_mem k s t x (n ∷ ks) f (d, ds) (inl m, rest) =
      (inl m, IsNew-All in_mem k s t x ks f ds rest)
  IsNew-All in_mem k s t x (n ∷ ks) f (d, ds) (inr m, rest) =
      (inr (f n ∙ rw d m), IsNew-All in_mem k s t x ks f ds rest)

  same_saved : (m n : Bytes) (s : State) → equal m n ≡ true → saved m s ≡ saved n s
  same_saved m n s e = ap (λ k. saved k s) ((equal_iff m n).0 e)

  abbrev pub AllLoaded : List Bytes → List Bytes → State → State → Type 0
  AllLoaded in_mem order s t =
      (t.files ≡ s.files)
      × IsUnique t.memory
      × ((n : Bytes)
          → find n t.memory ≡ (
              if is_member n order && not (is_member n in_mem) then saved n s else find n s.memory))

  pub load_missing-AllLoaded :
      (in_mem order : List Bytes) (fs : List (Bytes × Bytes)) (s : State)
      → s.files ≡ fs
      → All (λ k. validate_name k ≡ valid) order
      → IsDistinct order
      → All (λ k. ReadsAs k (load_file j (read_file (config_file k) fs))) order
      → All (IsNew in_mem s) order
      → IsUnique s.memory
      → AllLoaded in_mem order s (load_missing j in_mem order s)
  unfolding load_missing is_member
  load_missing-AllLoaded in_mem [] fs s q v d r a u = (refl, u, (λ n. refl))
  load_missing-AllLoaded in_mem (k ∷ ks) fs s q (v, vs) (d, ds) (r, rs) (a, later) u =
      elim (Bool-cases (is_member k in_mem)) [
        | inl m ↦
            (let (tf, tu, g) = load_missing-AllLoaded in_mem ks fs s q vs ds rs later u in
              rw (m, load_missing) (tf, tu, (λ n. g n ∙ ground (arith, same_member k n in_mem))))
        | inr m ↦
            (let f : find k s.memory ≡ none = elim a [ inl e ↦ absurd (cc) | inr e ↦ e ] in
              let t : State = load_read j (saved k s) s in
              let (tf, tu, h) : Loaded k s t = load_read-Loaded k s v u f (rw q r) in
              let (wf, wu, g) =
                load_missing-AllLoaded in_mem ks fs t (tf ∙ q) vs ds rs
                  (IsNew-All in_mem k s t (saved k s) ks h d later) tu in
              rw (m, load_missing)
                (
                  wf ∙ tf,
                  wu,
                  λ n. g n ∙ ground (arith, h n, tf, same_member k n in_mem, same_saved k n s),
                ))
      ]
