-- ===== src/Controller/Loads.antt =====
-- What the loads of reconcileState of pkg/daemon/disk-events.go do to one name's entry.
use sandal.Prelude.{
  ◌≡◌, refl, ◌∙◌, inl, inr, ◌<◌, true, false, Option, none, some, List, [], ◌∷◌, Bool-cases, arith,
}
use sandal.Prelude.Words.{Bytes}
use sandal.Controller.Names.{config_file}
use sandal.Controller.Store.{Config, Json, State, read_file, find}
use sandal.Controller.Watch.{is_member, load_file, load_read, load_missing}
use sandal.Controller.Newer.{kept, added, replaced, load_from_disk-LoadCase, load_from_disk-files}
use sandal.Controller.Newer.{Advance, Advance-trans, load_from_disk-Advance}

module _ (j : Json) (n : Bytes) where
  pub load_read-Advance :
      (o : Option Config) (m : Config) (s : State)
      → find n s.memory ≡ some m
      → 0 < m.generation
      → Advance m (find n (load_read j o s).memory)
  load_read-Advance none m s f p = inl f
  load_read-Advance (some c) m s f p = load_from_disk-Advance j c n s m f p

  pub load_missing-Advance :
      (in_mem ns : List Bytes) (m : Config) (s : State)
      → find n s.memory ≡ some m
      → 0 < m.generation
      → Advance m (find n (load_missing j in_mem ns s).memory)
  unfolding load_missing
  load_missing-Advance in_mem [] m s f p = inl f
  load_missing-Advance in_mem (k ∷ ks) m s f p = elim (Bool-cases (is_member k in_mem)) [
    | inl e ↦ rw (e, load_missing) (load_missing-Advance in_mem ks m s f p)
    | inr e ↦
        (let o : Option Config = load_file j (read_file (config_file k) s.files) in
          rw (e, load_missing)
            (Advance-trans m (find n (load_read j o s).memory) _ (load_read-Advance o m s f p)
              (λ d g l. load_missing-Advance in_mem ks d (load_read j o s) g (omega arith))))
  ]

  -- Without an entry and a file a name stays without an entry.
  load_read-none :
      (o : Option Config) (s : State)
      → find n s.memory ≡ none
      → read_file (config_file n) s.files ≡ none
      → (find n (load_read j o s).memory ≡ none) × ((load_read j o s).files ≡ s.files)
  load_read-none none s f r = (f, refl)
  load_read-none (some c) s f r = (
    elim (load_from_disk-LoadCase j c n s) [
      | kept e ↦ e ∙ f
      | added e g k ↦ (let w : false ≡ true = rw r at k in absurd (cc))
      | replaced x e g k ↦ absurd (cc)
    ],
    load_from_disk-files j c s,
  )

  pub load_missing-none :
      (in_mem ns : List Bytes) (s : State)
      → find n s.memory ≡ none
      → read_file (config_file n) s.files ≡ none
      → find n (load_missing j in_mem ns s).memory ≡ none
  unfolding load_missing
  load_missing-none in_mem [] s f r = f
  load_missing-none in_mem (k ∷ ks) s f r = elim (Bool-cases (is_member k in_mem)) [
    | inl e ↦ rw (e, load_missing) (load_missing-none in_mem ks s f r)
    | inr e ↦
        (let (g, same) = load_read-none (load_file j (read_file (config_file k) s.files)) s f r in
          rw (e, load_missing) (load_missing-none in_mem ks _ g (rw same r)))
  ]
