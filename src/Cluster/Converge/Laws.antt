-- ===== src/Cluster/Converge/Laws.antt =====
-- Lemmas on what `wait` finds to wait for.
use lab_charts.Base.{
  lower, Bool, true, Option, none, some, List, [], ◌∷◌, ◌≡◌, refl, arith, nat_eq, list_eq, pair_eq,
  ◌==◌, contains, contains-append, contains-singleton, beq_refl, Eq, contains-add_once, add_once,
  Every, if◌then◌else◌, Text, text,
}
use lab_charts.Cluster.Tools.{Document, scalar, mapping}
use lab_charts.Cluster.Converge.{
  Workload, workload_kinds, or_else, Found, note_document, note_documents, note_names,
}

-- where the optional element is there, it is in the list
abbrev pub covers : {A : Type 0} ⦃e : Eq A⦄ → List A → Option A → Bool
covers xs none = true
covers xs (some a) = contains xs a

module _ (ns : Text) where
  -- what a document names, in independent terms
  abbrev pub workload_of : Document → Option Workload
  workload_of scalar = none
  workload_of (mapping kind namespace none) = none
  workload_of (mapping kind namespace (some name)) =
      if contains workload_kinds (lower kind)
      then some (lower kind, (or_else namespace ns, name))
      else none

  abbrev pub crd_of : Document → Option Text
  crd_of scalar = none
  crd_of (mapping kind namespace none) = none
  crd_of (mapping kind namespace (some name)) =
      if contains workload_kinds (lower kind)
      then none
      else if lower kind == text "customresourcedefinition"
      then some name
      else none

  note_document-keeps :
      (d : Document) (ws : List Workload) (crds : List Text) (v : Workload)
      → contains ws v ≡ true
      → contains (note_document ns d (ws, crds)).0 v ≡ true
  unfolding note_document
  note_document-keeps scalar ws crds v h = h
  note_document-keeps (mapping k n none) ws crds v h = h
  note_document-keeps (mapping k n (some name)) ws crds v h =
      ground (arith, contains-add_once (lower k, (or_else n ns, name)) v ws)

  note_document-keeps_crd :
      (d : Document) (ws : List Workload) (crds : List Text) (c : Text)
      → contains crds c ≡ true
      → contains (note_document ns d (ws, crds)).1 c ≡ true
  unfolding note_document
  note_document-keeps_crd scalar ws crds v h = h
  note_document-keeps_crd (mapping k n none) ws crds v h = h
  note_document-keeps_crd (mapping k n (some name)) ws crds v h =
      ground (arith, contains-append crds (name ∷ []) v)

  pub note_documents-keeps :
      (ds : List Document) (found : Found) (v : Workload)
      → contains found.0 v ≡ true
      → contains (note_documents ns ds found).0 v ≡ true
  unfolding note_documents
  note_documents-keeps [] found v h = h
  note_documents-keeps (d ∷ ds) (ws, crds) v h =
      note_documents-keeps ds (note_document ns d (ws, crds)) v (note_document-keeps d ws crds v h)

  note_documents-keeps_crd :
      (ds : List Document) (found : Found) (c : Text)
      → contains found.1 c ≡ true
      → contains (note_documents ns ds found).1 c ≡ true
  unfolding note_documents
  note_documents-keeps_crd [] found c h = h
  note_documents-keeps_crd (d ∷ ds) (ws, crds) c h =
      note_documents-keeps_crd ds (note_document ns d (ws, crds)) c
        (note_document-keeps_crd d ws crds c h)

  note_document-covers :
      (d : Document) (ws : List Workload) (crds : List Text)
      → let found = note_document ns d (ws, crds) in
        (covers found.0 (workload_of d) ≡ true) × (covers found.1 (crd_of d) ≡ true)
  unfolding note_document
  note_document-covers scalar ws crds = (refl, refl)
  note_document-covers (mapping k n none) ws crds = (refl, refl)
  note_document-covers (mapping k n (some name)) ws crds =
      let w : Workload = (lower k, (or_else n ns, name)) in
      ground (
        arith,
        contains-add_once w w ws,
        beq_refl w,
        contains-append crds (name ∷ []) name,
        contains-singleton name name,
        beq_refl name,
      )

  keep_covered :
      (ds : List Document) (found : Found) (d : Document)
      → (covers found.0 (workload_of d) ≡ true) × (covers found.1 (crd_of d) ≡ true)
      → let last = note_documents ns ds found in
        (covers last.0 (workload_of d) ≡ true) × (covers last.1 (crd_of d) ≡ true)
  keep_covered ds found d (h, g) = (first (workload_of d) h, second (crd_of d) g)
    where
      first :
          (o : Option Workload)
          → covers found.0 o ≡ true
          → covers (note_documents ns ds found).0 o ≡ true
      first none h = refl
      first (some v) h = note_documents-keeps ds found v h

      second :
          (o : Option Text)
          → covers found.1 o ≡ true
          → covers (note_documents ns ds found).1 o ≡ true
      second none h = refl
      second (some v) h = note_documents-keeps_crd ds found v h

  -- Each document's workload or CRD is among those found.
  pub note_documents-covers :
      (ds : List Document) (found : Found)
      → let last = note_documents ns ds found in
        Every (λ d. (covers last.0 (workload_of d) ≡ true) × (covers last.1 (crd_of d) ≡ true)) ds
  unfolding note_documents
  note_documents-covers [] found = tt
  note_documents-covers (d ∷ ds) (ws, crds) =
      let next = note_document ns d (ws, crds) in
      (keep_covered ds next d (note_document-covers d ws crds), note_documents-covers ds next)

  pub note_names-keeps :
      (kind : Text) (names : List Text) (ws : List Workload) (v : Workload)
      → contains ws v ≡ true
      → contains (note_names ns kind names ws) v ≡ true
  unfolding note_names
  note_names-keeps kind [] ws v h = h
  note_names-keeps kind (n ∷ names) ws v h =
      note_names-keeps kind names (add_once (kind, (ns, n)) ws) v
        (ground (arith, contains-add_once (kind, (ns, n)) v ws))

  -- Each labelled workload is among those found.
  pub note_names-covers :
      (kind : Text) (names : List Text) (ws : List Workload)
      → Every (λ n. contains (note_names ns kind names ws) (kind, (ns, n)) ≡ true) names
  unfolding note_names
  note_names-covers kind [] ws = tt
  note_names-covers kind (n ∷ names) ws =
      let w : Workload = (kind, (ns, n)) in
      (
        note_names-keeps kind names (add_once w ws) w
            (ground (arith, contains-add_once w w ws, beq_refl w)),
        note_names-covers kind names (add_once w ws),
      )
