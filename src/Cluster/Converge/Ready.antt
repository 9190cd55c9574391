-- ===== src/Cluster/Converge/Ready.antt =====
-- What has happened when `converge` returns, and what it raises.
use lab_charts.Base.{
  ℕ, true, Option, none, some, List, [], ◌∷◌, ◌≡◌, refl, ap, ◌∙◌, nat_eq, list_eq, pair_eq,
  contains, mem_of_contains, Every, Every-mem, Every-map, subst, sorted, contains-sorted, Text,
  text, ◌++◌,
}
use lab_charts.Cluster.Effects.{
  Failure, is_reported, returned, returned-injective, pure, lift, Returned, Raises, throw-Raises,
  if-Raises, >>=-Raises, >>=-returned, for_each-returned, catch-returned,
}
use lab_charts.Cluster.Tools.{Tools, Release, Document}
use lab_charts.Cluster.Converge.{
  Workload, workload_kinds, kind_leb, Found, note_documents, note_names, labelled, wait_workload,
  wait_all, awaited, wait, explain, install_release, converge,
}
use lab_charts.Cluster.Converge.Laws.{
  covers, workload_of, crd_of, note_documents-covers, note_names-covers, note_names-keeps,
}

module _ (t : Tools) where
  -- `rollout_status` returned for the workload, where there is one
  abbrev pub RolledOut : ℕ → Option Workload → Type 0
  RolledOut timeout none = Unit
  RolledOut timeout (some w) = Returned (t.rollout_status w.0 w.1.1 w.1.0 timeout) tt

  -- `wait_established` returned for the CRD, where there is one
  abbrev pub Established : ℕ → Option Text → Type 0
  Established timeout none = Unit
  Established timeout (some crd) = Returned (t.wait_established crd timeout) tt

  -- the workloads of one kind that carry the release's label
  pub record LabelledReady (r : Release) (timeout : ℕ) (kind : Text) : Type 0 where
    pub names : List Text
    pub listed :
        Returned
          (t.workload_names kind r.namespace (text "app.kubernetes.io/instance=" ++ r.name))
          names
    pub rolled_out : Every (λ n. RolledOut timeout (some (kind, (r.namespace, n)))) names

  -- All of a release's workloads have rolled out and its CRDs are established.
  pub record IsReady (r : Release) : Type 0 where
    pub manifest : Text
    pub documents : List Document
    pub timeout : ℕ
    pub fetched : Returned (t.manifest r.name r.namespace) manifest
    pub parsed : t.parse_yaml_documents manifest ≡ returned documents
    pub limited : t.parse_duration r.timeout ≡ returned timeout
    pub workloads : Every (λ d. RolledOut timeout (workload_of r.namespace d)) documents
    pub crds : Every (λ d. Established timeout (crd_of r.namespace d)) documents
    pub labelled_ready : Every (LabelledReady r timeout) workload_kinds

  -- what `wait_all` has waited for
  record Waited (timeout : ℕ) (found : Found) : Type 0 where
    each_workload : Every (λ w. Returned (wait_workload t timeout w) tt) (sorted kind_leb found.0)
    each_crd : Every (λ crd. Returned (t.wait_established crd timeout) tt) found.1

  wait_all-returned :
      (timeout : ℕ) (found : Found) (w : t.Outside) {w' : t.Outside}
      → wait_all t timeout found.0 found.1 w ≡ (returned tt, w')
      → Waited timeout found
  unfolding wait_all
  wait_all-returned timeout found w h =
      let (_, w1, e, g) = >>=-returned _ _ w h in
      record {
        each_workload = for_each-returned (sorted kind_leb found.0) (wait_workload t timeout) w e;
        each_crd = for_each-returned found.1 (λ crd. t.wait_established crd timeout) w1 g;
      }

  rolled_out_of :
      (timeout : ℕ) (found : Found) (o : Option Workload)
      → Waited timeout found
      → covers found.0 o ≡ true
      → RolledOut timeout o
  unfolding wait_workload
  rolled_out_of timeout found none h c = tt
  rolled_out_of timeout found (some v) h c =
      Every-mem (λ w. Returned (wait_workload t timeout w) tt) (sorted kind_leb found.0)
        h.each_workload
        (mem_of_contains v (sorted kind_leb found.0) (contains-sorted kind_leb found.0 v ∙ c))

  crd_awaited :
      (timeout : ℕ) (found : Found) (o : Option Text)
      → Waited timeout found
      → covers found.1 o ≡ true
      → Established timeout o
  crd_awaited timeout found none h c = tt
  crd_awaited timeout found (some v) h c =
      Every-mem (λ crd. Returned (t.wait_established crd timeout) tt) found.1 h.each_crd
        (mem_of_contains v found.1 c)

  record Listed (r : Release) (ws : List Workload) (kind : Text) : Type 0 where
    names : List Text
    listed :
        Returned
          (t.workload_names kind r.namespace (text "app.kubernetes.io/instance=" ++ r.name))
          names
    covered : Every (λ n. covers ws (some (kind, (r.namespace, n))) ≡ true) names

  -- What the walk over the kinds has found, it keeps.
  record Walked (r : Release) (kinds : List Text) (before after : List Workload) : Type 0 where
    each_kind : Every (Listed r after) kinds
    kept : (v : Workload) → contains before v ≡ true → contains after v ≡ true

  labelled-returned :
      (r : Release) (kinds : List Text) (ws : List Workload) (w : t.Outside) {ws' : List Workload}
      {w' : t.Outside}
      → labelled t r kinds ws w ≡ (returned ws', w')
      → Walked r kinds ws ws'
  unfolding labelled pure
  labelled-returned r [] ws w h = record {
    each_kind = tt;
    kept = λ v c. subst (λ l. contains l v ≡ true) (returned-injective (ap (λ p. p.0) h)) c;
  }
  labelled-returned r (kind ∷ kinds) ws w {ws'} h =
      let (names, w1, e, g) = >>=-returned _ _ w h in
      let rest = labelled-returned r kinds (note_names r.namespace kind names ws) w1 g in
      record {
        each_kind = (
          record {
            names = names;
            listed = record { before = w; after = w1; run = e };
            covered =
                Every-map names (λ n. rest.kept (kind, (r.namespace, n)))
                  (note_names-covers r.namespace kind names ws);
          },
          rest.each_kind,
        );
        kept = λ v c. rest.kept v (note_names-keeps r.namespace kind names ws v c);
      }

  record Awaited (r : Release) (found : Found) : Type 0 where
    manifest : Text
    documents : List Document
    fetched : Returned (t.manifest r.name r.namespace) manifest
    parsed : t.parse_yaml_documents manifest ≡ returned documents
    named :
        Every
          (λ d.
            (covers found.0 (workload_of r.namespace d) ≡ true)
            × (covers found.1 (crd_of r.namespace d) ≡ true))
          documents
    each_kind : Every (Listed r found.0) workload_kinds

  kept_covered :
      {r : Release} {kinds : List Text} {before after : List Workload} (o : Option Workload)
      → Walked r kinds before after
      → covers before o ≡ true
      → covers after o ≡ true
  kept_covered none walk c = refl
  kept_covered (some v) walk c = walk.kept v c

  awaited-returned :
      (r : Release) (w : t.Outside) {found : Found} {w' : t.Outside}
      → awaited t r w ≡ (returned found, w')
      → Awaited r found
  unfolding awaited lift pure
  awaited-returned r w {found} h =
      let (manifest, w1, e1, h1) = >>=-returned _ _ w h in
      let (documents, w2, e2, h2) = >>=-returned _ _ w1 h1 in
      let first = note_documents r.namespace documents ([], []) in
      let (ws, w3, e3, h3) = >>=-returned _ _ w2 h2 in
      let walk = labelled-returned r workload_kinds first.0 w2 e3 in
      let result : (ws, first.1) ≡ found = returned-injective (ap (λ p. p.0) h3) in
      subst (Awaited r) result (record {
        manifest = manifest;
        documents = documents;
        fetched = record { before = w; after = w1; run = e1 };
        parsed = ap (λ p. p.0) e2;
        named =
            Every-map documents (λ d c. (kept_covered (workload_of r.namespace d) walk c.0, c.1))
              (note_documents-covers r.namespace documents ([], []));
        each_kind = walk.each_kind;
      })

  labelled_of :
      {r : Release} (timeout : ℕ) (found : Found) (kind : Text)
      → Waited timeout found
      → Listed r found.0 kind
      → LabelledReady r timeout kind
  labelled_of {r} timeout found kind done l = record {
    names = l.names;
    listed = l.listed;
    rolled_out =
        Every-map l.names (λ n. rolled_out_of timeout found (some (kind, (r.namespace, n))) done)
          l.covered;
  }

  pub explain-Raises :
      {A : Type 0} (r : Release) (step : Text) (x : Failure) → Raises (explain t {A = A} r step x)
  unfolding explain
  explain-Raises r step x =
      if-Raises (is_reported x) (>>=-Raises (t.diagnostics r.namespace) _ (λ d. throw-Raises _))
        (throw-Raises x)

  -- Where `converge` returns, the release has been applied with the status that it returns, its
  -- workloads have rolled out, those that its manifest names and those labelled with its instance,
  -- and the CRDs of its manifest are established.
  pub converge-IsReady :
      (r : Release) (w : t.Outside) {status : Text} {w' : t.Outside}
      → converge t r w ≡ (returned status, w')
      → Returned (install_release t r) status × IsReady r
  unfolding converge wait lift pure
  converge-IsReady r w {status} h =
      let (_, w1, e1, h1) = >>=-returned _ _ w h in
      let (s, w2, e2, h2) = >>=-returned _ _ w1 h1 in
      let (_, w3, e3, h3) = >>=-returned _ _ w2 h2 in
      let applied = catch-returned _ _ w1 (explain-Raises r (text "install")) e2 in
      let waited = catch-returned _ _ w2 (explain-Raises r (text "wait")) e3 in
      let (found, w4, e4, h4) = >>=-returned _ _ w2 waited in
      let (timeout, w5, e5, h5) = >>=-returned _ _ w4 h4 in
      let named = awaited-returned r w2 e4 in
      let done = wait_all-returned timeout found w5 h5 in
      let same : s ≡ status = returned-injective (ap (λ p. p.0) h3) in
      (
        subst (Returned (install_release t r)) same
            (record { before = w1; after = w2; run = applied }),
        record {
          manifest = named.manifest;
          documents = named.documents;
          timeout = timeout;
          fetched = named.fetched;
          parsed = named.parsed;
          limited = ap (λ p. p.0) e5;
          workloads =
              Every-map named.documents
                (λ d c. rolled_out_of timeout found (workload_of r.namespace d) done c.0)
                named.named;
          crds =
              Every-map named.documents
                (λ d c. crd_awaited timeout found (crd_of r.namespace d) done c.1) named.named;
          labelled_ready =
              Every-map workload_kinds (λ kind. labelled_of {r = r} timeout found kind done)
                named.each_kind;
        },
      )
