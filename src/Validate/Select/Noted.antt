-- ===== src/Validate/Select/Noted.antt =====
-- What the files examined so far have noted: rows that are known, each for a file among them.
use lab_charts.Base.{
  Bool, true, false, ◌&&◌, Option, none, some, List, [], ◌∷◌, ◌++◌, any, any_of_mem, all,
  all_of_mem, contains, contains_of_mem, Memᴰ, Every, Every-of_mem, nat_eq, list_eq, pair_eq, ◌==◌,
  ◌≡◌, refl, sym, subst, arith, inl, inr, Bool-cases, eq_of_beq, beq_refl, if◌then◌else◌, Text,
  text,
}
use lab_charts.Charts.Result.{Key}
use lab_charts.Workspace.{path_of, as_posix, PurePath, pattern_matches}
use lab_charts.Validate.Triggers.{TriggerSpec, Triggered, is_chart_wide, triggered}
use lab_charts.Validate.Triggers.Laws.{triggered-IsTriggered}
use lab_charts.Validate.Select.{
  ReasonCode, validation_trigger, helm_dependent, Reason, RowSource, Files, ByFile, Specs, Examined,
  put_file, put_reason, select_envs, find_spec, reason_for, every_env, fanout_patterns,
  fanout_reason, note_dependents, note_unmatched, note_triggered, note_file, note_chart, is_unknown,
  note_owned, note_owner, examine, examine_all, fanout_charts, fanout_all, lifecycle_filename,
}

-- `specs[chart].environments[env]` is there
unfoldable pub known_row : Specs → Key → Bool
known_row specs (chart, env) =
    any (λ (s : Text × TriggerSpec). s.0 == chart && contains s.1.environments env) specs

module _ (w : RowSource) (specs : Specs) (raws : List Text) where
  -- a reason stands under the changed file that it is for
  abbrev pub IsFile : Text × Reason → Type 0
  IsFile (raw, reason) = (contains raws raw ≡ true) × (reason.changed_file ≡ as_posix (path_of raw))

  abbrev pub IsCalled : Key × Files → Type 0
  IsCalled (key, files) = (known_row specs key ≡ true) × Every IsFile files

  put_file-Every :
      (raw : Text) (reason : Reason) (files : Files)
      → IsFile (raw, reason)
      → Every IsFile files
      → Every IsFile (put_file raw reason files)
  unfolding put_file
  put_file-Every raw reason [] f h = (f, tt)
  put_file-Every raw reason ((r, old) ∷ rest) f h = elim (Bool-cases (r == raw)) [
    | inl e ↦ rw e ((subst (λ x. IsFile (x, reason)) (sym (eq_of_beq e)) f), h.1)
    | inr e ↦ rw e (h.0, put_file-Every raw reason rest f h.1)
  ]

  put_reason-Every :
      (key : Key) (raw : Text) (reason : Reason) (by_file : ByFile)
      → known_row specs key ≡ true
      → IsFile (raw, reason)
      → Every IsCalled by_file
      → Every IsCalled (put_reason key raw reason by_file)
  unfolding put_reason
  put_reason-Every key raw reason [] k f h = ((k, (f, tt)), tt)
  put_reason-Every key raw reason ((k', files) ∷ rest) k f h = elim (Bool-cases (k' == key)) [
    | inl e ↦ rw e ((h.0.0, put_file-Every raw reason files f h.0.1), h.1)
    | inr e ↦ rw e (h.0, put_reason-Every key raw reason rest k f h.1)
  ]

  select_envs-Every :
      (chart : Text) (envs : List Text) (raw : Text) (reason : Reason) (by_file : ByFile)
      → Every (λ env. known_row specs (chart, env) ≡ true) envs
      → IsFile (raw, reason)
      → Every IsCalled by_file
      → Every IsCalled (select_envs chart envs raw reason by_file)
  unfolding select_envs
  select_envs-Every chart [] raw reason by_file k f h = h
  select_envs-Every chart (env ∷ rest) raw reason by_file k f h =
      select_envs-Every chart rest raw reason (put_reason (chart, env) raw reason by_file) k.1 f
        (put_reason-Every (chart, env) raw reason by_file k.0 f h)

  -- the environments of a chart that is there are rows
  abbrev IsSpec : Text → TriggerSpec → Type 0
  IsSpec chart spec =
      (env : Text) → contains spec.environments env ≡ true → known_row specs (chart, env) ≡ true

  all_known :
      (chart : Text) (spec : TriggerSpec) (envs : List Text)
      → IsSpec chart spec
      → all (contains spec.environments) envs ≡ true
      → Every (λ env. known_row specs (chart, env) ≡ true) envs
  unfolding all
  all_known chart spec [] s h = tt
  all_known chart spec (env ∷ rest) s h =
      (s env (ground arith), all_known chart spec rest s (ground arith))

  own_environments : (xs : List Text) → all (contains xs) xs ≡ true
  own_environments xs = all_of_mem (contains xs) xs (λ a m. contains_of_mem m)

  mem-IsSpec : (chart : Text) (spec : TriggerSpec) → Memᴰ (chart, spec) specs → IsSpec chart spec
  unfolding known_row
  mem-IsSpec chart spec m env h =
      any_of_mem (λ (s : Text × TriggerSpec). s.0 == chart && contains s.1.environments env) m
        (rw (beq_refl chart) h)

  -- what `find_spec` gives for a chart
  abbrev IsFound : Text → Option TriggerSpec → Type 0
  IsFound chart none = Unit
  IsFound chart (some spec) = IsSpec chart spec

  find_spec-IsFound :
      (chart : Text) (some_specs : Specs)
      → Every (λ (s : Text × TriggerSpec). IsSpec s.0 s.1) some_specs
      → IsFound chart (find_spec chart some_specs)
  unfolding find_spec
  find_spec-IsFound chart [] h = tt
  find_spec-IsFound chart ((name, spec) ∷ rest) h = elim (Bool-cases (name == chart)) [
    | inl e ↦ rw e (subst (λ x. IsSpec x spec) (eq_of_beq e) h.0)
    | inr e ↦ rw e (find_spec-IsFound chart rest h.1)
  ]

  each-IsSpec : Every (λ (s : Text × TriggerSpec). IsSpec s.0 s.1) specs
  each-IsSpec =
      Every-of_mem (λ (s : Text × TriggerSpec). IsSpec s.0 s.1) specs (λ s m. mem-IsSpec s.0 s.1 m)

  every_env-Every :
      (chart : Text) (spec : Option TriggerSpec) (raw : Text) (code : ReasonCode) (detail : Text)
      (by_file : ByFile)
      → IsFound chart spec
      → contains raws raw ≡ true
      → Every IsCalled by_file
      → Every IsCalled (every_env w specs chart spec raw code detail by_file)
  unfolding every_env reason_for
  every_env-Every chart none raw code detail by_file s r h = h
  every_env-Every chart (some spec) raw code detail by_file s r h =
      select_envs-Every chart spec.environments raw (reason_for code raw detail) by_file
        (all_known chart spec spec.environments s (own_environments spec.environments)) (r, refl) h

  note_dependents-Every :
      (chart : Text) (dependents : List Text) (raw : Text) (by_file : ByFile)
      → contains raws raw ≡ true
      → Every IsCalled by_file
      → Every IsCalled (note_dependents w specs chart dependents raw by_file)
  unfolding note_dependents
  note_dependents-Every chart [] raw by_file r h = h
  note_dependents-Every chart (d ∷ rest) raw by_file r h =
      note_dependents-Every chart rest raw _ r (
        every_env-Every d (find_spec d specs) raw helm_dependent
          (d ++ (text " declares a Helm dependency on " ++ chart)) by_file
          (find_spec-IsFound d specs each-IsSpec) r h)

  abbrev IsSeen : Examined → Type 0
  IsSeen seen = Every IsCalled seen.by_file × Every IsFile seen.fanout

  note_unmatched-IsSeen :
      (spec : TriggerSpec) (raw : Text) (matched : Bool) (seen : Examined)
      → IsSeen seen
      → IsSeen (note_unmatched w specs spec raw matched seen)
  unfolding note_unmatched
  note_unmatched-IsSeen spec raw true seen h = h
  note_unmatched-IsSeen spec raw false seen h = h

  note_triggered-IsSeen :
      (chart : Text) (spec : TriggerSpec) (raw : Text) (found : Triggered) (seen : Examined)
      → IsSpec chart spec
      → all (contains spec.environments) found.envs ≡ true
      → contains raws raw ≡ true
      → IsSeen seen
      → IsSeen (note_triggered w specs chart spec raw found seen)
  unfolding note_triggered reason_for
  note_triggered-IsSeen chart spec raw found seen s k r h =
      let noted = note_unmatched-IsSeen spec raw found.matched seen h in
      (
        select_envs-Every chart found.envs raw _ _ (all_known chart spec found.envs s k) (r, refl)
            noted.0,
        noted.1,
      )

  note_file-IsSeen :
      (chart : Text) (spec : Option TriggerSpec) (relative : PurePath) (raw : Text)
      (seen : Examined)
      → IsFound chart spec
      → contains raws raw ≡ true
      → IsSeen seen
      → IsSeen (note_file w specs chart spec relative raw seen)
  unfolding note_file
  note_file-IsSeen chart none relative raw seen s r h = h
  note_file-IsSeen chart (some spec) relative raw seen s r h =
      elim (Bool-cases (any (λ p. w.fnmatchcase (as_posix relative) p) spec.trigger_ignores)) [
        | inl e ↦ rw e h
        | inr e ↦ rw e (
            note_triggered-IsSeen chart spec raw (triggered w.fnmatchcase spec relative) seen s
              (triggered-IsTriggered w.fnmatchcase spec relative).known r h)
      ]

  note_chart-IsSeen :
      (chart : Text) (spec : Option TriggerSpec) (relative : PurePath) (raw : Text)
      (seen : Examined)
      → IsFound chart spec
      → contains raws raw ≡ true
      → IsSeen seen
      → IsSeen (note_chart w specs chart spec relative raw seen)
  unfolding note_chart
  note_chart-IsSeen chart spec relative raw seen s r h =
      elim (Bool-cases (is_chart_wide lifecycle_filename relative)) [
        | inl e ↦
            rw e (every_env-Every chart spec raw validation_trigger _ seen.by_file s r h.0, h.1)
        | inr e ↦ rw e (note_file-IsSeen chart spec relative raw seen s r h)
      ]

  note_owned-IsSeen :
      (chart : Text) (spec : Option TriggerSpec) (relative : PurePath) (raw : Text)
      (seen : Examined)
      → IsFound chart spec
      → contains raws raw ≡ true
      → IsSeen seen
      → IsSeen (note_owned w specs chart spec relative raw seen)
  unfolding note_owned
  note_owned-IsSeen chart spec relative raw seen s r h =
      elim (Bool-cases (relative.names == lifecycle_filename ∷ [] && is_unknown w specs spec)) [
        | inl e ↦ rw e h
        | inr e ↦ rw e (
            note_chart-IsSeen chart spec relative raw _ s r
              (note_dependents-Every chart (w.dependents chart) raw seen.by_file r h.0, h.1))
      ]

  note_owner-IsSeen :
      (owner : Option Text) (raw : Text) (seen : Examined)
      → contains raws raw ≡ true
      → IsSeen seen
      → IsSeen (note_owner w specs owner raw seen)
  unfolding note_owner
  note_owner-IsSeen none raw seen r h = h
  note_owner-IsSeen (some chart) raw seen r h =
      note_owned-IsSeen chart (find_spec chart specs) _ raw seen
        (find_spec-IsFound chart specs each-IsSpec) r h

  changed_file-reason_for :
      (b : Bool) (raw : Text) (f g : Reason)
      → f.changed_file ≡ as_posix (path_of raw)
      → g.changed_file ≡ as_posix (path_of raw)
      → (if b then f else g).changed_file ≡ as_posix (path_of raw)
  changed_file-reason_for true raw f g p q = p
  changed_file-reason_for false raw f g p q = q

  fanout_reason-IsFile :
      (raw : Text) → (fanout_reason w specs raw).changed_file ≡ as_posix (path_of raw)
  unfolding fanout_reason reason_for
  fanout_reason-IsFile raw = changed_file-reason_for _ raw _ _ refl refl

  Every-append :
      (files : Files) (file : Text × Reason)
      → Every IsFile files
      → IsFile file
      → Every IsFile (files ++ file ∷ [])
  Every-append [] file h f = (f, tt)
  Every-append (x ∷ xs) file h f = (h.0, Every-append xs file h.1 f)

  examine-IsSeen :
      (raw : Text) (seen : Examined)
      → contains raws raw ≡ true
      → IsSeen seen
      → IsSeen (examine w specs raw seen)
  unfolding examine
  examine-IsSeen raw seen r h =
      elim (Bool-cases (
        any (λ pattern. pattern_matches w.fnmatchcase pattern (path_of raw))
          (fanout_patterns w specs))) [
            | inl e ↦ rw e (h.0, Every-append seen.fanout _ h.1 (r, fanout_reason-IsFile raw))
            | inr e ↦ rw e (note_owner-IsSeen _ raw seen r h)
          ]

  pub examine_all-IsSeen :
      (some_raws : List Text) (seen : Examined)
      → Every (λ raw. contains raws raw ≡ true) some_raws
      → IsSeen seen
      → IsSeen (examine_all w specs some_raws seen)
  unfolding examine_all
  examine_all-IsSeen [] seen r h = h
  examine_all-IsSeen (raw ∷ rest) seen r h =
      examine_all-IsSeen rest (examine w specs raw seen) r.1 (examine-IsSeen raw seen r.0 h)

  fanout_charts-Every :
      (some_specs : Specs) (raw : Text) (reason : Reason) (by_file : ByFile)
      → Every (λ (s : Text × TriggerSpec). IsSpec s.0 s.1) some_specs
      → IsFile (raw, reason)
      → Every IsCalled by_file
      → Every IsCalled (fanout_charts w specs some_specs raw reason by_file)
  unfolding fanout_charts
  fanout_charts-Every [] raw reason by_file s f h = h
  fanout_charts-Every ((name, spec) ∷ rest) raw reason by_file s f h =
      fanout_charts-Every rest raw reason (select_envs name spec.environments raw reason by_file)
        s.1 f
        (select_envs-Every name spec.environments raw reason by_file
          (all_known name spec spec.environments s.0 (own_environments spec.environments)) f h)

  pub fanout_all-Every :
      (files : Files) (by_file : ByFile)
      → Every IsFile files
      → Every IsCalled by_file
      → Every IsCalled (fanout_all w specs files by_file)
  unfolding fanout_all
  fanout_all-Every [] by_file f h = h
  fanout_all-Every ((raw, reason) ∷ rest) by_file f h =
      fanout_all-Every rest (fanout_charts w specs specs raw reason by_file) f.1
        (fanout_charts-Every specs raw reason by_file each-IsSpec f.0 h)
