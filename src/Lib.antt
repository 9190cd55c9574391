-- ===== src/Lib.antt =====
-- Verification library for chart-manager (src/chart_manager): the decisions and the state of its
-- promotion stages, what a chart test does and in which order, how the releases of a cluster are
-- installed and waited for, what a change set selects and how its charts are validated, what a
-- promotion's pull request and an upgrade's finaliser write, and the names of chart releases and
-- versions.
--
-- The program's parts and their models
--
-- Promotion (src/chart_manager/commands/promote). A stage lists the HelmReleases of a chart, runs
-- one worker thread for each, collects their outcomes and brackets the run with two kinds of
-- events.
--   state.py      Promote/State.antt, laws in Promote/State/Verdicts.antt: the enums and the tables
--                 between them, `coerce_reason`, `run_verdict`.
--   classify.py   Promote/Classify.antt, laws in Promote/Classify/Laws.antt: `classify`, one
--                 definition for each of its early returns (`suspended_stop`, `stalled_stop`,
--                 `ready_stop`, `test_stop`) and one for the rest (`converging`).
--   monitor.py    Promote/Monitor.antt: `_poll_until_terminal`, `_evaluate`, `_poll`,
--                 `_list_workloads`, `_record_deduped` and `_cancelled` as state-passing steps
--                 (Promote/Action.antt) on a `Context`: the fields of `_WatchState` and the outside.
--                 Promote/Monitor/Watch.antt: `watch` and `_finalize`. The steps' laws stand in
--                 Promote/Monitor/Steps.antt and Explained.antt, the loop's in Ends.antt, those of a
--                 whole watch in Watch/Laws.antt.
--   fanout.py     Promote/Fanout.antt: `run_fanout`, `run_matched`, `RunResult`, `sorted_by_ref`;
--                 Promote/Request.antt: `check_request`, with `require_positive_seconds` of
--                 src/chart_manager/plumbing/duration.py. Laws in
--                 Promote/Fanout/Laws.antt.
--   test.py       Promote/HelmTest.antt: `_pipeline` with its phases `_preflight`, `_reap` and
--                 `_run_helm`, and how each ends (`Ending`); Promote/HelmTest/Finish.antt:
--                 `_test_one`, `_finalize`, the diagnostics and the snapshots of test pods. Laws of
--                 the phases in HelmTest/Tested.antt, of an outcome in HelmTest/Outcomes.antt.
--   report.py     Promote/Report.antt: the failure report and its causes.
--   scanner.py    Promote/Scanner.antt: the HelmReleases of a chart in the clone's files.
--   editor.py     Promote/Editor.antt: the rewriting of their version, which a second scan reads in
--                 Editor/Rescan.antt.
--   pr.py         Promote/PullRequest.antt: `_promote_in_workdir`, with the steps from the drift
--   to the
--                 pull request, and `run`; laws in PullRequest/Promoted.antt.
--   telemetry.py  Promote/Telemetry.antt: what a run appends to the event ledger; laws in
--                 Promote/Telemetry/Laws.antt.
-- Promote/Status.antt holds the HelmRelease data of src/chart_manager/integrations/kubectl.py.
--
-- Charts (src/chart_manager/shared/charts).
--   lifecycle.py     Charts/Lifecycle.antt: the capability gate.
--   install_plan.py  Charts/InstallPlan.antt: the depth-first search, its locals as a record
--                    `Search`. InstallPlan/Invariant.antt holds what a visit preserves, Order.antt
--                    the order of the plan, Reach.antt and Depth.antt its termination, Cycles.antt
--                    the cycles that it reports.
--
-- Clusters (src/chart_manager/shared/cluster). The calls of the tools are effects
-- (Cluster/Effects.antt: an answer, one of the exceptions that a handler tells apart, or another
-- exception, on a state of the outside, which a progress event changes too); Cluster/Tools.antt is
-- the record of them.
--   releases.py   Cluster/Releases.antt: a release as it is applied and ready, and its failure.
--   converge.py   Cluster/Converge.antt: `converge`, the waits and the diagnostics of a failure.
--                 Converge/Laws.antt says what a call that returned did, Ready.antt and
--                 Failures.antt what `converge` as a whole returns and raises.
--   bootstrap.py  Cluster/Bootstrap.antt: resolving, linting and verifying the environment's
--                 releases; Bootstrap/Install.antt: runtime values, readiness gates and the steps;
--                 laws in Bootstrap/Laws.antt.
--   session.py    Cluster/Session.antt: attaching, finding, provisioning and deleting a cluster.
--
-- Chart tests (src/chart_manager/commands/test).
--   plan.py    Test/Plan.antt: `compile_plan`, over the install plans of the charts that it is asked
--              for. Test/Plan/Merging.antt holds the merged entries, Laws.antt which actions an entry
--              gets, Skips.antt which entries are left out, Compiled.antt the plan as a whole.
--   hooks.py   Test/Hooks.antt: a hook's command, its environment and its run.
--   run.py     Test/Run.antt: the loop over the actions of a plan; Run/Report.antt and
--              Run/Success.antt hold its laws. Test/Command.antt: `plan`, `run` and `teardown`, laws
--              in Command/Outcomes.antt, Teardown.antt and Cleanups.antt.
--   select.py  Test/Select.antt: the chart tests that changed files, a list of charts or all
--              charts call for; why each is selected in Select/Causes.antt.
-- The command compiles its plan (Test/Plan), bootstraps the cluster (Cluster/Bootstrap), performs the
-- actions (Test/Run, over Cluster/Converge and Test/Hooks) and tears down.
--
-- Upgrades (src/chart_manager/commands/upgrade): models.py is Upgrade/Models.antt; of finalize.py,
-- Upgrade/Changelog.antt is the changelog's section (laws in Changelog/Laws.antt, Laws/Again.antt and
-- Entry.antt) and Upgrade/Finalize.antt `run`, `_decide`, `_write` and what they call, on the
-- files of a chart as values; a second run is Finalize/Again.antt, by what it decides
-- (Finalize/Decisions.antt) and the heading that it writes (Finalize/Headings.antt).
--
-- Workspace.antt is src/chart_manager/shared/workspace.py: the chart that owns a path and the
-- paths that a pattern covers, with an independent reading of a pattern in Workspace/Matching.antt.
-- Validate/Triggers.antt is `_triggered` of src/chart_manager/commands/validate/select.py, its laws
-- Validate/Triggers/Laws.antt; Validate/Select.antt is its `_reasons_for`, with what it selects in
-- Validate/Select/Rows.antt and what it has noted before in Select/Noted.antt.
-- Validate/Models.antt is models.py there, with the reports of the two tools; Validate/Check.antt and
-- Validate/Check/Steps.antt the checks of one row of run.py, what a passed
-- rendering has done in Check/Rendering.antt, their order in Check/InOrder.antt;
-- Validate/Run.antt its `run`, with the rows that are named and the stop at a failure, and what it
-- returns in Run/Validated.antt; the exit reason is Models/Outcomes.antt.
-- Publish/Select.antt is src/chart_manager/commands/publish/select.py. Plumbing/Lines.antt is
-- src/chart_manager/plumbing/text.py, its laws Plumbing/Lines/Bounds.antt.
-- Plumbing/SemVer.antt is src/chart_manager/plumbing/semver.py, with reading back in
-- SemVer/RoundTrip.antt, by the laws of SemVer/Pieces.antt;
-- Plumbing/Yaml.antt holds the values that src/chart_manager/plumbing/yaml_files.py loads.
--
-- Events (src/chart_manager/shared/events): model.py and the composing half of writer.py are
-- Events/Model.antt; ref.py is Events/Ref.antt, its laws Events/Ref/RoundTrip.antt. Exit codes
-- (src/chart_manager/plumbing/exit_codes.py) are Plumbing/ExitCodes.antt. Base holds the shared
-- helpers: Boolean tests, lists, equality, texts (lists of code points) and sorting. The
-- modules called Tests evaluate the model at concrete inputs, those called Samples hold their data.
--
-- Parameters
--
-- Promote/World.antt is what a watcher meets outside itself: the clock, sleep, the random jitter,
-- the cancel flag, the progress callback and the two kubectl calls, each a function on a state
-- `Outside` of its own. A call gives an answer, a failed command, or an exception that the watcher
-- does not handle. `IsMonotonic` says of it that no call runs the clock backwards and that a sleep
-- lasts as long as it was asked to. In Charts, `Checkout` is what `load_chart` returns and which
-- files exist; `IsNamed` is the check that `load_chart` makes of a chart's name, and
-- `IsQuiet` says that it reports no dependency cycle. In Test,
-- `Surroundings` adds how a path resolves, which executables a hook may name, and which releases
-- the environment owns. The order in which futures complete is an argument of `run_fanout`.
-- `Tools` of Cluster/Tools.antt are the calls of helm, kubectl, kind and the hook runner, the
-- reading of YAML and of durations; `Setting` of Test/Command.antt adds what the command finds in the
-- workspace; `Lab` of Promote/HelmTest.antt the calls of a helm-test run. `Repository`, `Repo` and
-- `RowSource` are what a checkout holds. `Flux` of Promote/PullRequest.antt are the calls of git
-- and gh, the clone's files and the operator's answer, `Tree` of Promote/Scanner.antt the files
-- that are scanned, `CheckTools` of Validate/Check.antt and `Given` of Validate/Run.antt what a
-- validation calls; what `str` makes of a mapping is a function. `fnmatch.fnmatchcase` is a
-- function on a name and a pattern.
--
-- Numbers, bounds and fuel
--
-- Times are natural numbers of milliseconds in place of floats; counters are natural numbers, as
-- Python's integers are unbounded. The loop of a watch takes fuel, a bound on its turns: a turn that
-- goes on sleeps one poll interval, so the per-HR budget over the poll interval, and one more, are
-- enough. The search of an install plan takes fuel, a bound on its depth: a visit that goes deeper
-- adds a profile to those being visited, so one more than the profiles that can be reached is
-- enough.
--
-- Texts are lists of code points: `str.lower` is written out for ASCII, and a lone surrogate, which
-- Python refuses to encode, counts as three bytes.
-- `\d` of an upgrade's loose version is read as an ASCII digit, a chart's name and path are printed
-- as texts without quotes in them, and a number's digits are read without Python's limit.
--
-- Not modelled
--
-- Logging, the text of a watch's diagnostics (a parameter), uuids and timestamps of events, the
-- event stores, YAML parsing and its validation, the parsing of durations (floats), kubectl, helm,
-- git, gh and the other external programs, the command line, and the local and grafana commands. Of
-- publishing only the selection is modelled, of validation not the
-- preparation of schemas; of upgrades the finaliser, without the reading of its baseline and its
-- check for symbolic links.
mod Base
pub mod Plumbing
pub mod Events
pub mod Charts
pub mod Promote
pub mod Test
pub mod Cluster
pub mod Workspace
pub mod Publish
pub mod Validate
pub mod Upgrade
