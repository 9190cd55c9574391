-- ===== src/Promote/Report.antt =====
-- commands/promote/report.py: the parts of a failure report that the stages share.
use lab_charts.Base.{
  Option, none, some, List, [], ◌∷◌, ◌++◌, map, strip, nat_eq, list_eq, ◌==◌, if◌then◌else◌, Text,
  text,
}
use lab_charts.Cluster.Effects.{Failure, message_of, stderr_of}
use lab_charts.Plumbing.Lines.{truncate_lines}
use lab_charts.Promote.State.{Verdict, verdict_value, ReasonLike, reason_text, cut}
use lab_charts.Promote.Status.{HelmReleaseRef, HelmReleaseStatus, ConditionSnapshot, condition}

-- `name or "(none)"`
unfoldable pub or_none : Text → Text
or_none name = if name == [] then text "(none)" else name

unfoldable pub header : HelmReleaseRef → Verdict → ReasonLike → Text
unfolding or_none
header ref verdict reason =
    text "## "
    ++ (or_none ref.namespace
        ++ (text "/"
            ++ (or_none ref.name
                ++ (text " - " ++ (verdict_value verdict ++ (text ": " ++ reason_text reason))))))

unfoldable pub condition_row : Text → Option ConditionSnapshot → Text
condition_row type none = text "- " ++ (type ++ text ": (absent)")
condition_row type (some c) =
    text "- "
    ++ (type
        ++ (text ": " ++ (c.status ++ (text " (" ++ (c.reason ++ (text ") - " ++ c.message))))))

unfoldable pub conditions : HelmReleaseStatus → List Text → List Text
unfolding condition_row
conditions s types = text "\n### Status" ∷ map (λ type. condition_row type (condition s type)) types

unfoldable pub failure_detail : Failure → Text
failure_detail x = cut (strip (if stderr_of x == [] then message_of x else stderr_of x))

-- `capped_events`, with EVENTS_LINE_CAP
unfoldable pub capped_events : Text → Text
capped_events events = truncate_lines events 80
