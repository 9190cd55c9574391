-- ===== src/Cluster/Tests.antt =====
-- Releases converged and a cluster bootstrapped at concrete inputs.
use lab_charts.Base.{
  true, none, some, List, [], ◌∷◌, refl, list_beq, pair_beq, contains, add_once, sorted, text,
  insert_sorted,
}
use lab_charts.Cluster.Effects.{Returned, pure, lift, catch, ◌>>=◌, for_each}
use lab_charts.Cluster.Converge
use lab_charts.Cluster.Converge.{converge, install_release}
use lab_charts.Cluster.Converge.Ready.{IsReady, converge-IsReady}
use lab_charts.Cluster.Releases.{repo_release}
use lab_charts.Cluster.Bootstrap.{BootstrapStep, BootstrapOutcome, Session}
use lab_charts.Cluster.Samples.{sample_tools, sample_release}

converge-IsReady_example :
    Returned (install_release sample_tools sample_release) (text "applied")
    × IsReady sample_tools sample_release
unfolding converge contains list_beq text pair_beq add_once sorted insert_sorted ◌>>=◌ catch lift
    pure for_each Converge.kind_leb
converge-IsReady_example = converge-IsReady sample_tools sample_release 0 {w' = 0} refl

abbrev lab_session : Session
lab_session = record { name = text "lab"; context = text "kind-lab" }

abbrev lab_steps : List BootstrapStep
lab_steps =
    record {
      authored = record {
        source =
            repo_release
              (record {
                name = text "cni";
                namespace = text "kube-system";
                values = [];
                timeout = text "5m";
              })
              (text "https://example.org") (text "cni") (text "1.0.0");
        runtime_values = (text "host", text "${kind.controlPlaneHost}") ∷ [];
        readiness = some (record { nodes_ready = true; workloads_ready = none });
      };
      entries = [];
    }
    ∷ []

abbrev lab_outcomes : List BootstrapOutcome
lab_outcomes =
    record {
      name = text "cni";
      profile = text "1.0.0";
      namespace = text "kube-system";
      status = text "applied";
    }
    ∷ []
