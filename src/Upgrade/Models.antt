-- ===== src/Upgrade/Models.antt =====
-- commands/upgrade/models.py: what is read of Renovate's update metadata.
use lab_charts.Base.{Bool, ◌&&◌, ◌||◌, [], ◌∷◌, contains, nat_eq, list_eq, ◌==◌, Text, text, lower}
use lab_charts.Plumbing.ExitCodes.{Outcome}

pub data UpgradeStatus : Type 0 where
  dry_run no_changes pr_open pr_updated status_unknown : UpgradeStatus

-- UPGRADE_OUTCOME
unfoldable pub upgrade_outcome : UpgradeStatus → Outcome
upgrade_outcome status_unknown = Outcome.tool
upgrade_outcome _ = Outcome.success

pub record UpdateMetadata : Type 0 where
  pub dependency : Text
  pub current_version : Text
  pub new_version : Text
  pub manager : Text
  pub datasource : Text
  pub update_type : Text

unfoldable pub is_chart_dependency : UpdateMetadata → Bool
is_chart_dependency u =
    contains (text "helmv3" ∷ (text "helm-requirements" ∷ [])) (lower u.manager)
    || lower u.datasource == text "helm"

unfoldable pub is_container_image : UpdateMetadata → Bool
is_container_image u =
    contains (text "docker" ∷ (text "dockerfile" ∷ [])) (lower u.datasource)
    || contains (text "dockerfile" ∷ (text "docker-compose" ∷ (text "kubernetes" ∷ [])))
        (lower u.manager)

unfoldable pub qualifies : UpdateMetadata → Bool
unfolding is_chart_dependency is_container_image
qualifies u = is_chart_dependency u || is_container_image u

unfoldable pub update_beq : UpdateMetadata → UpdateMetadata → Bool
update_beq a b =
    a.dependency == b.dependency
    && (a.current_version == b.current_version
        && (a.new_version == b.new_version
            && (a.manager == b.manager
                && (a.datasource == b.datasource && a.update_type == b.update_type))))
