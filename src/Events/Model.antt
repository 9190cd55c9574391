-- ===== src/Events/Model.antt =====
-- shared/events/model.py and the composing half of shared/events/writer.py: what one lifecycle
-- event says. The event's uuid and its timestamp are drawn from outside and are left out.
use lab_charts.Base.{ℕ, ◌++◌, Option, none, some, List, Text, text}

pub data BuildPhase : Type 0 where
  pr_open validating validation_ok validation_fail merged preview_published published : BuildPhase

pub data PromotionPhase : Type 0 where
  detected flux_pr_open awaiting_merge waiting_rollout rollout_ok : PromotionPhase
  helm_test_run helm_test_ok helm_test_failed promoted reached_prod abandoned : PromotionPhase

-- an event's `detail`: a dictionary of texts and numbers
pub data DetailValue : Type 0 where
  word : Text → DetailValue
  number : ℕ → DetailValue

abbrev pub Detail : Type 0
Detail = List (Text × DetailValue)

pub record PlatformLifecycleEvent : Type 0 where
  pub correlation_id : Text
  pub build_correlation_id : Option Text
  pub promotion_correlation_id : Option Text
  pub chart_name : Text
  pub chart_version : Option Text
  pub images : List Text
  pub environment : Option Text
  pub build_phase : Option BuildPhase
  pub promotion_phase : Option PromotionPhase
  pub source : Text
  pub pr_url : Option Text
  pub git_sha : Option Text
  pub detail : Option Detail
  pub idempotency_key : Option Text

-- an optional value in an f-string
show_option : Option Text → Text
show_option none = text "None"
show_option (some t) = t

-- `f"{chart_name}@{chart_version}"`
unfoldable pub correlation : Text → Option Text → Text
unfolding show_option
correlation chart_name chart_version = chart_name ++ (text "@" ++ show_option chart_version)

pub record Links : Type 0 where
  pub images : List Text
  pub build_correlation_id : Option Text
  pub promotion_correlation_id : Option Text
  pub pr_url : Option Text
  pub git_sha : Option Text
  pub detail : Option Detail

unfoldable pub compose_build :
    (source chart_name : Text)
    → Option Text
    → BuildPhase
    → Links
    → (idempotency_key : Option Text) → PlatformLifecycleEvent
unfolding correlation
compose_build source chart_name chart_version phase links idempotency_key = record {
  correlation_id = correlation chart_name chart_version;
  build_correlation_id = links.build_correlation_id;
  promotion_correlation_id = none;
  chart_name = chart_name;
  chart_version = chart_version;
  images = links.images;
  environment = none;
  build_phase = some phase;
  promotion_phase = none;
  source = source;
  pr_url = links.pr_url;
  git_sha = links.git_sha;
  detail = links.detail;
  idempotency_key = idempotency_key;
}

unfoldable pub compose_promote :
    (source chart_name chart_version environment : Text)
    → PromotionPhase
    → Links
    → PlatformLifecycleEvent
unfolding correlation
compose_promote source chart_name chart_version environment phase links = record {
  correlation_id = correlation chart_name (some chart_version);
  build_correlation_id = links.build_correlation_id;
  promotion_correlation_id = links.promotion_correlation_id;
  chart_name = chart_name;
  chart_version = some chart_version;
  images = links.images;
  environment = some environment;
  build_phase = none;
  promotion_phase = some phase;
  source = source;
  pr_url = links.pr_url;
  git_sha = links.git_sha;
  detail = links.detail;
  idempotency_key = none;
}
