-- ===== src/Api.antt =====
-- api/v1alpha1/shared_types.go, build_types.go and app_types.go: the custom resources, without the
-- fields that no modelled operation reads.
use orkano.Prelude.{ℕ, Text, lit, List, Option, Bool}

pub record GitHubSource : Type 0 where
  pub repo : Text
  pub ref : Text

pub record GitSource : Type 0 where
  pub url : Text
  pub ref : Text

pub record UploadSource : Type 0 where
  pub digest : Text
  pub file_name : Text

pub record Source : Type 0 where
  pub github : Option GitHubSource
  pub git : Option GitSource
  pub upload : Option UploadSource
  pub sub_path : Text

abbrev pub strategy_nixpacks : Text
strategy_nixpacks = lit "Nixpacks"

pub record BuildStrategy : Type 0 where
  pub strategy : Text
  pub dockerfile_path : Option Text
  pub static_dir : Option Text
  pub nixpacks_config_path : Option Text

-- `AppSpec`, as far as the gates and the dispatcher read it.
pub record AppSpec : Type 0 where
  pub source : Source
  pub build : BuildStrategy

pub record App : Type 0 where
  pub name : Text
  pub namespace : Text
  pub spec : AppSpec

pub record BuildSpec : Type 0 where
  pub app_name : Text
  pub commit : Text
  pub source : Source
  pub strategy : BuildStrategy
  pub timeout_seconds : ℕ

-- `BuildPhase`; a new build has none.
pub data BuildPhase : Type 0 where
  unset : BuildPhase
  pending : BuildPhase
  running : BuildPhase
  succeeded : BuildPhase
  failed : BuildPhase

pub record JobReference : Type 0 where
  pub namespace : Text
  pub name : Text

-- `metav1.Condition`, as the controllers fill it in; its transition time is the library's.
pub record Condition : Type 0 where
  pub kind : Text
  pub holds : Bool
  pub reason : Text
  pub message : Text
  pub observed_generation : ℕ

pub record BuildStatus : Type 0 where
  pub observed_generation : ℕ
  pub phase : BuildPhase
  pub image : Text
  pub job_ref : Option JobReference
  pub started_at : Option ℕ
  pub completed_at : Option ℕ
  pub conditions : List Condition

pub record Build : Type 0 where
  pub name : Text
  pub namespace : Text
  pub generation : ℕ
  pub deleted : Bool
  pub finalizers : List Text
  pub labels : List (Text × Text)
  pub spec : BuildSpec
  pub status : BuildStatus
