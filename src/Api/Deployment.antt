-- ===== src/Api/Deployment.antt =====
-- api/azure.com/v1alpha1/deviceprocessdeployment_types.go
use Prim.Native.String.{String}
use mathlib.Core.Option.{Option}
use mathlib.Core.List.{List}
use praetor.Base.Maps.{Map}
use praetor.Base.Int.{ℤ}
use praetor.Api.Meta.{ObjectMeta, Condition, LabelSelector}
use praetor.Api.Process.{DeviceProcessArtifact, DeviceProcessExecution, DeviceProcessHealthCheck}

pub data IntOrString : Type 0 where
  int : ℤ → IntOrString
  text : String → IntOrString

pub record DeviceProcessDeploymentStrategy : Type 0 where
  pub type : String
  -- `RollingUpdate`, and inside it `MaxUnavailable`
  pub rolling_update : Option (Option IntOrString)

pub record DeviceProcessTemplateMetadata : Type 0 where
  pub labels : Map String
  pub annotations : Map String

pub record DeviceProcessTemplateSpec : Type 0 where
  pub artifact : DeviceProcessArtifact
  pub execution : DeviceProcessExecution
  pub restart_policy : String
  pub health_check : Option DeviceProcessHealthCheck

pub record DeviceProcessTemplate : Type 0 where
  pub metadata : DeviceProcessTemplateMetadata
  pub spec : DeviceProcessTemplateSpec

pub record DeviceProcessDeploymentSpec : Type 0 where
  pub selector : LabelSelector
  pub update_strategy : DeviceProcessDeploymentStrategy
  pub template : DeviceProcessTemplate

pub record DeviceProcessDeploymentStatus : Type 0 where
  pub observed_generation : ℤ
  pub desired_number_scheduled : ℤ
  pub current_number_scheduled : ℤ
  pub updated_number_scheduled : ℤ
  pub number_ready : ℤ
  pub number_available : ℤ
  pub number_unavailable : ℤ
  pub conditions : List Condition

pub record DeviceProcessDeployment : Type 0 where
  pub metadata : ObjectMeta
  pub spec : DeviceProcessDeploymentSpec
  pub status : DeviceProcessDeploymentStatus
