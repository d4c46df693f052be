-- ===== src/Api.antt =====
-- pkg/apis/submariner/v1alpha1/*_types.go, and the parts of the Kubernetes types that the sources
-- read or write. The container type of the conditions is the parameter `C`.
pub mod Conditions
pub mod Client
use k8s_ext_connector.Prelude.{Text, ℕ, Bool, List}
use k8s_ext_connector.Prelude.Int.{ℤ}
use k8s_ext_connector.Prelude.Dict.{Dict}

pub record NamespacedName : Type 0 where
  pub namespace : Text
  pub name : Text

-- `deleted` is `GetDeletionTimestamp() != nil`.
pub record ObjectMeta : Type 0 where
  pub namespace : Text
  pub name : Text
  pub resource_version : Text
  pub labels : Dict Text
  pub finalizers : List Text
  pub deleted : Bool

-- `target_port` is the text that `TargetPort.String()` returns, its only use.
pub record ServicePort : Type 0 where
  pub protocol : Text
  pub port : ℤ
  pub target_port : Text

pub record ServiceRef : Type 0 where
  pub namespace : Text
  pub name : Text

pub record Source : Type 0 where
  pub service : ServiceRef
  pub source_ip : Text

pub record ExternalServiceSpec : Type 0 where
  pub target_ip : Text
  pub sources : List Source
  pub ports : List ServicePort

pub record ExternalService : Type 0 where
  pub meta : ObjectMeta
  pub spec : ExternalServiceSpec

pub record GatewayRef : Type 0 where
  pub namespace : Text
  pub name : Text

pub record ForwarderRule : Type 0 where
  pub protocol : Text
  pub source_ip : Text
  pub target_port : Text
  pub destination_ip : Text
  pub destination_port : Text
  pub gateway : GatewayRef
  pub gateway_ip : Text
  pub relay_port : Text

pub record ForwarderSpec : Type 0 where
  pub egress_rules : List ForwarderRule
  pub ingress_rules : List ForwarderRule
  pub forwarder_ip : Text

-- A generation is a Go `int`, of which the sources only take the successor and test equality: it
-- is kept as its 64-bit pattern.
pub record ForwarderStatus (C : Type 0) : Type 0 where
  pub conditions : C
  pub rule_generation : ℕ
  pub sync_generation : ℕ

pub record Forwarder (C : Type 0) : Type 0 where
  pub meta : ObjectMeta
  pub spec : ForwarderSpec
  pub status : ForwarderStatus C

pub record ForwarderRef : Type 0 where
  pub namespace : Text
  pub name : Text

pub record GatewayRule : Type 0 where
  pub protocol : Text
  pub source_ip : Text
  pub target_port : Text
  pub destination_port : Text
  pub destination_ip : Text
  pub forwarder : ForwarderRef
  pub forwarder_ip : Text
  pub relay_port : Text

pub record GatewaySpec : Type 0 where
  pub egress_rules : List GatewayRule
  pub ingress_rules : List GatewayRule
  pub gateway_ip : Text

pub record GatewayStatus (C : Type 0) : Type 0 where
  pub conditions : C
  pub rule_generation : ℕ
  pub sync_generation : ℕ

pub record Gateway (C : Type 0) : Type 0 where
  pub meta : ObjectMeta
  pub spec : GatewaySpec
  pub status : GatewayStatus C

pub record EnvVar : Type 0 where
  pub name : Text
  pub value : Text

pub record VolumeMount : Type 0 where
  pub name : Text
  pub mount_path : Text
  pub read_only : Bool

pub record Container : Type 0 where
  pub name : Text
  pub image : Text
  pub privileged : Bool
  pub env : List EnvVar
  pub volume_mounts : List VolumeMount

pub record Volume : Type 0 where
  pub name : Text
  pub secret_name : Text
  pub default_mode : ℕ

pub record PodSpec : Type 0 where
  pub service_account_name : Text
  pub containers : List Container
  pub volumes : List Volume

pub record Pod : Type 0 where
  pub meta : ObjectMeta
  pub spec : PodSpec
  pub pod_ip : Text

pub record ServiceSpec : Type 0 where
  pub ports : List ServicePort
  pub selector : Dict Text
  pub cluster_ip : Text

pub record Service : Type 0 where
  pub meta : ObjectMeta
  pub spec : ServiceSpec

-- The address lists of the subsets, in order.
pub record Endpoints : Type 0 where
  pub meta : ObjectMeta
  pub subsets : List (List Text)
