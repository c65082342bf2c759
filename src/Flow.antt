-- ===== src/Flow.antt =====
-- jina/flow/__init__.py: the state of a `Flow` and the methods that add pods to it. The pods'
-- payload is what `_invoke_flowpod` and `GatewayFlowPod` make of the keyword arguments.
pub mod Add
pub mod AddLaws
pub mod AddCounts
pub mod LinkLaws
pub mod BuildLaws
pub mod Connections
pub mod Inspections
mod Tests
mod ConnectionTests
pub mod Build
pub mod Traversal
use jina.Prelude.{
  ℕ, String, ◌<>◌, Bool, true, false, ◌&&◌, ◌||◌, not, Option, none, some, List, [], ◌∷◌, ◌++◌, map,
  leb, if◌then◌else◌, str_eq, Result, ok, err, ◌>>=◌, ◌>>◌, raise_if, length, select, any,
}
use jina.Prelude.Dict
use jina.Prelude.Dict.{Dict, contains}
use jina.Prelude.Names.{is_identifier, decimal, to_set}
use jina.Enums
use jina.Enums.{FlowBuildLevel, empty, FlowInspectType, FlowOptimizeLevel, PodRoleType}
use jina.Enums.{role_value}

-- The exceptions: `FlowTopologyError`, `FlowMissingPodError`, the `ValueError` of an invalid name,
-- `FlowBuildLevelError`, and what a connection of two pods may raise.
pub data FlowError : Type 0 where
  topology : FlowError
  missing_pod : String → FlowError
  invalid_name : String → FlowError
  build_level_error : FlowError
  pod_error : FlowError

-- The value of a keyword argument.
pub data Arg : Type 0 where
  text : String → Arg
  number : ℕ → Arg
  flag : Bool → Arg

abbrev pub Kwargs : Type 0
Kwargs = Dict Arg

-- `_invoke_flowpod`, which jinad overrides, and the gateway's constructor.
pub record Factory (P : Type 0) : Type 0 where
  pub flow_pod : Kwargs → P
  pub gateway_pod : Kwargs → P

pub record FlowPod (P : Type 0) : Type 0 where
  pub needs : List String
  pub role : PodRoleType
  pub pod : P

pub record Flow (P : Type 0) : Type 0 where
  pub pod_nodes : Dict (FlowPod P)
  pub inspect_pods : Dict String
  pub build_level : FlowBuildLevel
  pub last_changed_pod : List String
  pub common_kwargs : Kwargs
  pub log_id : String
  pub inspect_type : FlowInspectType
  pub optimize_level : FlowOptimizeLevel

-- What `needs` may be: a string, or a list or tuple of strings, or `None`.
pub data Endpoint : Type 0 where
  absent : Endpoint
  one : String → Endpoint
  many : List String → Endpoint

-- `xs[-1]`
unfoldable pub last : List String → Option String
last [] = none
last (x ∷ []) = some x
last (x ∷ y ∷ xs) = last (y ∷ xs)

-- `dict.get(k, d)`
abbrev pub get_or {ℓ} : {V : Type ℓ} → Option V → V → V
get_or none d = d
get_or (some v) d = v

-- Keyword arguments of `defaults` that `kwargs` lacks.
unfoldable pub add_missing : Kwargs → Kwargs → Kwargs
add_missing [] kwargs = kwargs
add_missing ((k, v) ∷ defaults) kwargs =
    add_missing defaults (if contains (Dict.keys kwargs) k then kwargs else Dict.insert k v kwargs)

-- `dict.update`
unfoldable pub update : Kwargs → Kwargs → Kwargs
update [] kwargs = kwargs
update ((k, v) ∷ more) kwargs = update more (Dict.insert k v kwargs)

-- `kwargs.pop(k)`
unfoldable pub remove_key : String → Kwargs → Kwargs
remove_key k [] = []
remove_key k ((j, v) ∷ kwargs) =
    let rest = remove_key k kwargs in if str_eq j k then rest else (j, v) ∷ rest

-- `_hanging_pods`: the names that no pod needs.
unfoldable pub all_needs : {P : Type 0} → Dict (FlowPod P) → List String
all_needs [] = []
all_needs ((_, p) ∷ nodes) = p.needs ++ all_needs nodes

module _ {P : Type 0} where
  -- `Flow.__init__`
  unfoldable pub init : Kwargs → String → FlowInspectType → FlowOptimizeLevel → Flow P
  init kwargs log_id inspect_type optimize_level = record {
    pod_nodes = [];
    inspect_pods = [];
    build_level = empty;
    last_changed_pod = "gateway" ∷ [];
    common_kwargs = kwargs;
    log_id = log_id;
    inspect_type = inspect_type;
    optimize_level = optimize_level;
  }
