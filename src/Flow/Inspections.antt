-- ===== src/Flow/Inspections.antt =====
-- Inspected pods and `FlowInspectType.REMOVE`.
use jina.Prelude.{String, ◌≡◌, refl, none, some, ok, err, ◌>>=◌}
use jina.Prelude.Dict
use jina.Prelude.Names.{is_identifier, decimal, to_set}
use jina.Enums.{remove, FlowOptimizeLevel, pod}
use jina.Flow.{missing_pod, Kwargs, Factory, absent, init, last}
use jina.Flow.Add.{add, choose_name, parse_endpoints, put_pod, set_last_pod, inspect, register_aux}
use jina.Flow.Build.{
  Connector, build, link_flow, gather_pods, with_gateway, remove_inspect, link_pods, drop_inspect,
  add_gateway,
}

module _ {P : Type 0} (factory : Factory P) (c : Connector P)
    (common kwargs₁ kwargs₂ kwargs₃ : Kwargs) (log_id : String) (level : FlowOptimizeLevel) where
  -- The last pod is inspected twice in a row and the inspecting pods are removed: the gateway needs
  -- the second stand-in, which is replaced by the first, which is removed too. Whatever the
  -- keyword arguments and the optimization, `build` raises.
  build-inspect_twice :
      (do
        f₁ ← add factory (init common log_id remove level) absent pod none kwargs₁
        f₂ ← inspect factory f₁ "inspect" kwargs₂
        f₃ ← inspect factory f₂ "inspect" kwargs₃
        ok (build factory c f₃))
      ≡ ok (some (err (missing_pod "_aux_inspect")))
  unfolding build link_flow gather_pods with_gateway remove_inspect link_pods inspect add
      choose_name parse_endpoints put_pod set_last_pod register_aux is_identifier decimal to_set
      init last Dict.insert Dict.lookup drop_inspect add_gateway
  build-inspect_twice = refl
