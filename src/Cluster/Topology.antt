-- ===== src/Cluster/Topology.antt =====
-- internal/cluster/topology.go: a workload's topology requirement as a hard constraint.
use aegis_llm_control_plane.Base.{Bool, true, false, not, ◌&&◌, ◌==◌, if◌then◌else◌}
use aegis_llm_control_plane.Cluster.Types.{Worker, Workload}

unfoldable pub matches_topology_requirement : {F : Type 0} → Workload F → Worker F → Bool
matches_topology_requirement workload worker =
    if not (required_node_id == "") && not (topology.node_id == required_node_id)
    then false
    else if not (required_rack_id == "") && not (topology.rack_id == required_rack_id)
    then false
    else if not (required_nv_link_domain == "")
        && not (topology.nv_link_domain == required_nv_link_domain)
    then false
    else if not (required_interconnect == "")
        && not (topology.interconnect == required_interconnect)
    then false
    else if not (workload.required_topology_domain == "")
    then (if not (topology.rack_id == "")
        then topology.rack_id == workload.required_topology_domain
        else worker.topology_domain == workload.required_topology_domain)
    else true
  where
    open workload.topology_requirement use {
      required_node_id, required_rack_id, required_nv_link_domain, required_interconnect,
    }
    open worker use {topology}
