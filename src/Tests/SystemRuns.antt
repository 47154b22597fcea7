-- ===== src/Tests/SystemRuns.antt =====
-- A child of the orchestrator's cluster in the hands of an agent.
use k8s_native_fast_gpu_chec.Prelude.{pos, ◌≡◌, ◌≢◌, refl, sym, ◌⊎◌, not, false}
use k8s_native_fast_gpu_chec.Effect.{perform}
use k8s_native_fast_gpu_chec.Api.{GpuCheckpoint}
use k8s_native_fast_gpu_chec.Text.Trim.{trim_space}
use k8s_native_fast_gpu_chec.Agent.Calls.{now}
use k8s_native_fast_gpu_chec.Agent.Schedule.{next_run, is_one_shot, zero_time}
use k8s_native_fast_gpu_chec.Agent.Reconciler.{
  stop, target_container, take_checkpoint, reconcile_pod,
}
use k8s_native_fast_gpu_chec.Orchestrator.Children.{build_child}
use k8s_native_fast_gpu_chec.System.{KeepsSpec, reconcile_pod-build_child}
use k8s_native_fast_gpu_chec.Tests.AgentWorld.{libs, node, start, agent_on}
use k8s_native_fast_gpu_chec.Tests.ClusterWorld.{kube, workload, replica}

kube-KeepsSpec : KeepsSpec kube
kube-KeepsSpec wc c c' e = let same : c ≡ c' = cc e in rw (sym same) (refl, refl)

abbrev child : GpuCheckpoint
unfolding build_child
child = build_child kube (workload (pos 0)) (replica "train-0") "nightly-train-0"

reconcile_pod-build_child_example :
    let w = start "0" 0 200 in
    let H = node "0" 0 200 in
    let pod = replica "train-0" in
    let r = agent_on pod.node_name in
    let (at', w₂) = perform H now (perform H now w).1 in
    ((r.node_name ≡ pod.node_name)
      × (reconcile_pod libs H r child pod w
          ≡ take_checkpoint libs H r child pod
              (target_container child pod)
              (not (is_one_shot libs (workload (pos 0)).spec.schedule at'))
              w₂))
    ⊎ ((r.node_name ≢ pod.node_name) × (reconcile_pod libs H r child pod w ≡ (stop, w)))
unfolding next_run trim_space build_child
reconcile_pod-build_child_example =
    reconcile_pod-build_child kube kube-KeepsSpec libs (node "0" 0 200) (workload (pos 0))
      (replica "train-0") "nightly-train-0" child refl (agent_on (replica "train-0").node_name)
      (replica "train-0") (zero_time, false) (start "0" 0 200) refl refl
