-- ===== src/Lib.antt =====
-- The Kubernetes GPU checkpoint system: a node agent that takes checkpoints, and an orchestrator that
-- spreads one request over the Pods of a workload.
--
-- The parts and how they interact. A user writes a GPUCheckpoint for one Pod, or a WorkloadCheckpoint
-- for a workload. The orchestrator (orchestrator/controllers/workloadcheckpoint_controller.go) resolves
-- a WorkloadCheckpoint to Pods, creates one GPUCheckpoint for each, and sums their states up in the
-- parent's status. On every node an agent (internal/agent) watches the GPUCheckpoints; the one on the
-- Pod's node decides by the schedule whether a checkpoint is due and runs the pipeline: the in-Pod
-- interceptor is told through a control file to copy the GPU data to the host, the kubelet takes the
-- container checkpoint, the data is mapped back, and the archive is stored in the backend. The
-- interceptor (interceptor/preload.c) is a library in the workload's process that stands before the
-- functions of CUDA: it backs allocations by memory that it can take away from under their addresses,
-- a thread of it serves the control file, and a gate holds kernel launches while the data is away.
--
-- Where each part is modelled:
--   Api, Api/Workload          api/v1alpha1/gpucheckpoint_types.go and
--                              orchestrator/api/v1alpha1/workloadcheckpoint_types.go
--   Agent/Schedule             internal/agent/schedule.go
--   Agent/Interceptor          internal/agent/interceptor.go
--   Agent/Files                worlds with a file system, and `copyFile`
--   Agent/Kubelet              internal/agent/kubelet.go
--   Agent/Mounts               the mount functions of internal/agent/checkpoint.go
--   Agent/Storage              `store` and its backends in internal/agent/checkpoint.go
--   Agent/Checkpointer         `Checkpoint` of internal/agent/checkpoint.go
--   Agent/Conditions           `setCondition` of internal/agent/reconciler.go
--   Agent/Reconciler           `Reconcile` and `fail` of internal/agent/reconciler.go
--   Orchestrator/Naming        `childName`, `joinPath` and `perPodStorage` of the controller
--   Orchestrator/Pods          `resolvePods`, `filterPods` and `podRequestsGPU`
--   Orchestrator/Children      `buildChild` and step (3) of `Reconcile`
--   Orchestrator/Aggregate     `aggregate`
--   Orchestrator/Controller    `Reconcile`, `applyBarrier` and `finish`
--   Commands/NodeAgent         cmd/node-agent/main.go, and `SetupWithManager` of the agent
--   Commands/Orchestrator      orchestrator/cmd/main.go, and `SetupWithManager` of the controller
--   Shim                       interceptor/preload.c: Registry has its tables, Owned the allocator,
--                              Copying `memcpy_mt` and `pipe_copy`, Engine `checkpoint_freeze` and
--                              `restore_remap`, Watcher the control file and the gate, Hooks the
--                              functions of CUDA; Machine has what the copies rely on
--   System                     the orchestrator's children in the hands of the agents
--   Manager                    the calls of controller-runtime
--   Copies                     api/v1alpha1/zz_generated.deepcopy.go and
--                              orchestrator/api/v1alpha1/zz_generated.deepcopy.go
--   Effect, Text, Prelude      programs that call the outside world, Go's text functions, helpers
--   Tests                      concrete worlds in which the theorems are applied
-- A function keeps its name, in snake_case; the branches of a long function have definitions of their
-- own, composed as in the source. The child modules of a part hold its proofs.
--
-- How the code is modelled. A call of the operating system, the kubelet, the API server or the clock is
-- a constructor of `Op` (Agent/Calls, Orchestrator/Calls, Shim/Calls). A `Handler` is any world that
-- answers these calls, so that other processes, failures and lost updates are all covered, and a `World`
-- keeps the list of the calls made and their answers, newest first. `(T, error)` is `Result`, with an error as its
-- text. A Go string is UTF-8 text. An instant is the number of nanoseconds since year 1, so that 0 is
-- Go's zero time; a duration is an integer of nanoseconds. The int32 counters of the orchestrator and
-- the int64 count of the agent wrap around as in Go. A status update answers with the object as the
-- server has it, since the client library decodes the answer into the object.
--
-- Parameters. `Libs` stands for time.ParseDuration, robfig/cron, the JSON decoder, certificate pools and
-- quoting; `Kube` for label selectors, SHA-1, SetControllerReference and quoting. What is assumed of
-- them, or of a world, is a hypothesis of the theorem that needs it (`CronNext`, `Clocked`, `Keeps`,
-- `KeepsName`, `KeepsSpec`, `IsWritable`, `Files`, `Remembers`, `HasEnv`, `Machine`, `Reliable`, `Maps`).
--
-- The interceptor is C. Its calls of the CUDA driver and runtime, of libc and of the kernel are the
-- constructors of `Op` in Shim/Calls; `has` says which symbols `dlsym` finds, which does not change in
-- the life of a process, and `snprintf` what a buffer holds of a text. A fixed table with its counter is
-- the list of its entries in use; a `size_t` or a device address is a number below 2^64 and sums wrap
-- around. `Machine` states the documented effect of the calls on the bytes of the device, of the blob
-- and of the staging buffers: a copy that a stream was given counts as made, but the host may touch its
-- staging buffer only after waiting for an event that was recorded behind it, so that an order of calls
-- that leaves out a wait has no known result. In the same way a thread's copy counts as made, but until
-- the thread was joined only later parts may be copied, so that a `memcpy_mt` that does not join has no
-- known result either. A function that is called without a look at whether it was found goes through
-- `null_call` if it was not, after which nothing is known.
--
-- The deep copies work on pointers, so they have a model of memory (Copies): typed cells at
-- addresses, where `new` and `make` take the next address that is not in use. A struct or slice in
-- memory stands for the value that one reads by following its pointers (`Layout`), a slice takes its
-- whole array, and the resources have a stored form for it; all other parts take resources as
-- values. `Outside` stands for the apimachinery types and their deep copies.
--
-- Fuel. The loop of `WaitForAck` has one round for each 50 ms of the timeout and two more. A round sleeps
-- for 50 ms, so with a running clock the deadline comes before the rounds run out. The loop over the
-- chunks of a buffer has one round for each byte, and each chunk has at least one. The watcher's loop
-- has no end: theorems speak of one round, and of any sequence of rounds and other steps. All other
-- loops are over lists or count down.
--
-- Not modelled: the registration of the types with the scheme, log lines and the timers that feed only
-- them, deployment files, scripts and benchmarks. Of the interceptor, allocations by other threads while
-- a freeze or a remap runs (a round of the watcher is one step), staging buffers that `malloc` cannot
-- give, and the start of its thread. The test of the gate and the launch behind it are two steps, and
-- what is shown speaks of the test. Files have content only where a theorem asks for a world with a file
-- system (`Files`). The controller manager is not modelled:
-- it calls `Reconcile` at times of its own, so that a sequence of such calls, with steps of other
-- processes between them, is a relation on worlds (Agent/Reconciler/OneShot).
pub mod Prelude
pub mod Text
pub mod Effect
pub mod Api
pub mod Manager
pub mod Agent
pub mod Orchestrator
pub mod Commands
pub mod System
pub mod Copies
pub mod Shim
pub mod Tests
