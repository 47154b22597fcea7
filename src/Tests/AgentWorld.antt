-- ===== src/Tests/AgentWorld.antt =====
-- A small node: a clock, a control file with fixed content, one mounted volume, and a kubelet that
-- answers every checkpoint request.
use k8s_native_fast_gpu_chec.Prelude.{
  ℕ, ◌+◌, pos, String, ◌<>◌, refl, true, false, none, List, [], ◌∷◌, ok, err, ◌==◌, if◌then◌else◌,
  ◌≤◌, arith,
}
use k8s_native_fast_gpu_chec.Effect.{Handler, World}
use k8s_native_fast_gpu_chec.Api.{StorageSpec, GpuCheckpoint, Pod, found}
use k8s_native_fast_gpu_chec.Agent.Calls.{
  Op, Reply, now, sleep, mkdir_all, write_file, read_file, read_dir, stat_size, remove, open_read,
  open_write, io_copy, chmod, scan_lines, mount, new_request, http_do, get_checkpoint, get_pod,
  update_status, getenv, parse_flags, manager,
}
use k8s_native_fast_gpu_chec.Agent.Libs.{Libs}
use k8s_native_fast_gpu_chec.Agent.Interceptor.{InterceptorManager}
use k8s_native_fast_gpu_chec.Agent.Interceptor.Waiting.{Clocked}
use k8s_native_fast_gpu_chec.Agent.Kubelet.{KubeletClient}
use k8s_native_fast_gpu_chec.Agent.Storage.{Checkpointer, Target}
use k8s_native_fast_gpu_chec.Agent.Reconciler.{Reconciler}

-- One hour and one minute, in nanoseconds.
abbrev pub hour : ℕ
hour = 3600000000000

abbrev pub minute : ℕ
minute = 60000000000

-- Knows the duration `1h`, and cron expressions that fire a minute later.
abbrev pub libs : Libs
libs = record {
  parse_duration = λ s. if s == "1h" then ok (pos hour) else err "time: invalid duration";
  Cron = Unit;
  parse_cron = λ s. ok tt;
  next = λ c from. from + minute;
  unmarshal_items = λ body. ok (body ∷ []);
  has_certs = λ pem. true;
  quote = λ s. "\"" <> s <> "\"";
}

abbrev mount_lines : List String
mount_lines = "overlay / overlay rw 0 0" ∷ "server:/data /mnt/ckpt nfs4 rw 0 0" ∷ []

abbrev pub volume : StorageSpec
volume = record {
  type = "hostPath";
  path = "/mnt/ckpt/train";
  endpoint = "";
  fs_type = "";
  source = "";
  options = "";
  sub_path = "";
  claim_name = "";
}

abbrev pub pod : Pod
pod = record {
  meta = record { namespace = "ml"; name = "train-0"; labels = [] };
  uid = "u-1";
  node_name = "node-a";
  phase = "Running";
  deletion_timestamp = none;
  containers = record { name = "main"; gpu_limit = none; gpu_request = none } ∷ [];
}

abbrev pub resource : GpuCheckpoint
resource = record {
  meta = record { namespace = "ml"; name = "ck"; labels = [] };
  spec = record {
    workload_ref = record {
      kind = "Pod";
      namespace = "ml";
      name = "train-0";
      container = "";
      node_info = "";
    };
    storage = volume;
    schedule = "1h";
    incremental = false;
  };
  status = record {
    phase = "";
    observed_node = "";
    last_checkpoint_time = none;
    checkpoint_count = 0;
    last_checkpoint_path = "";
    message = "";
    conditions = [];
  };
}

abbrev pub variable : String → String
variable key = if key == "NODE_NAME" then "node-a" else if key == "DRY_RUN" then "true" else ""

-- The control file reads as `control`, a sleep lasts `lag` longer than it is asked to, and the kubelet
-- answers with the status code `code`.
module _ (control : String) (lag : ℕ) (code : ℕ) where
  abbrev pub answer : (o : Op) → ℕ → Reply o
  answer now clock = clock
  answer (sleep d) clock = tt
  answer (mkdir_all path mode) clock = none
  answer (write_file path content mode) clock = none
  answer (read_file path) clock = ok control
  answer (read_dir path) clock = ok []
  answer (stat_size path) clock = ok 4096
  answer (remove path) clock = none
  answer (open_read path) clock = none
  answer (open_write path mode) clock = none
  answer (io_copy src dst) clock = none
  answer (chmod path mode) clock = none
  answer (scan_lines path) clock = ok mount_lines
  answer (mount args) clock = (none, "")
  answer (new_request url) clock = none
  answer (http_do req) clock =
      ok (record { status_code = code; body = "/var/lib/kubelet/checkpoints/c.tar" })
  answer (get_checkpoint ns name) clock = found resource
  answer (get_pod ns name) clock = found pod
  answer (update_status cr) clock = found cr
  answer (getenv key) clock = variable key
  answer (parse_flags defaults) clock = ok defaults
  answer (manager c) clock = none

  abbrev pub tick : Op → ℕ → ℕ
  tick (sleep d) clock = clock + d + lag
  tick _ clock = clock

  abbrev pub node : Handler Op Reply
  node = record { State = ℕ; handle = λ o clock. (answer o clock, tick o clock) }

  pub tick-le : (o : Op) (clock : ℕ) → clock ≤ tick o clock
  tick-le (sleep d) clock = omega arith
  tick-le _ clock = omega arith

  pub tick-sleep : (d clock : ℕ) → clock + d ≤ tick (sleep d) clock
  tick-sleep d clock = omega arith

  abbrev pub node-Clocked : Clocked node
  node-Clocked = record {
    clock = λ s. s;
    now_reads = λ s. refl;
    never_back = tick-le;
    sleep_lasts = tick-sleep;
  }

  -- Noon of some day, with no events yet.
  abbrev pub start : World node
  start = record { state = 63000000000000000000; trace = [] }

abbrev pub interceptor : InterceptorManager
interceptor = record {
  dist_dir = "/opt/gcr";
  host_lib_dir = "/var/lib/gcr/lib";
  host_run_dir = "/var/run/gcr";
}

abbrev pub kubelet : KubeletClient
kubelet = record {
  base_url = "https://127.0.0.1:10250";
  token = "t";
  insecure_skip_verify = true;
  root_cas = none;
  timeout = pos minute;
}

abbrev pub checkpointer : Checkpointer
checkpointer = record {
  interceptor = interceptor;
  kubelet = kubelet;
  gcr_interception = true;
  data_dir = "/var/lib/gcr-data";
  persist_blob = true;
  dry_run = false;
}

abbrev pub target : Target
target = record {
  namespace = "ml";
  pod = "train-0";
  pod_uid = "u-1";
  container = "main";
  storage = volume;
}

abbrev pub agent_on : String → Reconciler
agent_on name = record { node_name = name; checkpointer = checkpointer }

-- A node on which all goes well, and one whose control file is never acknowledged.
abbrev pub quick : World (node "0" 0 200)
quick = start "0" 0 200

abbrev pub stuck : World (node "1" minute 200)
stuck = start "1" minute 200

-- A node whose kubelet refuses.
abbrev pub refusing : World (node "0" 0 500)
refusing = start "0" 0 500
