-- ===== src/Agent/Calls.antt =====
-- The calls of the node agent that leave the program: operating system, HTTP and API server.
use k8s_native_fast_gpu_chec.Prelude.{ℕ, ℤ, String, Bool, List, Result, Error}
use k8s_native_fast_gpu_chec.Api.{Time, GpuCheckpoint, Pod, ApiResult}
use k8s_native_fast_gpu_chec.Manager.{ManagerCall, ManagerReply}

-- `os.DirEntry`
pub record DirEntry : Type 0 where
  pub name : String
  pub is_dir : Bool

pub record HttpRequest : Type 0 where
  pub method : String
  pub url : String
  pub headers : List (String × String)

-- The status code and the body as far as it could be read.
pub record HttpResponse : Type 0 where
  pub status_code : ℕ
  pub body : String

-- The flags of cmd/node-agent/main.go.
pub record NodeFlags : Type 0 where
  pub metrics_addr : String
  pub probe_addr : String
  pub kubelet_url : String
  pub kubelet_ca : String
  pub kubelet_insec : Bool
  pub dist_dir : String
  pub host_lib_dir : String
  pub host_run_dir : String
  pub dry_run : Bool
  pub kubelet_timeout : ℤ

pub data Op : Type 0 where
  now : Op
  sleep : ℕ → Op
  mkdir_all : String → ℕ → Op
  write_file : String → String → ℕ → Op
  read_file : String → Op
  read_dir : String → Op
  stat_size : String → Op
  remove : String → Op
  open_read : String → Op
  open_write : String → ℕ → Op
  io_copy : String → String → Op
  chmod : String → ℕ → Op
  scan_lines : String → Op
  mount : List String → Op
  new_request : String → Op
  http_do : HttpRequest → Op
  get_checkpoint : String → String → Op
  get_pod : String → String → Op
  update_status : GpuCheckpoint → Op
  getenv : String → Op
  parse_flags : NodeFlags → Op
  manager : ManagerCall → Op

-- What each call answers. `getenv` answers the empty text for a variable that is not set, `parse_flags`
-- makes the values of the flags from their defaults and the command line, and a status update answers with the object as the API server has it.
abbrev pub Reply : Op → Type 0
Reply now = Time
Reply (sleep d) = Unit {0}
Reply (mkdir_all path mode) = Error
Reply (write_file path content mode) = Error
Reply (read_file path) = Result String
Reply (read_dir path) = Result (List DirEntry)
Reply (stat_size path) = Result ℕ
Reply (remove path) = Error
Reply (open_read path) = Error
Reply (open_write path mode) = Error
Reply (io_copy src dst) = Error
Reply (chmod path mode) = Error
Reply (scan_lines path) = Result (List String)
Reply (mount args) = Error × String
Reply (new_request url) = Error
Reply (http_do req) = Result HttpResponse
Reply (get_checkpoint ns name) = ApiResult GpuCheckpoint
Reply (get_pod ns name) = ApiResult Pod
Reply (update_status cr) = ApiResult GpuCheckpoint
Reply (getenv key) = String
Reply (parse_flags defaults) = Result NodeFlags
Reply (manager c) = ManagerReply c
