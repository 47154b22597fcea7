-- ===== src/Agent/Libs.antt =====
-- Code that the agent calls and that is not modelled: a parameter of the definitions. Durations are
-- whole nanoseconds.
use k8s_native_fast_gpu_chec.Prelude.{ℤ, String, Bool, List, Result}
use k8s_native_fast_gpu_chec.Api.{Time}

pub record Libs : Type 1 where
  -- `time.ParseDuration`; its fractions go through floating point.
  pub parse_duration : String → Result ℤ
  -- `cron.Parser.Parse` and `Schedule.Next` of robfig/cron.
  pub Cron : Type 0
  pub parse_cron : String → Result Cron
  pub next : Cron → Time → Time
  -- `json.Unmarshal` into `checkpointResponse`, as the field `Items`.
  pub unmarshal_items : String → Result (List String)
  -- `CertPool.AppendCertsFromPEM`
  pub has_certs : String → Bool
  -- `%q`
  pub quote : String → String
