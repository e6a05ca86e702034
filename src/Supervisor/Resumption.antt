-- ===== src/Supervisor/Resumption.antt =====
-- One task of plugins/dsh-gateway-agent/src/daemon.js going on to its next await or its end.
use deepseek_harness_gateway.Common.{ℕ, ◌≡◌, subst, Bool, Option, none, some}
use deepseek_harness_gateway.Supervisor.State.{
  Caller, Task, starts_probing, starts_script, waits_ready, waits_probe, stops_gracefully,
  stops_killed, stops_script, refreshes, boots_probing, ScriptResult, Answer, woken, ran, raced,
  is_zero, Supervisor,
}
use deepseek_harness_gateway.Supervisor.Start.{start_probed, start_ran, ready_woken, ready_probed}
use deepseek_harness_gateway.Supervisor.{stop_raced, stop_done, refreshed, boot_probed, resume}

pub data Resumption : Task → Supervisor → Supervisor → Type 0 where
  probed_start :
      (caller : Caller) (up : Bool) (s : Supervisor)
      → Resumption (starts_probing caller) s (start_probed caller up s)
  ran_start :
      (caller : Caller) (token : ℕ) (res : ScriptResult) (s : Supervisor)
      → Resumption (starts_script caller token) s (start_ran caller token res s)
  woken_ready :
      (token : ℕ) (child_mode : Bool) (left : ℕ) (s : Supervisor)
      → Resumption (waits_ready token child_mode left) s (ready_woken token child_mode left s)
  probed_ready :
      (token : ℕ) (child_mode : Bool) (left : ℕ) (up : Bool) (s : Supervisor)
      → Resumption (waits_probe token child_mode left) s (ready_probed token child_mode left up s)
  raced_stop :
      (caller : Caller) (pid : ℕ) (graceful : Bool) (s : Supervisor)
      → Resumption (stops_gracefully caller pid) s (stop_raced caller pid graceful s)
  killed_stop :
      (caller : Caller) (s : Supervisor) → Resumption (stops_killed caller) s (stop_done caller s)
  ran_stop :
      (caller : Caller) (s : Supervisor) → Resumption (stops_script caller) s (stop_done caller s)
  probed_refresh : (up : Bool) (s : Supervisor) → Resumption refreshes s (refreshed up s)
  probed_boot : (up : Bool) (s : Supervisor) → Resumption boots_probing s (boot_probed up s)

abbrev IsResumption : Task → Supervisor → Option Supervisor → Type 0
IsResumption t s none = Unit
IsResumption t s (some after) = Resumption t s after

resume-IsResumption : (t : Task) (a : Answer) (s : Supervisor) → IsResumption t s (resume t a s)
unfolding resume
resume-IsResumption (starts_probing caller) woken s = tt
resume-IsResumption (starts_probing caller) (ran res) s = probed_start caller (is_zero res.code) s
resume-IsResumption (starts_probing caller) (raced b) s = tt
resume-IsResumption (starts_script caller token) woken s = tt
resume-IsResumption (starts_script caller token) (ran res) s = ran_start caller token res s
resume-IsResumption (starts_script caller token) (raced b) s = tt
resume-IsResumption (waits_ready token m left) woken s = woken_ready token m left s
resume-IsResumption (waits_ready token m left) (ran res) s = tt
resume-IsResumption (waits_ready token m left) (raced b) s = tt
resume-IsResumption (waits_probe token m left) woken s = tt
resume-IsResumption (waits_probe token m left) (ran res) s =
    probed_ready token m left (is_zero res.code) s
resume-IsResumption (waits_probe token m left) (raced b) s = tt
resume-IsResumption (stops_gracefully caller pid) woken s = tt
resume-IsResumption (stops_gracefully caller pid) (ran res) s = tt
resume-IsResumption (stops_gracefully caller pid) (raced b) s = raced_stop caller pid b s
resume-IsResumption (stops_killed caller) woken s = tt
resume-IsResumption (stops_killed caller) (ran res) s = tt
resume-IsResumption (stops_killed caller) (raced b) s = killed_stop caller s
resume-IsResumption (stops_script caller) woken s = tt
resume-IsResumption (stops_script caller) (ran res) s = ran_stop caller s
resume-IsResumption (stops_script caller) (raced b) s = tt
resume-IsResumption refreshes woken s = tt
resume-IsResumption refreshes (ran res) s = probed_refresh (is_zero res.code) s
resume-IsResumption refreshes (raced b) s = tt
resume-IsResumption boots_probing woken s = tt
resume-IsResumption boots_probing (ran res) s = probed_boot (is_zero res.code) s
resume-IsResumption boots_probing (raced b) s = tt

pub resume-Resumption :
    (t : Task) (a : Answer) (s after : Supervisor)
    → resume t a s ≡ some after
    → Resumption t s after
resume-Resumption t a s after h = subst (IsResumption t s) h (resume-IsResumption t a s)
