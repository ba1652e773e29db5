-- ===== src/Session/Runs.antt =====
-- src/session/RangingSession.cpp: the events that a session meets, and its runs.
pub mod Keys
pub mod Machine
pub mod Transitions
pub mod Counters
pub mod Trust
pub mod Progress
use aliro_ccc_core.Base.{ℕ, ◌≡◌, Bool, List, [], ◌∷◌}
use aliro_ccc_core.Base.Words.{Bytes}
use aliro_ccc_core.Core.{ok}
use aliro_ccc_core.Setup.{RangingSessionParameters}
use aliro_ccc_core.Session.State.{SessionNodeConfig, Environment, SessionOf}
use aliro_ccc_core.Session.Control.{start, stop, suspend, resume, resume_with_anchor}
use aliro_ccc_core.Session.Dispatch.{
  driver_rx_success, driver_rx_timeout, driver_rx_error, driver_tx_done,
}

-- The callbacks of the driver; the first has the status and the length that it passes.
pub data Event : Type 0 where
  rx_success : ℕ → ℕ → Event
  rx_timeout rx_error tx_done : Event

module _ (env : Environment) where
  unfoldable pub react : Event → SessionOf env → SessionOf env
  unfolding driver_rx_success driver_rx_timeout driver_rx_error driver_tx_done
  react (rx_success status len) s = driver_rx_success env status len s
  react rx_timeout s = driver_rx_timeout env s
  react rx_error s = driver_rx_error env s
  react tx_done s = driver_tx_done env s

  unfoldable pub react_all : List Event → SessionOf env → SessionOf env
  unfolding react
  react_all [] s = s
  react_all (e ∷ es) s = react_all es (react e s)

-- One event, or one call of the interface that succeeds.
pub data Step (env : Environment) (s : SessionOf env) : SessionOf env → Type 1 where
  on_event : (e : Event) → Step env s (react env e s)
  on_start :
      (ursk : Bytes) (params : RangingSessionParameters)
      (config : SessionNodeConfig env.floats.Float) (has_callback : Bool) {t : SessionOf env}
      → start env ursk params config has_callback s ≡ (ok tt, t)
      → Step env s t
  on_stop : Step env s (stop env s)
  on_suspend : Step env s (suspend env s)
  on_resume : {t : SessionOf env} → resume env s ≡ (ok tt, t) → Step env s t
  on_resume_with_anchor :
      (sts_index0 : ℕ) {t : SessionOf env}
      → resume_with_anchor env sts_index0 s ≡ (ok tt, t)
      → Step env s t

pub data Reach (env : Environment) (s : SessionOf env) : SessionOf env → Type 1 where
  here : Reach env s s
  next : {t u : SessionOf env} → Reach env s t → Step env t u → Reach env s u
