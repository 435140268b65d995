-- ===== src/Notify/Types.antt =====
-- The types of include/desktop/notify/notify.h and src/desktop/notify/internal.h.
use g0wm.Common.{ℕ, Bool, Option, List, Bytes}

abbrev pub queue_max : ℕ
queue_max = 32

abbrev pub hist_max : ℕ
hist_max = 32

abbrev pub act_max : ℕ
act_max = 8

abbrev pub timeout_max : ℕ
timeout_max = 60_000

pub data Urgency : Type 0 where
  low normal critical : Urgency

-- The reasons of `NotificationClosed`.
pub data Reason : Type 0 where
  expired dismissed by_call undefined : Reason

pub record Action : Type 0 where
  pub key : Bytes
  pub label : Bytes

-- `Notification`. An icon is the name of a heap object, and `nact` is the length of `act`. `value`
-- is `none` for -1. Times are in milliseconds, `shown_ms` by CLOCK_MONOTONIC.
pub record Notification : Type 0 where
  pub id : ℕ
  pub urgency : Urgency
  pub hasdefault : Bool
  pub resident : Bool
  pub seen : Bool
  pub transient : Bool
  pub timeout_ms : ℕ
  pub shown_ms : ℕ
  pub text : Bytes
  pub app : Bytes
  pub desktop : Bytes
  pub tag : Bytes
  pub value : Option ℕ
  pub icon : Option ℕ
  pub act : List Action

-- What the handlers ask of the world: D-Bus signals and the redraw callback.
pub data Signal : Type 0 where
  closed : ℕ → Reason → Signal
  activation_token : ℕ → Signal
  action_invoked : ℕ → Bytes → Signal
  redrawn : Signal

-- What calls of the C library, of wayland-server and of the token callback return. A run makes
-- these calls in order, and the n-th call gets the n-th answer.
pub record Env : Type 0 where
  pub clock : ℕ → ℕ
  pub add_timer : ℕ → Bool
  pub timer_update : ℕ → Bool
  pub token : ℕ → Bool

-- `NotifyState`. `timer` is `none` without an event source, and otherwise the time that it was
-- last armed with. `nqueue` and `nhist` are the lengths of the lists. `calls` counts the external
-- calls, `signals` logs the requests (newest first), `freed` the icons that were destroyed, and
-- `fault` is set by an access outside the entries of an array.
pub record State : Type 0 where
  pub timer : Option ℕ
  pub has_redraw : Bool
  pub has_token : Bool
  pub default_ms : ℕ
  pub seq : ℕ
  pub active : Bool
  pub running : Bool
  pub held : Bool
  pub heldleft : ℕ
  pub cur : Notification
  pub queue : List Notification
  pub hist : List Notification
  pub calls : ℕ
  pub signals : List Signal
  pub freed : List ℕ
  pub fault : Bool
