-- ===== src/Notify.antt =====
-- src/desktop/notify/queue.c: what is on screen, and what the user does with it. Each function takes
-- the state `notify_state` and returns the new one.
mod Types
mod Store
mod Timer
pub mod Message
pub mod Frame
pub mod Bounds
pub mod Screen
pub mod Server
pub mod Valid
pub mod Wedge
pub mod Icons
pub mod Timing
pub mod Machine
pub use Types.*
unfoldable pub use Store.*
unfoldable pub use Timer.*
use g0wm.Common.{
  ℕ, zero, suc, ◌+◌, ◌-◌, ◌%◌, ◌^◌, Bool, true, false, not, ◌&&◌, ◌||◌, Option, none, some, List,
  [], ◌∷◌, Bytes, ltb, ◌==◌, if◌then◌else◌, same, length, get_elem?, find_index, is_empty,
}

mark_shown : Env → State → State
mark_shown env s = record (called s) {
  cur = record (s.cur) { shown_ms = env.clock s.calls; seen = true };
}

show_marked : Env → State → Bool × State
show_marked env s =
    if s.held
    then (true, record s { heldleft = s.cur.timeout_ms; active = true })
    else (let (done, s') = arm env s.cur.timeout_ms s in (done, record s' { active = done }))

pub show : Env → State → Bool × State
unfolding mark_shown show_marked
show env s = show_marked env (mark_shown env s)

-- What the callers of `notify_show` do when it fails.
pub drop_unshown : State → State
drop_unshown s = history_push_cur (notify_closed s.cur.id undefined s)

pub show_or_drop : Env → State → State
show_or_drop env s = let (done, s') = show env s in if done then s' else drop_unshown s'

pub unseen_critical : Notification → Bool
unseen_critical n = is_critical n.urgency && not n.seen

pub next_index : List Notification → ℕ
next_index queue =
    let i = find_index unseen_critical queue in
    or_first queue (if i == length queue then find_index expires queue else i)

-- One round of the loop of `notify_show_next`.
pub bring_up : Env → State → State
bring_up env s =
    let (n, s') = unqueue (next_index s.queue) s in show_or_drop env (record s' { cur = n })

pub show_next_loop : Env → ℕ → State → State
show_next_loop env zero s = s
show_next_loop env (suc k) s =
    let rest = show_next_loop env k (bring_up env s) in
    if s.active || is_empty s.queue then s else rest

-- Each round takes an entry off the queue, so its length bounds the rounds.
pub show_next : Env → State → State
show_next env s = show_next_loop env (length s.queue) s

-- The `if (!notify_show())` of the callers that then bring up the next one.
pub show_or_next : Env → State → State
show_or_next env s =
    let (done, s') = show env s in if done then s' else show_next env (drop_unshown s')

-- Closed by the client: not worth keeping.
pub put_away : Reason → State → State
put_away by_call s = record (release s.cur.icon s) { cur = record (s.cur) { icon = none } }
put_away reason s = history_push_cur s

pub clear : Env → Reason → State → State
clear env reason s =
    if s.active
    then (let (_, s') = arm env 0 (record s { active = false; held = false }) in
        redraw (show_next env (put_away reason (notify_closed s'.cur.id reason s'))))
    else s

-- The timer callback, `notify_expire`.
pub expire : Env → State → State
expire env s = clear env expired s

pub current : State → Option Notification
current s = if s.active then some s.cur else none

pub history : State → ℕ → Option Notification
history s i = get_elem? s.hist i

pub history_remove : ℕ → State → State
history_remove i s = if ltb i (length s.hist) then redraw (drop_hist i s) else s

pub dismiss : Env → State → State
dismiss env s = clear env dismissed s

-- One round of the loop of `notify_dismiss_all`.
pub dismiss_first : State → State
dismiss_first s = let (n, s') = unqueue 0 s in history_push n (notify_closed n.id dismissed s')

pub dismiss_loop : ℕ → State → State
dismiss_loop zero s = s
dismiss_loop (suc k) s =
    let rest = dismiss_loop k (dismiss_first s) in if is_empty s.queue then s else rest

pub dismiss_all : Env → State → State
dismiss_all env s =
    if s.active
    then (let (_, s') = arm env 0 (record s { active = false }) in
        let s'' = history_push_cur (notify_closed s'.cur.id dismissed s') in
        redraw (dismiss_loop (length s''.queue) s''))
    else s

-- How long `n` has left at `now`.
pub time_left : ℕ → Notification → ℕ
time_left now n =
    let end_ms = (n.shown_ms + n.timeout_ms) % 2 ^ 64 in
    if n.timeout_ms == 0 then 0 else if ltb now end_ms then (end_ms - now) % 2 ^ 32 else 1

-- `hold(1)`.
pub hold_on : Env → ℕ → State → State
hold_on env now s = record ((arm env 0 (record s { heldleft = time_left now s.cur })).1) {
  held = true;
}

-- A critical that arrived while the box was held takes it now.
pub promote : Env → ℕ → State → State
promote env i s =
    let (promoted, s') = unqueue i s in
    show_or_next env
      (record (enqueue s'.cur true (record s' { active = false })) { cur = promoted })

-- The time of showing that leaves `left` at `now`.
pub shown_before : ℕ → ℕ → ℕ → ℕ
shown_before now timeout_ms left = (now + 2 ^ 64 - (timeout_ms + 2 ^ 32 - left) % 2 ^ 32) % 2 ^ 64

-- The timer goes on from where it stopped.
pub resume : Env → ℕ → State → State
resume env now s =
    if s.cur.timeout_ms == 0
    then s
    else (arm env s.heldleft (record s {
      cur = record (s.cur) { shown_ms = shown_before now s.cur.timeout_ms s.heldleft };
    })).1

-- `hold(0)`.
pub hold_off : Env → ℕ → State → State
hold_off env now s =
    let i = find_index unseen_critical s.queue in
    if ltb i (length s.queue) && not (is_critical s.cur.urgency)
    then promote env i s
    else resume env now s

pub hold : Env → Bool → State → State
hold env on s =
    let now = env.clock s.calls in
    if not s.active || same on s.held
    then called s
    else if on
    then hold_on env now (called s)
    else hold_off env now (record (called s) { held = false })

-- The activation token goes first.
pub send_action : Env → Bytes → State → State
send_action env key s = emit (action_invoked s.cur.id key) (
    if s.has_token
    then (if env.token s.calls then emit (activation_token s.cur.id) (called s) else called s)
    else s)

pub invoke_action : Env → Bytes → State → State
invoke_action env key s =
    let s' = send_action env key s in
    if s'.cur.resident then redraw (hold env false s') else clear env dismissed s'

-- The bytes of "default".
abbrev pub default_key : Bytes
default_key = b'd' ∷ b'e' ∷ b'f' ∷ b'a' ∷ b'u' ∷ b'l' ∷ b't' ∷ []

pub invoke : Env → State → State
invoke env s =
    if s.active
    then (if s.cur.hasdefault then invoke_action env default_key s else clear env dismissed s)
    else s

pub action : Env → ℕ → State → State
action env i s =
    if s.active
    then elim (get_elem? s.cur.act i) [ none ↦ s | some a ↦ invoke_action env a.key s ]
    else s
