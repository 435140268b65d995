-- ===== src/Notify/Server/Icons.antt =====
-- What clients send and the end of the server neither lose an icon nor destroy one twice.
use g0wm.Common.{
  ℕ, zero, suc, ◌+◌, ◌<◌, ◌≡◌, refl, Bool, true, false, inl, inr, List, [], ◌∷◌, some, arith,
  length, get_elem?, get_elem?-some, set, find_index, ◌==◌, Bool-cases,
}
use g0wm.Notify.{
  by_call, undefined, Notification, Env, State, notify_closed, release, unqueue, enqueue, arm,
  clear, is_critical,
}
use g0wm.Notify.Server.{
  set_timeout, start, deliver, pick_id, place, take_box, replace_queued, close_call, stop,
  stop_queue, stop_first, release_all,
}
use g0wm.Notify.Frame.{notify_closed-frame, arm-frame, release-SameButHistory}
use g0wm.Notify.Bounds.{IsBounded, release-IsBounded, enqueue-IsBounded, enqueue-frame}
use g0wm.Notify.Screen.{clear-empty}
use g0wm.Notify.Server.Valid.{
  stop_empties, stop-idle, pick_id-frame, stop_first-frame, stop_queue-frame,
}
use g0wm.Notify.Icons.{
  holds_icon, icon_count, count, stored, owned, stored-release, stored-unqueue, stored-closed,
}
use g0wm.Notify.Icons.Moves.{stored-enqueue}
use g0wm.Notify.Icons.Handlers.{owned-show_or_next, owned-clear, owned-redraw}

icon_count-set :
    (i k : ℕ) (ns : List Notification) (m : Notification) {n : Notification}
    → get_elem? ns k ≡ some n
    → icon_count i (set ns k m) + holds_icon i n.icon ≡ icon_count i ns + holds_icon i m.icon
unfolding icon_count
icon_count-set i k [] m e = cc
icon_count-set i zero (q ∷ ns) m e = ground arith
icon_count-set i (suc k) (q ∷ ns) m e = omega (arith, icon_count-set i k ns m e)

module _ (i : ℕ) where
  -- The old icon of a replaced notification is destroyed.
  owned-replace_queued :
      (k : ℕ) (n : Notification) (s : State)
      → k < length s.queue
      → owned i (replace_queued k n s) ≡ owned i s + holds_icon i n.icon
  unfolding owned stored replace_queued release count
  owned-replace_queued k n s h =
      let (q, e) = get_elem?-some s.queue k h in
      ground (arith, e, icon_count-set i k s.queue n e, q.icon)

  stored-with :
      (n : Notification) (b : Bool) (s : State)
      → (stored i (record s { cur = n }) ≡ stored i s)
        × (stored i (record s { active = b }) ≡ stored i s)
  unfolding stored
  stored-with n b s = (refl, refl)

  stored-arm : (env : Env) (ms : ℕ) (s : State) → stored i (arm env ms s).1 ≡ stored i s
  unfolding stored
  stored-arm env ms s = ground (arith, arm-frame env ms s)

  owned-take_box :
      (env : Env) (n : Notification) (s : State)
      → IsBounded s
      → owned i (take_box env n s) ≡ owned i s + holds_icon i n.icon
  unfolding take_box owned
  owned-take_box env n s v =
      let r = (arm env 0 s).1 in
      let t : State = record r { active = false } in
      let u = enqueue s.cur true t in
      ground (
        arith,
        arm-frame env 0 s,
        stored-arm env 0 s,
        stored-with n false r,
        stored-enqueue i s.cur true t,
        enqueue-IsBounded s.cur true t,
        stored-with n false u,
        stored-with n false s,
        owned-show_or_next i env (record u { cur = n }),
        owned-show_or_next i env (record s { cur = n }),
      )

  owned-enqueue :
      (n : Notification) (front : Bool) (s : State)
      → owned i (enqueue n front s) ≡ owned i s + holds_icon i n.icon
  unfolding owned
  owned-enqueue n front s = ground (arith, stored-enqueue i n front s, enqueue-frame n front s)

  owned-active : (s : State) → s.active ≡ true → owned i s ≡ stored i s + holds_icon i s.cur.icon
  unfolding owned
  owned-active s h = ground arith

  owned-pick_id :
      (replaces : ℕ) (n : Notification) (s : State) → owned i (pick_id replaces n s).1 ≡ owned i s
  unfolding owned stored
  owned-pick_id replaces n s = ground (arith, pick_id-frame replaces n s)

  owned-place :
      (env : Env) (n : Notification) (s : State)
      → IsBounded s
      → owned i (place env n s) ≡ owned i s + holds_icon i n.icon
  unfolding place
  owned-place env n s v =
      let r = release s.cur.icon s in
      ground (
        arith,
        release-IsBounded s.cur.icon s v,
        stored-release i s.cur.icon s,
        stored-with n false r,
        owned-active s,
        owned-show_or_next i env (record r { cur = n }),
        owned-replace_queued (find_index (λ (q : Notification). q.id == n.id) s.queue) n s,
        owned-enqueue n (is_critical n.urgency) s,
        owned-enqueue n false s,
        owned-take_box env n s v,
      )

  -- A new notification brings its icon.
  pub owned-deliver :
      (env : Env) (replaces : ℕ) (n : Notification) (s : State)
      → IsBounded s
      → owned i (deliver env replaces n s).1 ≡ owned i s + holds_icon i n.icon
  unfolding deliver
  owned-deliver env replaces n s v =
      let (id, t) = pick_id replaces n s in
      let m : Notification = record n { id = id } in
      ground (
        arith,
        pick_id-frame replaces n s,
        owned-pick_id replaces n s,
        owned-place env m t,
        owned-redraw i (place env m t),
      )

  stored-unqueued :
      (k id : ℕ) (s : State)
      → k < length s.queue
      → stored i (notify_closed id by_call (release (unqueue k s).0.icon (unqueue k s).1))
        ≡ stored i s
  stored-unqueued k id s h =
      let t = unqueue k s in
      let u = release t.0.icon t.1 in
      ground
        (arith, stored-unqueue i k s h, stored-release i t.0.icon t.1, stored-closed i id by_call u)

  pub owned-close_call :
      (env : Env) (id : ℕ) (s : State) → IsBounded s → owned i (close_call env id s) ≡ owned i s
  unfolding close_call owned unqueue
  owned-close_call env id s v =
      let k = find_index (λ (q : Notification). q.id == id) s.queue in
      let t = unqueue k s in
      let u = release t.0.icon t.1 in
      let w = notify_closed id by_call u in
      ground (
        arith,
        owned-clear i env by_call s v,
        stored-unqueued k id s,
        release-SameButHistory t.0.icon t.1,
        notify_closed-frame id by_call u,
        owned-redraw i w,
      )

  stored-stop_first : (s : State) → 0 < length s.queue → stored i (stop_first s) ≡ stored i s
  unfolding stop_first
  stored-stop_first s h =
      let t = unqueue 0 s in
      ground (
        arith,
        stored-unqueue i 0 s h,
        stored-closed i t.0.id undefined t.1,
        stored-release i t.0.icon (notify_closed t.0.id undefined t.1),
      )

  stored-stop_queue : (k : ℕ) (s : State) → IsBounded s → stored i (stop_queue k s) ≡ stored i s
  unfolding stop_queue
  stored-stop_queue zero s v = refl
  stored-stop_queue (suc k) s v =
      ground (arith, stored-stop_first s, stop_first-frame s v, stored-stop_queue k (stop_first s))

  stop_queue-cur : (k : ℕ) (s : State) → (stop_queue k s).cur ≡ s.cur
  unfolding stop_queue stop_first unqueue
  stop_queue-cur zero s = refl
  stop_queue-cur (suc k) s =
      let t = unqueue 0 s in
      let u = notify_closed t.0.id undefined t.1 in
      ground (
        arith,
        notify_closed-frame t.0.id undefined t.1,
        release-SameButHistory t.0.icon u,
        stop_queue-cur k (release t.0.icon u),
      )

  freed-release_all :
      (ns : List Notification) (s : State)
      → count i (release_all ns s).freed ≡ count i s.freed + icon_count i ns
  unfolding release_all release count icon_count
  freed-release_all [] s = omega arith
  freed-release_all (n ∷ ns) s = ground (arith, freed-release_all ns s, n.icon)

  -- Stopping a running server destroys every icon that is still owned.
  pub freed-stop :
      (env : Env) (s : State)
      → IsBounded s
      → s.running ≡ true
      → count i (stop env s).freed ≡ owned i s
  unfolding stop owned stored icon_count
  freed-stop env s v r =
      let s0 : State = record s { has_redraw = false } in
      let t = stop_queue (length s.queue) s0 in
      let u = clear env undefined t in
      ground (
        arith,
        stop_queue-frame (length s.queue) s0,
        stored-stop_queue (length s.queue) s0,
        stop_queue-cur (length s.queue) s0,
        clear-empty env undefined t,
        owned-clear i env undefined t,
        freed-release_all u.hist u,
      )

  pub owned-stop : (env : Env) (s : State) → IsBounded s → owned i (stop env s) ≡ owned i s
  owned-stop env s v = elim (Bool-cases s.running) [
    | inl e ↦ ground (arith, freed-stop env s v e, stop_empties env s v e, owned-freed (stop env s))
    | inr e ↦ rw (stop-idle env s e)
  ]
    where
      owned-freed :
          (t : State) → t.queue ≡ [] → t.hist ≡ [] → t.active ≡ false → owned i t ≡ count i t.freed
      owned-freed t q h a = unfold owned stored icon_count in ground arith

  pub owned-set_timeout : (secs : ℕ) (s : State) → owned i (set_timeout secs s) ≡ owned i s
  unfolding set_timeout owned stored
  owned-set_timeout secs s = refl

  pub owned-start :
      (primary registered redraws tokens : Bool) (secs : ℕ) (s : State)
      → owned i (start true primary registered redraws tokens secs s) ≡ count i s.freed
  unfolding start owned stored icon_count
  owned-start primary registered redraws tokens secs s = omega arith
