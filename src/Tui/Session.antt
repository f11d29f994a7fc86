-- ===== src/Tui/Session.antt =====
-- A session of `DinixApp` (tui/src/dinix_tui/app.py) as a step relation: keys, timers, the table's
-- cursor, events of dinit and commands from the queue come in any order, and the client and the host
-- do as they like in between.
use dinix.Shared.{
  ◌≡◌, refl, Bool, true, false, Option, none, some, List, [], ◌∷◌, arith, length, length-append,
  ltb, ltb→lt, if◌then◌else◌, Bool-cases, inl, inr,
}
use dinix.Utf8.{Str}
use dinix.Protocol.Records.{Event}
use dinix.Tui.State.{
  App, Command, Action, notify, Notice, emit, queue_size, send_nowait, select_first, queue_full,
  nix_disabled, rebuild_disabled, stopped_following, now_following, nix_reload, rebuild_all, follow,
  refresh,
}
use dinix.Tui.Interfaces.{Dinit, Host, World}
use dinix.Tui.Worker.{consume_event, consume_commands, load_every_service, is_following}
use dinix.Tui.Keys.{
  row_highlighted, current_service, queued, send_quietly, command, dispatch_to, dispatch,
  follow_service, action_follow, tick_for, follow_tick, action_refresh, can_rebuild,
  action_nix_reload, action_rebuild,
}
use dinix.Tui.Quiet.Working.{Quiet-load_every_service, Quiet-consume_event}
use dinix.Tui.Sound.{
  IsSound, emit_notify-IsSound, other_fields-IsSound, IsSound-IsQuiet, consume_commands-IsSound,
}

-- What a key or a timer does, with the row under the cursor.
pub data Input : Type 0 where
  press : Action → Option Str → Input
  highlight : Str → Input
  follow_key : Option Str → Input
  tick refresh_timer nix_key rebuild_key : Input

unfoldable pub react : Bool → Input → App → App
react rebuilder (press action cursor) app = dispatch action cursor app
react rebuilder (highlight name) app = row_highlighted name app
react rebuilder (follow_key cursor) app = action_follow cursor app
react rebuilder tick app = follow_tick app
react rebuilder refresh_timer app = action_refresh app
react rebuilder nix_key app = action_nix_reload rebuilder app
react rebuilder rebuild_key app = action_rebuild rebuilder app

module _ (D : Dinit) (H : Host) where
  pub data Step : World D H → World D H → Type 0 where
    on_input :
        (w : World D H) (rebuilder : Bool) (i : Input)
        → Step w (record w { app = react rebuilder i w.app })
    on_start : (w : World D H) → Step w (load_every_service w).1
    on_event : (w : World D H) (e : Event) → Step w (consume_event e w).1
    on_command : (w : World D H) → Step w (consume_commands 1 w).1
    -- the client and the host change by themselves
    elsewhere :
        (w : World D H) (d : D.State) (h : H.State) → Step w (record w { dinit = d; host = h })

  pub data Reach (w : World D H) : World D H → Type 0 where
    here : Reach w w
    next : {u v : World D H} → Reach w u → Step u v → Reach w v

send-IsSound :
    (c : Command) (q : List Command) (app missed : App)
    → app.queue ≡ q
    → IsSound app
    → IsSound missed
    → IsSound (queued (send_nowait c q) missed app)
send-IsSound c q app missed e h hm = elim (Bool-cases (ltb (length q) queue_size)) [
  | inl room ↦ rw room (record {
    rows = h.rows;
    shows = record { replayed = h.shows.replayed; keyed = h.shows.keyed };
    bounded = omega (arith, length-append q (c ∷ []), ltb→lt (length q) queue_size room);
  })
  | inr full ↦ rw full hm
]

send_quietly-IsSound : (c : Command) (app : App) → IsSound app → IsSound (send_quietly c app)
unfolding send_quietly
send_quietly-IsSound c app h = send-IsSound c app.queue app app refl h h

dispatch_to-IsSound :
    (action : Action) (service : Option Str) (app : App)
    → IsSound app
    → IsSound (dispatch_to action service app)
unfolding dispatch_to
dispatch_to-IsSound action none app h = emit_notify-IsSound select_first app h
dispatch_to-IsSound action (some service) app h =
    send-IsSound (command action (some service)) app.queue app (emit (notify queue_full) app) refl h
      (emit_notify-IsSound queue_full app h)

following-IsSound :
    (following : Option Str) (app : App)
    → IsSound app
    → IsSound (record app { following = following })
following-IsSound following app h = other_fields-IsSound app _ refl refl (omega arith) h

follow_service-IsSound :
    (service : Option Str) (app : App) → IsSound app → IsSound (follow_service service app)
unfolding follow_service
follow_service-IsSound none app h = emit_notify-IsSound select_first app h
follow_service-IsSound (some service) app h =
    elim (Bool-cases (is_following app.following service)) [
      | inl same ↦
          rw same (emit_notify-IsSound (stopped_following service) _ (following-IsSound none app h))
      | inr other ↦ rw other (
          send_quietly-IsSound (command follow (some service)) _ (
            emit_notify-IsSound (now_following service) _ (following-IsSound (some service) app h)))
    ]

tick_for-IsSound :
    (following : Option Str) (app : App) → IsSound app → IsSound (tick_for following app)
unfolding tick_for
tick_for-IsSound none app h = h
tick_for-IsSound (some service) app h = send_quietly-IsSound (command follow (some service)) app h

rebuild-IsSound :
    (allowed : Bool) (c : Command) (notice : Notice) (app : App)
    → IsSound app
    → IsSound (if allowed then send_quietly c app else emit (notify notice) app)
rebuild-IsSound true c notice app h = send_quietly-IsSound c app h
rebuild-IsSound false c notice app h = emit_notify-IsSound notice app h

react-IsSound :
    (rebuilder : Bool) (i : Input) (app : App) → IsSound app → IsSound (react rebuilder i app)
unfolding react
react-IsSound r (press action cursor) app h =
    unfold dispatch in dispatch_to-IsSound action (current_service cursor app) app h
react-IsSound r (highlight name) app h =
    unfold row_highlighted in other_fields-IsSound app _ refl refl (omega arith) h
react-IsSound r (follow_key cursor) app h =
    unfold action_follow in follow_service-IsSound (current_service cursor app) app h
react-IsSound r tick app h = unfold follow_tick in tick_for-IsSound app.following app h
react-IsSound r refresh_timer app h =
    unfold action_refresh in send_quietly-IsSound (command refresh none) app h
react-IsSound r nix_key app h =
    unfold action_nix_reload in
    rebuild-IsSound (can_rebuild r app.nix_command) (command nix_reload none) nix_disabled app h
react-IsSound r rebuild_key app h =
    unfold action_rebuild in
    rebuild-IsSound (can_rebuild r app.nix_command) (command rebuild_all none) rebuild_disabled app
      h

Step-IsSound :
    {D : Dinit} {H : Host} {u v : World D H} → Step D H u v → IsSound u.app → IsSound v.app
Step-IsSound (on_input w rebuilder i) h = react-IsSound rebuilder i w.app h
Step-IsSound (on_start w) h = (Quiet-load_every_service IsSound-IsQuiet).at w h
Step-IsSound (on_event w e) h = (Quiet-consume_event IsSound-IsQuiet e).at w h
Step-IsSound (on_command w) h = (consume_commands-IsSound 1).at w h
Step-IsSound (elsewhere w d s) h = h

-- If the calls on the table so far have all succeeded and have left rows whose keys are `_known`,
-- and at most 32 commands wait, this is so after any sequence of keys, timers, highlighted rows,
-- loads of all services, events and commands, whatever the client and the host answer and do in
-- between: no row is added twice, no cell of a missing row is updated, and the queue stays within
-- its size.
pub Reach-IsSound :
    {D : Dinit} {H : Host} (u v : World D H) → Reach D H u v → IsSound u.app → IsSound v.app
Reach-IsSound u v here h = h
Reach-IsSound u v (next r step) h = Step-IsSound step (Reach-IsSound u _ r h)
