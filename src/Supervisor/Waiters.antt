-- ===== src/Supervisor/Waiters.antt =====
-- The callers that wait for a boot: every future that was handed out gets one answer.
use android_appliance.Base.{
  ℕ, suc, ◌-◌, ◌≤◌, ◌<◌, ◌≡◌, ◌≢◌, refl, ◌⊎◌, Option, none, some, List, [], ◌∷◌, Bool, true, false,
  arith,
}
use android_appliance.Base.Int.{ℤ}
use android_appliance.Supervisor.Types.{
  starting, stopping, Fut, unmade, no_fault, at_emu_stop, at_grpc_close, at_xvnc_stop, Stopping,
  ended, stopped, Code, unmade, pending, resolved, failed, Store, Config, Sup, Failure, Fault, Emu,
  conflict, renderer_kind, crash_kind,
}
use android_appliance.Supervisor.Activity.{save_activity, touch_activity}
use android_appliance.Supervisor.Lifecycle.{
  begin_stop, set_result, fail, retry, boot_completed, boot_failure, teardown, stop_finally, exited,
  watch, idle_check, exit_failure,
}
use android_appliance.Supervisor.Requests.{
  start_turn, start, background_start, stop, restart, lease_enter, lease_leave, every, shutdown,
  shutdown_end,
}
use android_appliance.Supervisor.Events.{
  Event, starts, restarts, lease_enters, lease_leaves, background_runs, stops, registers,
  shuts_down, shutdown_ends, touches, idle_checks, clears, phases, gpu_ready, launches, connects,
  completes, breaks, watcher_fires, fails, qemu_exits, stop_ends, internal_failure, fire, fire_with,
  boot_clear, emulator_launched, stop_body, step, run, init,
}
use android_appliance.Supervisor.Invariant.{
  Inv, touch_activity-Inv, stop-Inv, init-Inv, step-Inv, run-Inv,
}

-- The future `i` is the current one if anybody waits for it, and it is made only once.
pub record At (i : ℕ) (s : Sup) : Type 0 where
  pub only_current : s.futures i ≡ pending → s.boot_done ≡ some i
  pub not_made : s.next_future ≤ i → s.futures i ≡ unmade
  pub in_range : s.boot_done ≡ some i → i < s.next_future

-- What one event does to the future `i`, where `c` is the answer of a failed start.
pub record Kept (i : ℕ) (c : Code) (s t : Sup) : Type 0 where
  pub still : At i t
  pub resolved_stays : s.futures i ≡ resolved → t.futures i ≡ resolved
  pub failed_stays : s.futures i ≡ failed c → t.futures i ≡ failed c

module _ (i : ℕ) (c : Code) where
  unchanged :
      (s t : Sup)
      → t.futures ≡ s.futures
      → t.boot_done ≡ s.boot_done
      → t.next_future ≡ s.next_future
      → At i s
      → Kept i c s t
  unchanged s t e f g a = ground arith

  -- From a state that agrees with `s` on the futures.
  start_turn-Kept : (wait : Bool) (s : Sup) → Inv s → At i s → Kept i c s (start_turn wait s).0
  unfolding start_turn
  start_turn-Kept true s v a = ground arith
  start_turn-Kept false s v a = ground arith

  stop-Kept : (s : Sup) → At i s → Kept i c s (stop s)
  unfolding stop
  stop-Kept s a = ground arith

  touch-Kept : (now : ℕ) (s : Sup) → At i s → Kept i c s (touch_activity now s)
  unfolding touch_activity
  touch-Kept now s a = ground arith

  Kept-trans : (s t u : Sup) → Kept i c s t → Kept i c t u → Kept i c s u
  Kept-trans s t u k l = ground arith

  start-Kept : (now : ℕ) (wait : Bool) (s : Sup) → Inv s → At i s → Kept i c s (start now wait s).0
  unfolding start
  start-Kept now wait s v a =
      let t = touch-Kept now s a in
      Kept-trans s _ _ t (start_turn-Kept wait _ (touch_activity-Inv now s v) t.still)

  restart-Kept :
      (now : ℕ) (wait : Bool) (s : Sup) → Inv s → At i s → Kept i c s (restart now wait s).0
  unfolding restart
  restart-Kept now wait s v a =
      let k = touch-Kept now s a in
      let l = Kept-trans s _ _ k (stop-Kept (touch_activity now s) k.still) in
      let w = stop-Inv _ (touch_activity-Inv now s v) in
      elim wait as (λ b. Kept i c s (restart now b s).0) [
        | true ↦ Kept-trans s _ _ l (start_turn-Kept true _ w l.still)
        | false ↦ ground (arith, l)
      ]

  retry-Kept : (now : ℕ) (f : Failure) (s : Sup) → Inv s → At i s → Kept i c s (retry now f s)
  unfolding retry
  retry-Kept now f s v a = ground arith

  fail-Kept : (b : Bool) (now : ℕ) (f : Failure) (s : Sup) → At i s → Kept i c s (fail b now f s)
  unfolding fail
  fail-Kept b now f s a = ground arith

  boot_completed-Kept : (now : ℕ) (s : Sup) → Inv s → At i s → Kept i c s (boot_completed now s)
  unfolding boot_completed
  boot_completed-Kept now s v a = ground arith

  boot_clear-Kept : (now : ℕ) (f : Fault) (s : Sup) → At i s → Kept i c s (boot_clear now f s)
  unfolding boot_clear
  boot_clear-Kept now f s a = ground arith

  teardown-Kept : (f : Fault) (s : Sup) → At i s → Kept i c s (teardown f s)
  unfolding teardown
  teardown-Kept no_fault s a = unchanged s _ refl refl refl a
  teardown-Kept at_emu_stop s a = unchanged s _ refl refl refl a
  teardown-Kept at_grpc_close s a = unchanged s _ refl refl refl a
  teardown-Kept at_xvnc_stop s a = unchanged s _ refl refl refl a

  save-Kept : (s : Sup) → At i s → Kept i c s (save_activity s)
  unfolding save_activity
  save-Kept s a = ground arith

  set_result-Kept :
      (o : Option ℕ) (d : Code) (s : Sup) → At i s → Kept i c s (set_result o (failed d) s)
  set_result-Kept none d s a = ground arith
  set_result-Kept (some k) d s a = ground arith

  stop_finally-Kept : (o : Option ℕ) (d : Code) (s : Sup) → At i s → Kept i c s (stop_finally o d s)
  unfolding stop_finally
  stop_finally-Kept o d s a =
      let k =
        unchanged s
          (record s {
            state = stopped;
            phase = none;
            launched_at = none;
            running_since = none;
            stop_task = none;
          })
          refl refl refl a in
      let l = Kept-trans s _ _ k (set_result-Kept o d _ k.still) in
      Kept-trans s _ _ l (save-Kept _ l.still)

  stop_body-Kept :
      (f : Fault) (o : Option Stopping) (s : Sup) → At i s → Kept i c s (stop_body f o s)
  stop_body-Kept f none s a = unchanged s s refl refl refl a
  stop_body-Kept f (some t) s a =
      let k = unchanged s (record s { boot_task = ended }) refl refl refl a in
      let l = Kept-trans s _ _ k (teardown-Kept f _ k.still) in
      Kept-trans s _ _ l (stop_finally-Kept t.done t.error _ l.still)

  exited-Kept :
      (now : ℕ) (e : Emu) (code : ℤ) (s : Sup) → Inv s → At i s → Kept i c s (exited now e code s)
  unfolding exited begin_stop
  exited-Kept now e code s v a =
      let crash = exit_failure crash_kind code in
      ground (
        arith,
        fail-Kept false now (exit_failure renderer_kind code) s a,
        fail-Kept false now crash s a,
        retry-Kept now crash s v a,
      )

  fire-Kept : (now : ℕ) (s : Sup) → Inv s → At i s → Kept i c s (fire now s.emu s)
  unfolding watch
  fire-Kept now s v a = fire_at s.emu
    where
      quiet : Inv (record s { watcher = none })
      quiet = ground arith

      quiet_at : At i (record s { watcher = none })
      quiet_at = ground arith

      fire_some : (e : Emu) (code : Option ℤ) → Kept i c s (fire_with now e code s)
      fire_some e none = ground arith
      fire_some e (some code) =
          ground (arith, exited-Kept now e code (record s { watcher = none }) quiet quiet_at)

      fire_at : (o : Option Emu) → Kept i c s (fire now o s)
      fire_at none = ground arith
      fire_at (some e) = fire_some e e.returncode

  step-Kept : (now : ℕ) (e : Event) (s : Sup) → Inv s → At i s → Kept i c s (step now e s)
  unfolding step background_start lease_enter lease_leave every shutdown shutdown_end touch_activity
      emulator_launched idle_check begin_stop boot_failure
  step-Kept now (starts wait) s v a = start-Kept now wait s v a
  step-Kept now (restarts wait) s v a = restart-Kept now wait s v a
  step-Kept now (lease_enters true) s v a =
      ground (arith, start_turn-Kept true (record s { leases = suc s.leases }))
  step-Kept now (lease_enters false) s v a = ground arith
  step-Kept now (lease_leaves used) s v a = ground arith
  step-Kept now background_runs s v a =
      ground (arith, start_turn-Kept false (record s { background = s.background - 1 }))
  step-Kept now stops s v a = stop-Kept s a
  step-Kept now registers s v a = ground arith
  step-Kept now shuts_down s v a = ground (arith, stop-Kept (record s { closing = true }))
  step-Kept now shutdown_ends s v a = ground arith
  step-Kept now touches s v a = ground arith
  step-Kept now idle_checks s v a = ground arith
  step-Kept now (clears f) s v a = ground (arith, boot_clear-Kept now f s a)
  step-Kept now (phases p) s v a = ground arith
  step-Kept now (gpu_ready x) s v a = ground arith
  step-Kept now launches s v a = ground arith
  step-Kept now connects s v a = ground arith
  step-Kept now completes s v a = ground (arith, boot_completed-Kept now s v a)
  step-Kept now breaks s v a = ground (arith, fail-Kept true now internal_failure s a)
  step-Kept now (fails f) s v a = ground (arith, fail-Kept true now f s a)
  step-Kept now (qemu_exits code h f) s v a = ground arith
  step-Kept now watcher_fires s v a = fire-Kept now s v a
  step-Kept now (stop_ends f) s v a = ground (arith, stop_body-Kept f s.stop_task s a)

  run-Kept : (s : Sup) (es : List (ℕ × Event)) → Inv s → At i s → Kept i c s (run s es)
  unfolding run
  run-Kept s [] v a = ground arith
  run-Kept s ((now, e) ∷ es) v a =
      let k = step-Kept now e s v a in
      Kept-trans s _ _ k (run-Kept (step now e s) es (step-Inv now e s v) k.still)

init-At : (i : ℕ) (cfg : Config) (store : Store) → At i (init cfg store)
unfolding init
init-At i cfg store = ground arith

-- After any history a future that is not answered is the current one, and Android starts or stops:
-- where it is stopped or running nobody waits for a boot.
pub waiters_answered :
    (cfg : Config) (store : Store) (es : List (ℕ × Event)) (i : ℕ)
    → let s = run (init cfg store) es in
      s.futures i ≡ pending → (s.boot_done ≡ some i) × ((s.state ≡ starting) ⊎ (s.state ≡ stopping))
waiters_answered cfg store es i =
    let v = run-Inv _ es (init-Inv cfg store) in
    let a = (run-Kept i conflict _ es (init-Inv cfg store) (init-At i cfg store)).still in
    λ p. ground (arith, v, a, p)

answer_same :
    (x y : Fut)
    → x ≢ pending
    → x ≢ unmade
    → (x ≡ resolved → y ≡ resolved)
    → ((c : Code) → x ≡ failed c → y ≡ failed c)
    → y ≡ x
answer_same unmade y p u r f = absurd (u refl)
answer_same pending y p u r f = absurd (p refl)
answer_same resolved y p u r f = r refl
answer_same (failed c) y p u r f = f c refl

-- The answer of a start never changes: a future that was made and is answered stays as it is through
-- any later history.
answer_stays :
    (cfg : Config) (store : Store) (es fs : List (ℕ × Event)) (i : ℕ)
    → let s = run (init cfg store) es in
      s.futures i ≢ pending → s.futures i ≢ unmade → (run s fs).futures i ≡ s.futures i
answer_stays cfg store es fs i p u =
    let s = run (init cfg store) es in
    let v = init-Inv cfg store in
    let kept = λ (c : Code).
      run-Kept i c s fs (run-Inv _ es v) (run-Kept i c _ es v (init-At i cfg store)).still in
    answer_same (s.futures i) ((run s fs).futures i) p u (kept conflict).resolved_stays
      (λ c. (kept c).failed_stays)
