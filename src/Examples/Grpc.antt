-- ===== src/Examples/Grpc.antt =====
-- The input stream at concrete inputs.
use android_appliance.Base.{◌≡◌, refl, List, [], ◌∷◌, some}
use android_appliance.Grpc.Stream.{
  connection_error, new_input, write, close, Event, writes, writes_done, writes_failed, run, step,
  attempt, write_done, write_failed,
}
use android_appliance.Grpc.Calls.{OnlyCurrent, calls_end}

abbrev broken : List Event
broken = writes ∷ writes_failed ∷ writes_done ∷ []

-- A broken call is replaced, and the event goes out on the new one.
replaced : (run broken new_input).current ≡ some 1
unfolding run step write write_done write_failed attempt
replaced = refl

calls_end_example :
    let s = run broken new_input in
    let t = run (writes ∷ []) (close s) in
    OnlyCurrent s.current s.live × (t.live ≡ []) × ((write t).1 ≡ connection_error)
calls_end_example = calls_end broken (writes ∷ [])
