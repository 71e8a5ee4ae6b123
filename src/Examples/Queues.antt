-- ===== src/Examples/Queues.antt =====
-- The queues and the wheel of a session at concrete inputs.
use android_appliance.Base.{ℕ, ◌≤◌, ◌≡◌, refl, some, true, false, List, [], ◌∷◌, ◌++◌, length}
use android_appliance.Base.Int.{ℤ, pos}
use android_appliance.Base.Float.{whole}
use android_appliance.Session.Outbox.{
  Event, sends, writes, refreshes, max_outbox, new_outbox, run, step, send,
}
use android_appliance.Session.Delivery.{delivered, run_delivers}
use android_appliance.Session.Scroll.{Notch, Round, cut_off, sent_whole, scroll}
use android_appliance.Session.Lifting.{Leaves, scroll-Leaves}

abbrev three_messages : List (Event ℕ)
three_messages = sends 1 ∷ sends 2 ∷ writes ∷ refreshes 9 ∷ sends 3 ∷ writes ∷ []

run_delivers_example :
    let o = run three_messages new_outbox in
    (delivered o.written ++ o.waiting ≡ 1 ∷ 2 ∷ 3 ∷ []) × (length o.waiting ≤ max_outbox)
run_delivers_example = run_delivers three_messages (unfold run step send in refl)

abbrev notch : Notch ℤ
notch = record { x = pos 500; y = pos 900; dx = pos 0; dy = pos 240 }

-- A whole drag, and a second one that is cut off after its press.
abbrev two_drags : List (Round ℤ)
two_drags =
    record { running = true; identifier = 5; sending = sent_whole; during = notch ∷ [] }
    ∷ record { running = true; identifier = 6; sending = cut_off 1; during = [] }
    ∷ []

scroll-Leaves_example : Leaves (scroll whole (some notch) two_drags) (λ i. false)
scroll-Leaves_example =
    scroll-Leaves whole (some notch) two_drags (λ i. false) ((refl, tt), ((refl, tt), tt))
