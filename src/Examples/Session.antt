-- ===== src/Examples/Session.antt =====
-- The rate limit of a session at concrete inputs.
use android_appliance.Session.Messages.{
  Json, object, string_value, field, no_fields, presses_key, bad_request, string,
}
use android_appliance.Session.Dispatch.{dispatch, handle}
use android_appliance.Session.Fields.{IsSafe}
use android_appliance.Session.Safety.{dispatch-IsSafe}
use android_appliance.Session.Viewers.{streaming, Event, joins, starts, leaves, ends, run, new_hub}
use android_appliance.Session.Counting.{viewers_counted}
use android_appliance.Input.Keys.{down, valid_key}
use android_appliance.Base.Text.{Text, codes, text_eq}
use android_appliance.Base.{Option, some, none, true, length, List, if◌then◌else◌}
use android_appliance.Base.{◌+◌, ◌-◌, ◌*◌, ◌≤◌, ◌≡◌, refl, List, [], ◌∷◌, ℕ, arith}
use android_appliance.Session.Limits.{new_bucket, read, errors}
use android_appliance.Session.Rate.{last, rate_bounded}

-- Four messages, three of them in the same tick.
abbrev burst_times : List ℕ
burst_times = 10 ∷ 10 ∷ 10 ∷ 1000010 ∷ []

burst_read : (read burst_times (new_bucket 1 2 10)).1 ≡ 2
unfolding read new_bucket
burst_read = refl

rate_bounded_example :
    let b = new_bucket 1 2 10 in
    let inflow = 1 * (last 10 burst_times - 10) in
    ((read burst_times b).1 * 1000000 ≤ 2 * 1000000 + inflow)
    × ((errors burst_times b).1 * 1000000 ≤ 2 * 1000000 + inflow)
rate_bounded_example =
    rate_bounded 1 2 10 burst_times (omega arith, (omega arith, (omega arith, (omega arith, tt))))

abbrev steady_times : List ℕ
steady_times = 1000010 ∷ 2000010 ∷ []

abbrev parse : Text → Option (Json Unit)
parse t =
    if text_eq t (codes "key")
    then some (
        object (
          field (codes "type") (string_value (codes "key")) (
            field (codes "key") (string_value (codes "Enter"))
              (field (codes "action") (string_value (codes "down")) no_fields))))
    else none

enters_key :
    dispatch (λ n. true) (λ x. true) parse true (some (codes "key"))
    ≡ presses_key (codes "Enter") down
unfolding dispatch handle string valid_key
enters_key = refl

refuses_garbage : dispatch (λ n. true) (λ x. true) parse true (some (codes "{")) ≡ bad_request
unfolding dispatch
refuses_garbage = refl

dispatch-IsSafe_example :
    IsSafe
      (λ n. true)
      (λ x. true)
      true
      (dispatch (λ n. true) (λ x. true) parse true (some (codes "key")))
dispatch-IsSafe_example = dispatch-IsSafe (λ n. true) (λ x. true) parse true (some (codes "key"))

abbrev history : List Event
history = joins 1 ∷ joins 2 ∷ starts 1 true ∷ starts 2 true ∷ leaves 1 ∷ ends 2 ∷ []

viewers_counted_example :
    let h = run history new_hub in
    (streaming h.sessions ≤ h.viewers)
    × (h.viewers ≤ streaming h.sessions + streaming h.leaving)
    × (length h.sessions ≤ 16)
viewers_counted_example = viewers_counted history
