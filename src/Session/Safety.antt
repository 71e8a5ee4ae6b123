-- ===== src/Session/Safety.antt =====
-- What a message can make a session do, whatever the viewer sends.
use android_appliance.Base.{
  OnSome, refl, Option, none, some, Bool, true, false, List, [], ◌∷◌, leb, if◌then◌else◌, length,
  All, arith, Bool-cases, inl, inr,
}
use android_appliance.Base.Int.{ℤ}
use android_appliance.Base.Text.{Text, codes, text_eq}
use android_appliance.Input.Keys.{Action, Button, valid_key}
use android_appliance.Session.Messages.{
  Json, null, boolean, integer, float, string_value, array, object, Fields, Point, Handling,
  bad_request, starts_stream, stops_stream, touches_at, mouse_at, scrolls_at, presses_key,
  presses_button, pastes_text, get, text_value, relay_answer, relay_candidate, is_answer, jsep,
  pong, stream_action, key_message, button_message, text_message,
}
use android_appliance.Session.Dispatch.{
  points, touch_points, touch_message, mouse_message, wheel_message, number_at, handle, handle_kind,
  handle_json, dispatch,
}
use android_appliance.Session.Fields.{
  IsClean, string-IsClean, IsNumber, IsPoint, IsSafe, number-IsNumber, points-IsPoint,
  when_running-IsSafe,
}

module _ {F : Type 0} (finite_int : ℤ → Bool) (finite_float : F → Bool) where
  touch_points-IsSafe :
      (running : Bool) (ps : Option (List (Point F)))
      → OnSome (All (IsPoint finite_int finite_float)) ps
      → IsSafe finite_int finite_float running (touch_points finite_int finite_float running ps)
  unfolding IsSafe
  touch_points-IsSafe running none h = tt
  touch_points-IsSafe running (some ps) h = elim (Bool-cases (leb (length ps) 10)) [
    | inl e ↦ rw e (
        when_running-IsSafe finite_int finite_float running (touches_at ps)
          λ r. (r, ground arith, h))
    | inr e ↦ rw e tt
  ]

  touch_message-IsSafe :
      (running : Bool) (o : Option (Json F))
      → IsSafe finite_int finite_float running (touch_message finite_int finite_float running o)
  unfolding IsSafe
  touch_message-IsSafe running (some (array items)) =
      touch_points-IsSafe running (points finite_int finite_float items)
        (points-IsPoint finite_int finite_float items)
  touch_message-IsSafe running none = tt
  touch_message-IsSafe running (some null) = tt
  touch_message-IsSafe running (some (boolean b)) = tt
  touch_message-IsSafe running (some (integer b)) = tt
  touch_message-IsSafe running (some (float b)) = tt
  touch_message-IsSafe running (some (string_value b)) = tt
  touch_message-IsSafe running (some (object b)) = tt

  mouse_message-IsSafe :
      (running : Bool) (x y b : Option (Json F))
      → OnSome (IsNumber finite_int finite_float) x
      → OnSome (IsNumber finite_int finite_float) y
      → OnSome (IsNumber finite_int finite_float) b
      → IsSafe finite_int finite_float running (mouse_message finite_int finite_float running x y b)
  unfolding IsSafe
  mouse_message-IsSafe running (some x) (some y) (some b) hx hy hb =
      when_running-IsSafe finite_int finite_float running (mouse_at x y b) λ r. (r, hx, hy, hb)
  mouse_message-IsSafe running none y b hx hy hb = tt
  mouse_message-IsSafe running (some x) none b hx hy hb = tt
  mouse_message-IsSafe running (some x) (some y) none hx hy hb = tt

  wheel_message-IsSafe :
      (running : Bool) (x y dx dy : Option (Json F))
      → OnSome (IsNumber finite_int finite_float) x
      → OnSome (IsNumber finite_int finite_float) y
      → OnSome (IsNumber finite_int finite_float) dx
      → OnSome (IsNumber finite_int finite_float) dy
      → IsSafe finite_int finite_float running
          (wheel_message finite_int finite_float running x y dx dy)
  unfolding IsSafe
  wheel_message-IsSafe running (some x) (some y) (some dx) (some dy) hx hy hdx hdy =
      when_running-IsSafe finite_int finite_float running (scrolls_at x y dx dy)
        λ r. (r, hx, hy, hdx, hdy)
  wheel_message-IsSafe running none y dx dy hx hy hdx hdy = tt
  wheel_message-IsSafe running (some x) none dx dy hx hy hdx hdy = tt
  wheel_message-IsSafe running (some x) (some y) none dy hx hy hdx hdy = tt
  wheel_message-IsSafe running (some x) (some y) (some dx) none hx hy hdx hdy = tt

  key_message-IsSafe :
      (running : Bool) (key : Option Text) (a : Option Action)
      → OnSome (IsClean 32) key
      → IsSafe finite_int finite_float running (key_message running key a)
  unfolding IsSafe
  key_message-IsSafe running (some key) (some a) h = elim (Bool-cases (valid_key key)) [
    | inl e ↦
        rw e
          (when_running-IsSafe finite_int finite_float running (presses_key key a) λ r. (r, e, h))
    | inr e ↦ rw e tt
  ]
  key_message-IsSafe running none a h = tt
  key_message-IsSafe running (some key) none h = tt

  button_message-IsSafe :
      (running : Bool) (b : Option Button) (a : Option Action)
      → IsSafe finite_int finite_float running (button_message running b a)
  unfolding IsSafe
  button_message-IsSafe running (some b) (some a) =
      when_running-IsSafe finite_int finite_float running (presses_button b a) λ r. r
  button_message-IsSafe running none a = tt
  button_message-IsSafe running (some b) none = tt

  text_message-IsSafe :
      (running : Bool) (t : Option Text)
      → OnSome (IsClean 65536) t
      → IsSafe finite_int finite_float running (text_message running t)
  unfolding IsSafe
  text_message-IsSafe running none h = tt
  text_message-IsSafe running (some []) h = tt
  text_message-IsSafe running (some (c ∷ t)) h =
      when_running-IsSafe finite_int finite_float running (pastes_text (c ∷ t)) λ r. (r, refl, h)

  pong-IsSafe :
      (running : Bool) (o : Option (Json F)) → IsSafe finite_int finite_float running (pong o)
  unfolding IsSafe
  pong-IsSafe running none = tt
  pong-IsSafe running (some null) = tt
  pong-IsSafe running (some (integer n)) = tt
  pong-IsSafe running (some (float x)) = tt
  pong-IsSafe running (some (string_value t)) = elim (Bool-cases (leb (length t) 64)) [
    | inl e ↦ rw e (ground arith)
    | inr e ↦ rw e tt
  ]
  pong-IsSafe running (some (boolean b)) = tt
  pong-IsSafe running (some (array b)) = tt
  pong-IsSafe running (some (object b)) = tt

  if-IsSafe :
      (running : Bool) (b : Bool) (h k : Handling F)
      → IsSafe finite_int finite_float running h
      → IsSafe finite_int finite_float running k
      → IsSafe finite_int finite_float running (if b then h else k)
  if-IsSafe running true h k p q = p
  if-IsSafe running false h k p q = q

  stream_action-IsSafe :
      (running : Bool) (t : Option Text) → IsSafe finite_int finite_float running (stream_action t)
  unfolding IsSafe
  stream_action-IsSafe running none = tt
  stream_action-IsSafe running (some t) =
      if-IsSafe running (text_eq t (codes "start")) starts_stream _ tt
        (if-IsSafe running (text_eq t (codes "stop")) stops_stream bad_request tt tt)

  relay_answer-IsSafe :
      (running : Bool) (t : Option Text)
      → OnSome (IsClean 65536) t
      → IsSafe finite_int finite_float running (relay_answer t)
  unfolding IsSafe
  relay_answer-IsSafe running none h = tt
  relay_answer-IsSafe running (some t) h = h

  relay_candidate-IsSafe :
      (running : Bool) (index : Option (Option ℤ)) (mid : Option (Option Text)) (t : Option Text)
      → OnSome (IsClean 4096) t
      → IsSafe finite_int finite_float running (relay_candidate index mid t)
  unfolding IsSafe
  relay_candidate-IsSafe running (some index) (some mid) (some t) h = h
  relay_candidate-IsSafe running none mid t h = tt
  relay_candidate-IsSafe running (some index) none t h = tt
  relay_candidate-IsSafe running (some index) (some mid) none h = tt

  jsep-IsSafe :
      (running : Bool) (o : Option (Json F)) → IsSafe finite_int finite_float running (jsep o)
  unfolding IsSafe jsep
  jsep-IsSafe running (some (object t)) =
      if-IsSafe running (is_answer (text_value (get (codes "type") t))) _ _
        (relay_answer-IsSafe running _ (string-IsClean t (codes "sdp") 65536))
        (relay_candidate-IsSafe running _ _ _ (string-IsClean t (codes "candidate") 4096))
  jsep-IsSafe running none = tt
  jsep-IsSafe running (some null) = tt
  jsep-IsSafe running (some (boolean b)) = tt
  jsep-IsSafe running (some (integer b)) = tt
  jsep-IsSafe running (some (float b)) = tt
  jsep-IsSafe running (some (string_value b)) = tt
  jsep-IsSafe running (some (array b)) = tt

  bad-IsSafe : (running : Bool) → IsSafe finite_int finite_float running bad_request
  unfolding IsSafe
  bad-IsSafe running = tt

  handle-IsSafe :
      (running : Bool) (kind : Text) (message : Fields F)
      → IsSafe finite_int finite_float running (handle finite_int finite_float running kind message)
  unfolding handle
  handle-IsSafe running kind t =
      let n : (key : Text)
          → OnSome (IsNumber finite_int finite_float) (number_at finite_int finite_float t key) =
        λ key. number-IsNumber finite_int finite_float (get key t) in
      if-IsSafe running (text_eq kind (codes "ping")) _ _ (pong-IsSafe running (get (codes "t") t))
        (if-IsSafe running (text_eq kind (codes "stream")) _ _
          (stream_action-IsSafe running (text_value (get (codes "action") t)))
          (if-IsSafe running (text_eq kind (codes "jsep")) _ _
            (jsep-IsSafe running (get (codes "data") t))
            (if-IsSafe running (text_eq kind (codes "touch")) _ _
              (touch_message-IsSafe running (get (codes "touches") t))
              (if-IsSafe running (text_eq kind (codes "mouse")) _ _
                (mouse_message-IsSafe running _ _ _ (n (codes "x")) (n (codes "y"))
                  (n (codes "buttons")))
                (if-IsSafe running (text_eq kind (codes "wheel")) _ _
                  (wheel_message-IsSafe running _ _ _ _ (n (codes "x")) (n (codes "y"))
                    (n (codes "dx")) (n (codes "dy")))
                  (if-IsSafe running (text_eq kind (codes "key")) _ _
                    (key_message-IsSafe running _ _ (string-IsClean t (codes "key") 32))
                    (if-IsSafe running (text_eq kind (codes "button")) _ _
                      (button_message-IsSafe running _ _)
                      (if-IsSafe running (text_eq kind (codes "text")) _ _
                        (text_message-IsSafe running _ (string-IsClean t (codes "text") 65536))
                        (bad-IsSafe running)))))))))

  handle_kind-IsSafe :
      (running : Bool) (kind : Option Text) (message : Fields F)
      → IsSafe finite_int finite_float running
          (handle_kind finite_int finite_float running kind message)
  handle_kind-IsSafe running none message = bad-IsSafe running
  handle_kind-IsSafe running (some kind) message = handle-IsSafe running kind message

  handle_json-IsSafe :
      (running : Bool) (o : Option (Json F))
      → IsSafe finite_int finite_float running (handle_json finite_int finite_float running o)
  handle_json-IsSafe running (some (object t)) =
      handle_kind-IsSafe running (text_value (get (codes "type") t)) t
  handle_json-IsSafe running none = bad-IsSafe running
  handle_json-IsSafe running (some null) = bad-IsSafe running
  handle_json-IsSafe running (some (boolean b)) = bad-IsSafe running
  handle_json-IsSafe running (some (integer b)) = bad-IsSafe running
  handle_json-IsSafe running (some (float b)) = bad-IsSafe running
  handle_json-IsSafe running (some (string_value b)) = bad-IsSafe running
  handle_json-IsSafe running (some (array b)) = bad-IsSafe running

  -- Whatever a viewer sends, the session passes on only input that is within its limits and, but for
  -- the echo of a ping and the messages of streams, only while Android runs: at most ten touches with
  -- short identifiers and finite numbers, a valid key, a text of at most 65536 characters; and to the
  -- emulator's stream only an answer or a candidate. The keys, the texts, the answers and the candidates'
  -- own texts are bounded and without a NUL character or a lone surrogate; of the sdpMid and the
  -- sdpMLineIndex of a candidate only the type is checked.
  pub dispatch-IsSafe :
      (loads : Text → Option (Json F)) (running : Bool) (text : Option Text)
      → IsSafe finite_int finite_float running (dispatch finite_int finite_float loads running text)
  unfolding dispatch
  dispatch-IsSafe loads running none = bad-IsSafe running
  dispatch-IsSafe loads running (some t) =
      if-IsSafe running (leb (length t) 262144) _ _ (handle_json-IsSafe running (loads t))
        (bad-IsSafe running)
