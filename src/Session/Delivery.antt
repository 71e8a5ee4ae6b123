-- ===== src/Session/Delivery.antt =====
-- No message and no job is lost or reordered (session.py: Lane, Session.send, _write).
use android_appliance.Base.{
  ℕ, ◌≤◌, ◌≡◌, refl, sym, ◌∙◌, ap, subst, Bool, true, false, List, [], ◌∷◌, ◌++◌, ltb, length,
  arith, inl, inr, Bool-cases, append_assoc, append_nil, length-append,
}
use android_appliance.Session.Outbox.{
  max_outbox, max_lane, Written, message, refresh, Outbox, Event, sends, writes, refreshes, ends,
  Lane, Move, puts, runs, new_outbox, end_with, send, write_from, refresh_from, step, run, put,
  work,
}

module _ {M : Type 0} where
  abbrev pub messages : List (Event M) → List M
  messages [] = []
  messages (sends m ∷ es) = m ∷ messages es
  messages (_ ∷ es) = messages es

  abbrev pub delivered : List (Written M) → List M
  delivered [] = []
  delivered (message m ∷ ws) = m ∷ delivered ws
  delivered (refresh s ∷ ws) = delivered ws

  -- The messages that were sent or wait.
  abbrev known : Outbox M → List M
  known o = delivered o.written ++ o.waiting

  delivered-append :
      (vs ws : List (Written M)) → delivered (vs ++ ws) ≡ delivered vs ++ delivered ws
  delivered-append [] ws = refl
  delivered-append (message m ∷ vs) ws = ap (λ l. m ∷ l) (delivered-append vs ws)
  delivered-append (refresh s ∷ vs) ws = delivered-append vs ws

  abbrev outbox : List M → List (Written M) → ℕ → Bool → Outbox M
  outbox ms ws c b = record { waiting = ms; written = ws; close_code = c; is_ended = b }

  write-is_ended : (ms : List M) (o : Outbox M) → (write_from ms o).is_ended ≡ o.is_ended
  write-is_ended [] o = refl
  write-is_ended (m ∷ ms) o = refl

  refresh-is_ended :
      (s : M) (ms : List M) (o : Outbox M) → (refresh_from s ms o).is_ended ≡ o.is_ended
  refresh-is_ended s [] o = refl
  refresh-is_ended s (m ∷ ms) o = refl

  send-is_ended : (m : M) (o : Outbox M) → o.is_ended ≡ true → (send m o).is_ended ≡ true
  unfolding send end_with
  send-is_ended m o h = elim (Bool-cases (ltb (length o.waiting) max_outbox)) [
    | inl e ↦ rw e h
    | inr e ↦ rw e refl
  ]

  send_room :
      (m : M) (ms : List M) (ws : List (Written M)) (c : ℕ) (b : Bool)
      → ltb (length ms) max_outbox ≡ true
      → send m (outbox ms ws c b) ≡ outbox (ms ++ m ∷ []) ws c b
  unfolding send
  send_room m ms ws c b e = rw e refl

  send_full :
      (m : M) (o : Outbox M)
      → ltb (length o.waiting) max_outbox ≡ false
      → (send m o).is_ended ≡ true
  unfolding send end_with
  send_full m o e = rw e refl

  still_ended :
      (es : List (Event M)) (o : Outbox M) → o.is_ended ≡ true → (run es o).is_ended ≡ true
  unfolding run step send end_with
  still_ended [] o h = h
  still_ended (sends m ∷ es) o h = still_ended es (send m o) (send-is_ended m o h)
  still_ended (writes ∷ es) o h =
      still_ended es (write_from o.waiting o) (write-is_ended o.waiting o ∙ h)
  still_ended (refreshes s ∷ es) o h =
      still_ended es (refresh_from s o.waiting o) (refresh-is_ended s o.waiting o ∙ h)
  still_ended (ends c ∷ es) o h = still_ended es _ refl

  -- What is known at the end, for an outbox that did not end the session.
  abbrev Keeps : List (Event M) → List M → Outbox M → Type 0
  Keeps es ms o =
      (run es o).is_ended ≡ false
      → (known (run es o) ≡ ms ++ messages es) × (length (run es o).waiting ≤ max_outbox)

  Keeps-same :
      (es : List (Event M)) (ms ns : List M) (o : Outbox M)
      → ms ≡ ns
      → Keeps es ms o
      → Keeps es ns o
  Keeps-same es ms ns o e h = subst (λ l. Keeps es l o) e h

  run-Keeps :
      (es : List (Event M)) (ms : List M) (ws : List (Written M)) (c : ℕ) (b : Bool)
      → length ms ≤ max_outbox
      → Keeps es (delivered ws ++ ms) (outbox ms ws c b)
  unfolding run step end_with
  run-Keeps [] ms ws c b h k = (sym (append_nil (delivered ws ++ ms)), h)
  run-Keeps (sends m ∷ es) ms ws c b h k = elim (Bool-cases (ltb (length ms) max_outbox)) [
    | inr e ↦
        let over = still_ended es (send m (outbox ms ws c b)) (send_full m (outbox ms ws c b) e) in
        absurd cc
    | inl e ↦
        let same = send_room m ms ws c b e in
        let rec = run-Keeps es (ms ++ m ∷ []) ws c b (ground (arith, length-append ms (m ∷ []))) in
        let now = subst (Keeps es (delivered ws ++ (ms ++ m ∷ []))) (sym same) rec k in
        (
          now.0
              ∙ ap (λ l. l ++ messages es) (sym (append_assoc (delivered ws) ms (m ∷ [])))
              ∙ append_assoc (delivered ws ++ ms) (m ∷ []) (messages es),
          now.1,
        )
  ]
  run-Keeps (writes ∷ es) [] ws c b h k = run-Keeps es [] ws c b h k
  run-Keeps (writes ∷ es) (m ∷ ms) ws c b h k =
      let same =
        ap (λ l. l ++ ms) (delivered-append ws (message m ∷ []))
        ∙ append_assoc (delivered ws) (m ∷ []) ms in
      Keeps-same es _ (delivered ws ++ m ∷ ms) (outbox ms (ws ++ message m ∷ []) c b) same
        (run-Keeps es ms (ws ++ message m ∷ []) c b (ground arith)) k
  run-Keeps (refreshes s ∷ es) [] ws c b h k =
      let same =
        ap (λ l. l ++ []) (delivered-append ws (refresh s ∷ []) ∙ append_nil (delivered ws)) in
      Keeps-same es _ (delivered ws ++ []) (outbox [] (ws ++ refresh s ∷ []) c b) same
        (run-Keeps es [] (ws ++ refresh s ∷ []) c b h) k
  run-Keeps (refreshes s ∷ es) (m ∷ ms) ws c b h k = run-Keeps es (m ∷ ms) ws c b h k
  run-Keeps (ends d ∷ es) ms ws c b h k =
      let over = still_ended es (end_with d (outbox ms ws c b)) refl in absurd cc

  -- As long as nothing ended the session, every message is written once and in order or still waits,
  -- with at most 512 that wait; the refreshed status in between neither replaces nor delays one.
  pub run_delivers :
      (es : List (Event M))
      → (run es new_outbox).is_ended ≡ false
      → let o = run es new_outbox in
        (delivered o.written ++ o.waiting ≡ messages es) × (length o.waiting ≤ max_outbox)
  run_delivers es h = run-Keeps es [] [] 1000 false (omega arith) h

module _ {J : Type 0} where
  abbrev lane : List J → List J → Lane J
  lane js rs = record { jobs = js; ran = rs }

  -- A lane runs the jobs that it took in the order in which they came, and the rest wait.
  abbrev Works : List J → List J → Lane J × List J → Type 0
  Works js rs (k, taken) = (k.ran ++ k.jobs ≡ (rs ++ js) ++ taken) × (length k.jobs ≤ max_lane)

  work-Works :
      (ms : List (Move J)) (js rs : List J)
      → length js ≤ max_lane
      → Works js rs (work ms (lane js rs))
  unfolding work put
  work-Works [] js rs h = (sym (append_nil (rs ++ js)), h)
  work-Works (puts j ∷ ms) js rs h = elim (Bool-cases (ltb (length js) max_lane)) [
    | inl e ↦
        let rec = work-Works ms (js ++ j ∷ []) rs (ground (arith, length-append js (j ∷ []))) in
        let k = work ms (lane (js ++ j ∷ []) rs) in
        rw e (
          rec.0
              ∙ ap (λ l. l ++ k.1) (sym (append_assoc rs js (j ∷ [])))
              ∙ append_assoc (rs ++ js) (j ∷ []) k.1,
          rec.1,
        )
    | inr e ↦ rw e (work-Works ms js rs h)
  ]
  work-Works (runs ∷ ms) [] rs h = work-Works ms [] rs h
  work-Works (runs ∷ ms) (j ∷ js) rs h =
      let rec = work-Works ms js (rs ++ j ∷ []) (ground arith) in
      let k = work ms (lane js (rs ++ j ∷ [])) in
      (rec.0 ∙ ap (λ l. l ++ k.1) (append_assoc rs (j ∷ []) js), rec.1)
