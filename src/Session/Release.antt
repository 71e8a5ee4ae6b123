-- ===== src/Session/Release.antt =====
-- The keys of a session from its start to its end (session.py: _press, _paste, status_changed, _let_go),
-- with sends that are lost and sessions that are cut off.
use android_appliance.Base.{
  ◌≤◌, ◌≡◌, refl, ap, ◌∙◌, Bool, true, false, List, [], ◌∷◌, arith, if◌then◌else◌, length, ℕ,
}
use android_appliance.Input.Keys.{KeySpec, Action, up, down, press}
use android_appliance.Session.Keyboard.{HeldName, Held, press_key, let_go, all_sent}
use android_appliance.Session.Keys.{
  Board, strike, typed, deliver, covers, HeldUp, Consistent-HeldUp, Inv, IsThroughFor,
  press_key-Inv, press_key_off,
}

-- What happens to the keys: a key message is handled, and of its calls to the emulator these get
-- through, a call that is cancelled making no more; Android stops, and the session forgets its keys; or
-- Android starts, with an emulator of which no key is down.
pub data KeyStep : Type 0 where
  presses : HeldName → Action → List Bool → KeyStep
  stops starts : KeyStep

-- Whether Android runs, what is held, and what is down.
pub record Keys : Type 0 where
  pub running : Bool
  pub held : Held
  pub board : Board

module _ (printable : ℕ → Bool) where
  abbrev pub key_step : KeyStep → Keys → Keys
  key_step (presses n a fs) s =
      let (h, os) = press_key printable s.running n a s.held in
      record { running = s.running; held = h; board = typed (deliver fs os) s.board }
  key_step stops s = record { running = false; held = []; board = λ k. false }
  key_step starts s = record {
    running = true;
    held = s.held;
    board = λ k. if s.running then s.board k else false;
  }

  pub key_steps : List KeyStep → Keys → Keys
  key_steps [] s = s
  key_steps (c ∷ cs) s = key_steps cs (key_step c s)

-- The emulator gets each key that goes up.
abbrev pub IsGot : KeyStep → Type 0
IsGot (presses n up (true ∷ fs)) = Unit
IsGot (presses n up _) = ⊥
IsGot _ = Unit

abbrev pub AllGot : List KeyStep → Type 0
AllGot [] = Unit
AllGot (c ∷ cs) = IsGot c × AllGot cs

got-IsThroughFor :
    (n : HeldName) (a : Action) (fs : List Bool) (running is_down : Bool)
    → IsGot (presses n a fs)
    → (running ≡ false → is_down ≡ false)
    → IsThroughFor a running fs is_down
got-IsThroughFor n up (true ∷ fs) true b g h = tt
got-IsThroughFor n up (true ∷ fs) false b g h = h refl
got-IsThroughFor n up (false ∷ fs) r b g h = absurd g
got-IsThroughFor n up [] r b g h = absurd g
got-IsThroughFor n down fs r b g h = tt
got-IsThroughFor n press fs r b g h = tt

-- What holds after each step, at the key `k`.
abbrev KeyInv : (ℕ → Bool) → KeySpec → Keys → Type 0
KeyInv printable k s = Inv printable k s.held s.board × (s.running ≡ false → s.board k ≡ false)

still_off :
    (printable : ℕ → Bool) (n : HeldName) (a : Action) (fs : List Bool) (running : Bool) (h : Held)
    (b : Board) (k : KeySpec)
    → (running ≡ false → b k ≡ false)
    → running ≡ false
    → typed (deliver fs (press_key printable running n a h).1) b k ≡ false
still_off printable n a fs true h b k o r = cc
still_off printable n a fs false h b k o r =
    ap (λ (d : Board). d k) (press_key_off printable fs n a h b) ∙ o refl

key_step-KeyInv :
    (printable : ℕ → Bool) (k : KeySpec) (c : KeyStep) (s : Keys)
    → IsGot c
    → KeyInv printable k s
    → KeyInv printable k (key_step printable c s)
key_step-KeyInv printable k (presses n a fs) s g v = (
  press_key-Inv printable s.running fs k n a s.held s.board
      (got-IsThroughFor n a fs s.running (s.board k) g v.1) v.0,
  still_off printable n a fs s.running s.held s.board k v.1,
)
key_step-KeyInv printable k stops s g v =
    (record { consistent = tt; bounded = omega arith; covered = λ q. cc }, λ r. refl)
key_step-KeyInv printable k starts s g v = (
  record {
    consistent = (v.0).consistent;
    bounded = (v.0).bounded;
    covered = λ q. ground (arith, (v.0).covered, q);
  },
  λ r. cc,
)

key_steps-KeyInv :
    (printable : ℕ → Bool) (k : KeySpec) (cs : List KeyStep) (s : Keys)
    → AllGot cs
    → KeyInv printable k s
    → KeyInv printable k (key_steps printable cs s)
unfolding key_steps
key_steps-KeyInv printable k [] s g v = v
key_steps-KeyInv printable k (c ∷ cs) s g v =
    key_steps-KeyInv printable k cs (key_step printable c s) g.1
      (key_step-KeyInv printable k c s g.0 v)

all_sent-up :
    (h : Held) (b : Board) (k : KeySpec)
    → HeldUp h
    → typed (all_sent h) b k ≡ (if covers h k then false else b k)
all_sent-up [] b k u = refl
all_sent-up ((n, e) ∷ h) b k u = all_sent-up h (strike e b) k u.1 ∙ ground (arith, u.0)

-- The keys when a session begins: none is held.
abbrev pub fresh_keys : Bool → Board → Keys
fresh_keys running b = record { running = running; held = []; board = b }

-- After any key and button messages of a session, and stops and starts of Android between them, the
-- release at its end leaves no key down that was up before the session; nothing is held any more, and
-- no more than 32 keys were. Presses and pastes may fail or be cut off anywhere; but the emulator gets
-- each key that goes up by a message, and the release itself.
pub let_go-clears :
    (printable : ℕ → Bool) (k : KeySpec) (cs : List KeyStep) (running : Bool) (b : Board)
    → AllGot cs
    → b k ≡ false
    → let s = key_steps printable cs (fresh_keys running b) in
      let (h', os) = let_go s.running s.held in
      (h' ≡ []) × (length s.held ≤ 32) × (typed os s.board k ≡ false)
unfolding let_go
let_go-clears printable k cs running b g z =
    let s = key_steps printable cs (fresh_keys running b) in
    let v = key_steps-KeyInv printable k cs (fresh_keys running b) g (
      record { consistent = tt; bounded = omega arith; covered = λ q. ground (arith, z, q) },
      λ r. z,
    ) in
    released s.running s.held s.board v.0 v.1
  where
    released :
        (r : Bool) (h : Held) (b' : Board)
        → Inv printable k h b'
        → (r ≡ false → b' k ≡ false)
        → let (h', os) = let_go r h in (h' ≡ []) × (length h ≤ 32) × (typed os b' k ≡ false)
    released true h b' v o = (
      refl,
      v.bounded,
      all_sent-up h b' k (Consistent-HeldUp printable h v.consistent) ∙ ground (arith, v.covered),
    )
    released false h b' v o = (refl, v.bounded, o refl)
