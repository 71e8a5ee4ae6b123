-- ===== src/Daemon/Silence.antt =====
-- Which connections the watchdog closes.
use android_appliance.Base.{
  ℕ, ◌+◌, ◌≤◌, ◌≡◌, ◌↔◌, ◌⊎◌, refl, inl, inr, Option, none, some, Bool, true, false, ◌&&◌, ◌||◌,
  List, [], ◌∷◌, ◌==◌, leb, if◌then◌else◌, arith, Bool-cases, sym, ◌∙◌,
}
use android_appliance.Daemon.Watchdog.{
  Connection, waiting, Since, since_of, or_now, note, request_timeout, overdue, watch_round,
  History, watched, closed,
}

abbrev pub member : ℕ → List ℕ → Bool
member p [] = false
member p (q ∷ qs) = q == p || member p qs

-- The connection waits in every round back to one at the time s.
abbrev pub WaitsSince : ℕ → ℕ → History → Type 0
WaitsSince p s [] = ⊥
WaitsSince p s ((now, cs) ∷ older) =
    (member p (waiting cs) ≡ true) × ((now ≡ s) ⊎ WaitsSince p s older)

-- The clock does not go back.
abbrev pub IsClock : History → Type 0
IsClock [] = Unit
IsClock ((now, cs) ∷ []) = Unit
IsClock ((now, cs) ∷ (before, ds) ∷ older) = (before ≤ now) × IsClock ((before, ds) ∷ older)

since_of-note :
    (p now : ℕ) (since : Since) (ps : List ℕ)
    → since_of p (note now since ps)
      ≡ (if member p ps then some (or_now now (since_of p since)) else none)
since_of-note p now since [] = refl
since_of-note p now since (q ∷ ps) = ground (arith, since_of-note p now since ps)

member-overdue :
    (p now : ℕ) (since : Since) (ps : List ℕ)
    → member p (overdue now (note now since ps))
      ≡ member p ps && leb (or_now now (since_of p since) + request_timeout) now
member-overdue p now since [] = refl
member-overdue p now since (q ∷ ps) = ground (arith, member-overdue p now since ps)

or_now-cases :
    (now : ℕ) (o : Option ℕ)
    → ((o ≡ none) × (or_now now o ≡ now)) ⊎ ((s : ℕ) × (o ≡ some s) × (or_now now o ≡ s))
or_now-cases now none = inl (refl, refl)
or_now-cases now (some s) = inr (s, refl, refl)

-- What is kept for a connection is the time of a round since which it waits.
since_of-WaitsSince : (p s : ℕ) (h : History) → since_of p (watched h) ≡ some s → WaitsSince p s h
unfolding watched watch_round
since_of-WaitsSince p s [] e = ground arith
since_of-WaitsSince p s ((now, cs) ∷ older) e =
    let read = since_of-note p now (watched older) (waiting cs) in
    elim (Bool-cases (member p (waiting cs))) [
      | inr out ↦ ground arith
      | inl there ↦ elim (or_now-cases now (since_of p (watched older))) [
        | inl k ↦ (there, inl (ground arith))
        | inr (t, k, l) ↦ (there, inr (since_of-WaitsSince p s older (ground arith)))
      ]
    ]

waits_le :
    (p s now : ℕ) (cs : List Connection) (older : History)
    → IsClock ((now, cs) ∷ older)
    → WaitsSince p s older
    → s ≤ now
waits_le p s now cs [] c w = absurd w
waits_le p s now cs ((before, ds) ∷ older) c (m, inl e) = omega (arith, e, c.0)
waits_le p s now cs ((before, ds) ∷ older) c (m, inr w) =
    omega (arith, c.0, waits_le p s before ds older c.1 w)

IsClock-older :
    (now : ℕ) (cs : List Connection) (older : History) → IsClock ((now, cs) ∷ older) → IsClock older
IsClock-older now cs [] c = tt
IsClock-older now cs ((before, ds) ∷ older) c = c.1

or_now-le :
    (p now : ℕ) (cs : List Connection) (older : History)
    → IsClock ((now, cs) ∷ older)
    → or_now now (since_of p (watched older)) ≤ now
or_now-le p now cs older c = elim (or_now-cases now (since_of p (watched older))) [
  | inl k ↦ omega (arith, k.1)
  | inr (t, k, l) ↦ omega (arith, l, waits_le p t now cs older c (since_of-WaitsSince p t older k))
]

-- It is that of the first such round.
WaitsSince-since_of :
    (p s : ℕ) (h : History)
    → IsClock h
    → WaitsSince p s h
    → (t : ℕ) × (since_of p (watched h) ≡ some t) × (t ≤ s)
unfolding watched watch_round
WaitsSince-since_of p s [] c w = absurd w
WaitsSince-since_of p s ((now, cs) ∷ older) c (m, w) =
    let kept = or_now now (since_of p (watched older)) in
    (
      kept,
      ground (arith, since_of-note p now (watched older) (waiting cs)),
      elim w [
        | inl e ↦ omega (arith, e, or_now-le p now cs older c)
        | inr v ↦
            let (t, e, l) = WaitsSince-since_of p s older (IsClock-older now cs older c) v in
            ground (arith, e, l)
      ],
    )

kept-WaitsSince :
    (p now : ℕ) (cs : List Connection) (older : History)
    → member p (waiting cs) ≡ true
    → WaitsSince p (or_now now (since_of p (watched older))) ((now, cs) ∷ older)
unfolding watched watch_round
kept-WaitsSince p now cs older m =
    since_of-WaitsSince p (or_now now (since_of p (watched older))) ((now, cs) ∷ older)
      (ground (arith, since_of-note p now (watched older) (waiting cs)))

closed-kept :
    (p now : ℕ) (cs : List Connection) (older : History)
    → member p (closed ((now, cs) ∷ older))
      ≡ member p (waiting cs) && leb (or_now now (since_of p (watched older)) + request_timeout) now
unfolding closed watch_round
closed-kept p now cs older = member-overdue p now (watched older) (waiting cs)

both : (a b : Bool) → a && b ≡ true → (a ≡ true) × (b ≡ true)
both true b h = (refl, h)
both false b h = ground arith

closed-waited :
    (p now : ℕ) (cs : List Connection) (older : History)
    → member p (closed ((now, cs) ∷ older)) ≡ true
    → (s : ℕ) × WaitsSince p s ((now, cs) ∷ older) × (s + request_timeout ≤ now)
closed-waited p now cs older e =
    let kept = or_now now (since_of p (watched older)) in
    let k =
      both (member p (waiting cs)) (leb (kept + request_timeout) now)
        (sym (closed-kept p now cs older) ∙ e) in
    (kept, kept-WaitsSince p now cs older k.0, ground arith)

waited-closed :
    (p now s : ℕ) (cs : List Connection) (older : History)
    → IsClock ((now, cs) ∷ older)
    → WaitsSince p s ((now, cs) ∷ older)
    → s + request_timeout ≤ now
    → member p (closed ((now, cs) ∷ older)) ≡ true
unfolding watched watch_round
waited-closed p now s cs older c w l =
    let (t, e, k) = WaitsSince-since_of p s ((now, cs) ∷ older) c w in
    let early : or_now now (since_of p (watched older)) ≤ s =
      ground (arith, since_of-note p now (watched older) (waiting cs), e, k, w.0) in
    ground (arith, closed-kept p now cs older, early, w.0)

-- The last round closes a connection exactly if it waited for a request in every round back to one
-- at least 15 seconds ago.
pub closed_iff :
    (p now : ℕ) (cs : List Connection) (older : History)
    → IsClock ((now, cs) ∷ older)
    → (member p (closed ((now, cs) ∷ older)) ≡ true)
      ↔ ((s : ℕ) × WaitsSince p s ((now, cs) ∷ older) × (s + request_timeout ≤ now))
closed_iff p now cs older c =
    (closed-waited p now cs older, λ (s, w, l). waited-closed p now s cs older c w l)
