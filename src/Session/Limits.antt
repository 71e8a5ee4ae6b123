-- ===== src/Session/Limits.antt =====
-- The token bucket of a session (session.py: Bucket, and its use in _read and error). Times are in
-- ticks of a microsecond and tokens in millionths, so a rate is millionths of a token in a tick; the
-- source computes the same with floats.
use android_appliance.Base.{
  ℕ, ◌+◌, ◌-◌, ◌*◌, Bool, true, false, List, [], ◌∷◌, ltb, if◌then◌else◌, min, suc,
}

pub record Bucket : Type 0 where
  pub rate : ℕ
  pub burst : ℕ
  pub tokens : ℕ
  pub time : ℕ

abbrev pub million : ℕ
million = 1000000

unfoldable pub new_bucket : ℕ → ℕ → ℕ → Bucket
new_bucket rate burst now = record {
  rate = rate;
  burst = burst * million;
  tokens = burst * million;
  time = now;
}

abbrev pub filled : ℕ → Bucket → ℕ
filled now b = min b.burst (b.tokens + b.rate * (now - b.time))

unfoldable pub take : ℕ → Bucket → Bucket × Bool
take now b =
    let t = filled now b in
    if ltb t million
    then (record b { tokens = t; time = now }, false)
    else (record b { tokens = t - million; time = now }, true)

-- _read: the messages that come at the times, up to the one that ends the session. The result has
-- the bucket, the number of messages that are dispatched, and whether the session goes on.
unfoldable pub read : List ℕ → Bucket → Bucket × ℕ × Bool
unfolding take
read [] b = (b, 0, true)
read (now ∷ ts) b =
    let (c, taken) = take now b in
    let (d, n, open') = read ts c in if taken then (d, suc n, open') else (c, 0, false)

-- error: how many of the errors at the times are sent.
unfoldable pub errors : List ℕ → Bucket → Bucket × ℕ
unfolding take
errors [] b = (b, 0)
errors (now ∷ ts) b =
    let (c, taken) = take now b in let (d, n) = errors ts c in (d, if taken then suc n else n)
