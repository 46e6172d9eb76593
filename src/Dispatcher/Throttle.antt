-- ===== src/Dispatcher/Throttle.antt =====
-- internal/telegram/dispatcher.go (chatBucket, waitChat): the token bucket of a chat. Time is in
-- nanoseconds and a token is 10^9 parts, so a refill of one token a second adds one part a
-- nanosecond, without the rounding of the source's floats.
pub mod Laws
use aegis_go.Prelude.{
  ℕ, zero, suc, ◌+◌, ◌-◌, min, Bool, true, false, List, [], ◌∷◌, Option, none, some, if◌then◌else◌,
  leb, ltb,
}

abbrev pub token : ℕ
token = 1000000000

abbrev pub bucket_burst : ℕ
bucket_burst = 3000000000

abbrev pub bucket_max_wait : ℕ
bucket_max_wait = 5000000000

pub record Bucket : Type 0 where
  pub tokens : ℕ
  pub last : ℕ

abbrev refill : ℕ → Bucket → Bucket
refill now b = record { tokens = min bucket_burst (b.tokens + (now - b.last)); last = now }

-- The critical section of one turn: a token, if one is there.
unfoldable pub attempt : ℕ → Bucket → Bool × Bucket
attempt now b =
    let full = refill now b in
    if leb token full.tokens
    then (true, record full { tokens = full.tokens - token })
    else (false, full)

abbrev pub count : Bool → ℕ → ℕ
count true n = suc n
count false n = n

-- The turns of any workers, by their times; the answer is how many got a token.
unfoldable pub attempts : List ℕ → Bucket → ℕ × Bucket
attempts [] b = (0, b)
attempts (now ∷ later) b =
    let (got, b') = attempt now b in let (n, b'') = attempts later b' in (count got n, b'')

pub data Waited : Type 0 where
  passed : Waited
  rate_limited : Waited
  cancelled : Waited

-- What happens in a turn's sleep: the turns of others, how much longer it takes, and `ctx.Done()`.
pub record Sleep : Type 0 where
  pub others : List ℕ
  pub late : ℕ
  pub done : Bool

-- The loop on fuel, which is a bound on its turns.
unfoldable pub wait_loop : (ℕ → Sleep) → ℕ → ℕ → ℕ → ℕ → Bucket → Option (Waited × Bucket)
wait_loop sleeps deadline zero i now b = none
wait_loop sleeps deadline (suc fuel) i now b =
    let (got, b') = attempt now b in
    let need = token - b'.tokens in
    let rest =
      wait_loop sleeps deadline fuel (suc i) (now + need + (sleeps i).late)
        (attempts (sleeps i).others b').1 in
    if got
    then some (passed, b')
    else if ltb deadline (now + need)
    then some (rate_limited, b')
    else if (sleeps i).done
    then some (cancelled, b')
    else rest

abbrev pub or_fresh : ℕ → Option Bucket → Bucket
or_fresh now none = record { tokens = bucket_burst; last = now }
or_fresh now (some b) = b

-- A turn that goes on takes at least a nanosecond, so this many turns pass the deadline.
unfoldable pub wait_chat : (ℕ → Sleep) → ℕ → Option Bucket → Option (Waited × Bucket)
wait_chat sleeps now b =
    wait_loop sleeps (now + bucket_max_wait) (suc bucket_max_wait) 0 now (or_fresh now b)
