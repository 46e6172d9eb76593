-- ===== src/Dispatcher/Throttle/Laws.antt =====
-- internal/telegram/dispatcher.go (waitChat): the wait ends, the rate holds, and a chat that one worker
-- serves is never refused.
use aegis_go.Prelude.{
  ℕ, zero, suc, ◌+◌, ◌-◌, ◌*◌, ◌≤◌, ◌<◌, ◌≡◌, ◌≢◌, Bool, true, false, List, [], ◌∷◌, Option, none,
  some, ltb, arith, inl, inr, Bool-cases, lt→ltb, subst, sym,
}
use aegis_go.Dispatcher.Throttle.{
  Bucket, token, bucket_burst, bucket_max_wait, attempt, attempts, count, passed, Sleep, wait_loop,
  wait_chat, or_fresh,
}

-- A turn moves the parts that it takes and adds at most the time that passed.
attempt_balance :
    (now : ℕ) (b : Bucket)
    → b.last ≤ now
    → let (got, b') = attempt now b in
      (count got 0 * token + b'.tokens ≤ b.tokens + (now - b.last)) × (b'.last ≡ now)
unfolding attempt
attempt_balance now b h = ground arith

-- Times that do not fall.
abbrev pub IsAscending : ℕ → List ℕ → ℕ → Type 0
IsAscending from [] end = from ≤ end
IsAscending from (t ∷ ts) end = (from ≤ t) × IsAscending t ts end

count_add : (got : Bool) (n : ℕ) → count got n ≡ count got 0 + n
count_add true n = omega arith
count_add false n = omega arith

ascending_le : (from : ℕ) (ts : List ℕ) (end : ℕ) → IsAscending from ts end → from ≤ end
ascending_le from [] end h = h
ascending_le from (t ∷ ts) end h = omega (arith, ascending_le t ts end h.1, h.0)

attempts_balance :
    (ts : List ℕ) (b : Bucket) (end : ℕ)
    → IsAscending b.last ts end
    → let (n, b') = attempts ts b in n * token + b'.tokens ≤ b.tokens + (end - b.last)
unfolding attempts
attempts_balance [] b end h = omega arith
attempts_balance (t ∷ ts) b end h =
    let (balance, at) = attempt_balance t b h.0 in
    let (got, b') = attempt t b in
    let later = attempts_balance ts b' end (subst (λ x. IsAscending x ts end) (sym at) h.1) in
    omega
      (arith, balance, at, later, count_add got (attempts ts b').0, ascending_le t ts end h.1, h.0)

-- A turn leaves a full bucket at most, less the token that it takes.
attempt_burst :
    (now : ℕ) (b : Bucket)
    → let (got, b') = attempt now b in
      (count got 0 * token + b'.tokens ≤ bucket_burst) × (b'.last ≡ now)
unfolding attempt
attempt_burst now b = ground arith

-- Whatever workers take turns at a chat's bucket from some time on, at times that do not fall, and
-- whatever the bucket held and however long it rested: no more than three of them, and one for each
-- second since that time, get a token.
pub attempts_rate :
    (ts : List ℕ) (b : Bucket) (start end : ℕ)
    → IsAscending start ts end
    → (attempts ts b).0 * token ≤ bucket_burst + (end - start)
unfolding attempts
attempts_rate [] b start end h = omega arith
attempts_rate (t ∷ ts) b start end h =
    let (burst, at) = attempt_burst t b in
    let (got, b') = attempt t b in
    let later = attempts_balance ts b' end (subst (λ x. IsAscending x ts end) (sym at) h.1) in
    omega
      (arith, burst, at, later, count_add got (attempts ts b').0, ascending_le t ts end h.1, h.0)

attempt_need : (now : ℕ) (b : Bucket) → (attempt now b).0 ≡ false → (attempt now b).1.tokens < token
unfolding attempt
attempt_need now b h = ground arith

wait_loop_ends :
    (sleeps : ℕ → Sleep) (deadline fuel i now : ℕ) (b : Bucket)
    → deadline - now < fuel
    → wait_loop sleeps deadline fuel i now b ≢ none
unfolding wait_loop
wait_loop_ends sleeps deadline zero i now b h e = absurd (omega arith)
wait_loop_ends sleeps deadline (suc fuel) i now b h e = elim (Bool-cases (attempt now b).0) [
  | inl got ↦ cc (rw got at e)
  | inr not_got ↦
      let need = token - (attempt now b).1.tokens in
      elim (Bool-cases (ltb deadline (now + need))) [
        | inl late ↦ cc (rw (not_got, late) at e)
        | inr soon ↦ elim (Bool-cases (sleeps i).done) [
          | inl done ↦ cc (rw (not_got, soon, done) at e)
          | inr more ↦
              let short = attempt_need now b not_got in
              let within : ¬ (deadline < now + need) =
                λ p. cc (lt→ltb deadline (now + need) p, soon) in
              wait_loop_ends sleeps deadline fuel (suc i) (now + need + (sleeps i).late)
                (attempts (sleeps i).others (attempt now b).1).1 (omega (arith, short, within, h))
                (rw (not_got, soon, more) at e)
        ]
      ]
]

-- The wait for a chat's token ends, whatever the other workers take while it sleeps and however
-- late its turns come: the fuel of the model suffices.
pub wait_chat_ends :
    (sleeps : ℕ → Sleep) (now : ℕ) (b : Option Bucket) → wait_chat sleeps now b ≢ none
unfolding wait_chat
wait_chat_ends sleeps now b = wait_loop_ends sleeps (now + bucket_max_wait) _ 0 now _ (omega arith)

second_attempt :
    (now next : ℕ) (b : Bucket)
    → (attempt now b).0 ≡ false
    → now + (token - (attempt now b).1.tokens) ≤ next
    → (attempt next (attempt now b).1).0 ≡ true
unfolding attempt
second_attempt now next b h later = ground arith

alone_loop :
    (sleeps : ℕ → Sleep) (fuel now : ℕ) (b : Bucket)
    → (sleeps 0).others ≡ []
    → (sleeps 0).done ≡ false
    → (b' : Bucket) × (wait_loop sleeps (now + bucket_max_wait) (suc (suc fuel)) 0 now b
        ≡ some (passed, b'))
unfolding wait_loop attempts
alone_loop sleeps fuel now b alone going = elim (Bool-cases (attempt now b).0) [
  | inl got ↦ ((attempt now b).1, rw got)
  | inr not_got ↦
      let b₁ = (attempt now b).1 in
      let need = token - b₁.tokens in
      let soon : ltb (now + bucket_max_wait) (now + need) ≡ false = ground arith in
      let next = now + need + (sleeps 0).late in
      let second = second_attempt now next b not_got (omega arith) in
      ((attempt next b₁).1, rw (not_got, soon, going, alone, second))
]

-- A worker that is alone at the bucket and is not stopped gets its token, at the second turn at the
-- latest.
wait_chat_alone :
    (sleeps : ℕ → Sleep) (now : ℕ) (b : Option Bucket)
    → (sleeps 0).others ≡ []
    → (sleeps 0).done ≡ false
    → (b' : Bucket) × (wait_chat sleeps now b ≡ some (passed, b'))
unfolding wait_chat
wait_chat_alone sleeps now b alone going =
    alone_loop sleeps 4999999999 now (or_fresh now b) alone going
