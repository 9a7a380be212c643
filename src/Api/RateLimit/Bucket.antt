-- ===== src/Api/RateLimit/Bucket.antt =====
-- How many requests a bucket of src/api/ratelimit.py lets through.
use raglogs.Base.{
  ℕ, suc, ◌+◌, ◌*◌, ◌≤◌, ◌<◌, max, ◌≡◌, inl, inr, List, [], ◌∷◌, arith, if◌then◌else◌, Bool-cases,
}
use raglogs.Api.RateLimit.{TokenBucket, consume, refill, take_token, token, new_bucket}

-- The requests that pass, when each comes some milliseconds after the bucket was last updated.
unfoldable pub passes : ℕ → ℕ → List ℕ → TokenBucket → ℕ
passes rate burst [] b = 0
passes rate burst (delay ∷ delays) b =
    let now = b.updated + delay in
    let rest = passes rate burst delays (consume now rate burst b).0 in
    if (consume now rate burst b).1 then suc rest else rest

abbrev pub total : List ℕ → ℕ
total [] = 0
total (d ∷ ds) = d + total ds

-- The bucket has been used at this rate and burst, and is not overfull.
pub record IsTuned (rate burst : ℕ) (b : TokenBucket) : Type 0 where
  pub same_rate : b.rate ≡ rate
  pub same_burst : b.burst ≡ max burst token
  pub bounded : b.tokens ≤ max burst token

module _ (rate burst : ℕ) (positive : 0 < rate) where
  -- One step pays for the request that it lets through, and earns for the time that has passed.
  consume-IsTuned :
      (delay : ℕ) (b : TokenBucket)
      → IsTuned rate burst b
      → IsTuned rate burst (consume (b.updated + delay) rate burst b).0
        × ((if (consume (b.updated + delay) rate burst b).1 then token else 0)
              + (consume (b.updated + delay) rate burst b).0.tokens
            ≤ b.tokens + delay * rate)
  unfolding consume refill take_token
  consume-IsTuned delay b h = (ground arith, ground arith)

  -- A bucket at another rate or burst is filled first.
  consume_new-IsTuned :
      (now : ℕ) (b : TokenBucket)
      → ((b.rate ≡ rate) × (b.burst ≡ max burst token) → b.tokens ≤ max burst token)
      → IsTuned rate burst (consume now rate burst b).0
  unfolding consume refill take_token
  consume_new-IsTuned now b h = ground arith

  updated-consume : (now : ℕ) (b : TokenBucket) → (consume now rate burst b).0.updated ≡ now
  unfolding consume refill take_token
  updated-consume now b = ground arith

  passes-le_tuned :
      (delays : List ℕ) (b : TokenBucket)
      → IsTuned rate burst b
      → token * passes rate burst delays b ≤ b.tokens + total delays * rate
  unfolding passes
  passes-le_tuned [] b h = omega arith
  passes-le_tuned (delay ∷ delays) b h =
      let b' = (consume (b.updated + delay) rate burst b).0 in
      let (tuned, paid) = consume-IsTuned delay b h in
      let ih = passes-le_tuned delays b' tuned in
      elim (Bool-cases (consume (b.updated + delay) rate burst b).1) [
        | inl yes_ ↦ rw yes_ (omega (arith, rw yes_ at paid))
        | inr no_ ↦ rw no_ (omega (arith, rw no_ at paid))
      ]

  new-consume :
      (now t : ℕ)
      → (if (consume t rate burst (new_bucket now)).1 then token else 0)
          + (consume t rate burst (new_bucket now)).0.tokens
        ≤ max burst token
  unfolding consume refill take_token new_bucket
  new-consume now t = ground arith

  -- At a positive rate, however its requests are spaced, a new bucket lets through no more than
  -- its capacity and what it earns while they last: in thousandths of a token, the burst or one
  -- token, whichever is more, and the rate times the time.
  pub passes-le :
      (delays : List ℕ) (now : ℕ)
      → token * passes rate burst delays (new_bucket now) ≤ max burst token + total delays * rate
  unfolding passes
  passes-le [] now = omega arith
  passes-le (delay ∷ delays) now =
      let t = (new_bucket now).updated + delay in
      let b' = (consume t rate burst (new_bucket now)).0 in
      let paid = new-consume now t in
      let ih =
        passes-le_tuned delays b'
          (consume_new-IsTuned t (new_bucket now) (λ e. unfold new_bucket in omega arith)) in
      elim (Bool-cases (consume t rate burst (new_bucket now)).1) [
        | inl yes_ ↦ rw yes_ (omega (arith, rw yes_ at paid))
        | inr no_ ↦ rw no_ (omega (arith, rw no_ at paid))
      ]
