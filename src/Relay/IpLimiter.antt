-- ===== src/Relay/IpLimiter.antt =====
-- relay/ip_limiter.go. The lock makes each call one step. The keys are strings; of them the code only
-- uses the test for equality.
use dendy.Prelude.{ℕ, ◌+◌, ◌-◌, ltb, ◌==◌, if◌then◌else◌, Bool, true, false, Option, none, some}

-- A negative `Max` acts like 0, since no count is below it.
pub record IpLimiter (K : Type 0) : Type 0 where
  pub max : ℕ  -- int
  pub active : K → Option ℕ  -- map[string]int, whose counts are never negative

unfoldable pub new : {K : Type 0} → ℕ → IpLimiter K
new max = record { max = max; active = λ k. none }

-- `l.active[key]`, with the zero value for a missing key.
abbrev pub count_or_zero : Option ℕ → ℕ
count_or_zero none = 0
count_or_zero (some n) = n

abbrev pub count : {K : Type 0} → IpLimiter K → K → ℕ
count l key = count_or_zero (l.active key)

module _ {K : Type 0} (same : K → K → Bool) where
  abbrev pub store : IpLimiter K → K → Option ℕ → IpLimiter K
  store l key entry = record l { active = λ k. if same k key then entry else l.active k }

  unfoldable pub acquire : IpLimiter K → K → Bool × IpLimiter K
  acquire l key =
      if ltb (count l key) l.max then (true, store l key (some (count l key + 1))) else (false, l)

  -- An entry is above zero, from the first call on: none is made at zero, and one that gets there is
  -- deleted. So the subtraction does not go below it.
  abbrev release_entry : IpLimiter K → K → Option ℕ → IpLimiter K
  release_entry l key none = l
  release_entry l key (some n) = if n - 1 == 0 then store l key none else store l key (some (n - 1))

  unfoldable pub release : IpLimiter K → K → IpLimiter K
  release l key = release_entry l key (l.active key)
