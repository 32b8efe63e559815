-- ===== src/Relay/Tests.antt =====
-- The theorem at a concrete run.
use dendy.Prelude.{ℕ, ◌==◌, ◌≡◌, List, [], ◌∷◌}
use dendy.Relay.IpLimiter.{new}
use dendy.Relay.Counts.{Call, run, run_counts, Holds, run_refines_counts}

-- Two clients of address 7 of which one leaves, and one of address 9.
abbrev traffic : List (Call ℕ)
traffic = Call.acquire 7 ∷ Call.acquire 7 ∷ Call.release 7 ∷ Call.acquire 9 ∷ Call.acquire 7 ∷ []

run_refines_counts_example :
    ((run ◌==◌ traffic (new 1)).0 ≡ (run_counts ◌==◌ 1 traffic (λ k. 0)).0)
    × Holds 1 (run ◌==◌ traffic (new 1)).1 (run_counts ◌==◌ 1 traffic (λ k. 0)).1
run_refines_counts_example = run_refines_counts ◌==◌ 1 traffic
