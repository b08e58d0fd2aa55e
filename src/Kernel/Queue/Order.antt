-- ===== src/Kernel/Queue/Order.antt =====
-- The order in which `lease_next` takes the steps that are ready.
use omniverse_v.Prelude.{◌<◌, ◌≤◌, ◌≡◌, ◌⊎◌}
use omniverse_v.Kernel.Lease.{Candidate}

-- Of two candidates, the one whose run is older, or whose step has the lower position in runs of the
-- same age, or the lower target at the same position.
abbrev pub ComesFirst : Candidate → Candidate → Type 0
ComesFirst a b =
    (a.created_at < b.created_at)
    ⊎ ((a.created_at ≡ b.created_at)
        × ((a.step.position < b.step.position)
            ⊎ ((a.step.position ≡ b.step.position) × (a.step.target_id ≤ b.step.target_id))))
