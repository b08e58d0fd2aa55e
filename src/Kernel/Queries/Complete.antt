-- ===== src/Kernel/Queries/Complete.antt =====
-- `events` returns the events of its run, all of them and no others, in order.
use mathlib.Core.List.{Memᴰ}
use omniverse_v.Prelude.{
  ℕ, ◌≡◌, ◌≢◌, ◌≤◌, ◌<◌, ◌⊎◌, refl, true, false, List, inl, inr, some, Bool-cases, map, sort_by,
  Memᴰ-sort_by, sort_by-Memᴰ, ==_iff, Memᴰ-filter, filter-Memᴰ, Memᴰ-map, map-Memᴰ, Sorted,
  Sorted-sort_by, Sorted-map, mem_All, All, arith, ◌==◌,
}
use omniverse_v.Kernel.Rows.{OutboxEvent, Run}
use omniverse_v.Kernel.Tx.{Store, ok, ◌>>=◌, transact}
use omniverse_v.Kernel.Session.{require_run, get_run}
use omniverse_v.Kernel.Queries.{RunEventProjection, events, project_event, events_of, event_order}

-- An event that is not older than another, nor of a smaller identifier at the same time.
abbrev pub NotAfter : RunEventProjection → RunEventProjection → Type 0
NotAfter a b = (a.created_at < b.created_at) ⊎ ((a.created_at ≡ b.created_at) × (a.id ≤ b.id))

-- The projection of an event of the run.
abbrev pub IsEventOf : ℕ → Store → RunEventProjection → Type 0
IsEventOf run_id s p =
    (e : OutboxEvent) × Memᴰ e s.events × (e.run_id ≡ run_id) × (p ≡ project_event e)

-- An event of another run, or one whose projection is among these.
abbrev pub IsReported : ℕ → List RunEventProjection → OutboxEvent → Type 0
IsReported run_id es e = (e.run_id ≢ run_id) ⊎ Memᴰ (project_event e) es

ordered :
    (a b : OutboxEvent) → event_order a b ≡ true → NotAfter (project_event a) (project_event b)
ordered a b h = elim (Bool-cases (a.created_at == b.created_at)) [
  | inl same ↦ inr (ground arith, ground arith)
  | inr other ↦ inl (ground arith)
]

not_ordered :
    (a b : OutboxEvent) → event_order a b ≡ false → NotAfter (project_event b) (project_event a)
not_ordered a b h = elim (Bool-cases (a.created_at == b.created_at)) [
  | inl same ↦ inr (ground arith, ground arith)
  | inr other ↦ inl (ground arith)
]

NotAfter-trans : (a b c : RunEventProjection) → NotAfter a b → NotAfter b c → NotAfter a c
NotAfter-trans a b c (inl h) (inl k) = inl (omega arith)
NotAfter-trans a b c (inl h) (inr (e, k)) = inl (omega arith)
NotAfter-trans a b c (inr (d, h)) (inl k) = inl (omega arith)
NotAfter-trans a b c (inr (d, h)) (inr (e, k)) = inr (omega arith, omega arith)

reported :
    (run_id : ℕ) (s : Store) (e : OutboxEvent)
    → Memᴰ e s.events
    → IsReported run_id (map project_event (sort_by event_order (events_of run_id s))) e
reported run_id s e m = elim (Bool-cases (e.run_id == run_id)) [
  | inl same ↦ inr (
      Memᴰ-map project_event _ e
        (Memᴰ-sort_by event_order (events_of run_id s) e (Memᴰ-filter _ s.events e same m)))
  | inr other ↦ inl (ground arith)
]

is_event :
    (run_id : ℕ) (s : Store) (p : RunEventProjection)
    → Memᴰ p (map project_event (sort_by event_order (events_of run_id s)))
    → IsEventOf run_id s p
is_event run_id s p m =
    let (e, k, same) = map-Memᴰ project_event _ p m in
    let (n, of_run) =
      filter-Memᴰ _ s.events e (sort_by-Memᴰ event_order (events_of run_id s) e k) in
    (e, n, (==_iff e.run_id run_id).0 of_run, same)

-- For a run that exists, `events` leaves the database as it is and returns a list of which every entry
-- is of an event of the run, in which every event of the run is, and which is ordered by the time of
-- creation and then by the identifier.
pub events_complete :
    (run_id : ℕ) (s : Store) (run : Run)
    → get_run run_id s ≡ some run
    → (es : List RunEventProjection) × (events run_id s ≡ (ok es, s))
      × All (IsEventOf run_id s) es
      × All (IsReported run_id es) s.events
      × Sorted NotAfter es
unfolding events transact require_run ◌>>=◌
events_complete run_id s run found =
    let rows = sort_by event_order (events_of run_id s) in
    (
      map project_event rows,
      rw found refl,
      mem_All (IsEventOf run_id s) _ (is_event run_id s),
      mem_All (IsReported run_id (map project_event rows)) s.events (reported run_id s),
      Sorted-map project_event NotAfter rows (
          Sorted-sort_by event_order (λ a b. NotAfter (project_event a) (project_event b)) ordered
            not_ordered
            (λ a b c. NotAfter-trans (project_event a) (project_event b) (project_event c))
            (events_of run_id s)),
    )
