-- ===== src/Worker/Histories.antt =====
-- The worker's loop as a history of the kernel.
use omniverse_v.Prelude.{
  ℕ, ◌-◌, ◌≡◌, refl, arith, sym, ◌∙◌, ap, some, List, [], ◌∷◌, ◌++◌, leb, Bool-cases, Option-cases,
  inl, inr,
}
use mathlib.Core.Path.{subst}
use omniverse_v.Kernel.Rows.{CreateResearchRun}
use omniverse_v.Kernel.Tx.{Store, Result, ok, err}
use omniverse_v.Kernel.Lease.{reconcile_startup}
use omniverse_v.Kernel.Calls.{Digests, Call, perform, perform_all}
use omniverse_v.Workflow.{Setup}
use omniverse_v.Workflow.Histories.{digests_of, run_next-IsHistory}
use omniverse_v.Worker.{
  Outside, State, Round, Loop, after_reclaim, next_run, work_on, run_once, reclaim, round, run_loop,
}

-- The database `t` is the one that a history of kernel calls makes of `s`.
abbrev pub Leads : Digests → Store → Store → Type 0
Leads d s t = (cs : List Call) × (t ≡ perform_all d cs s)

perform_all-append :
    (d : Digests) (cs ds : List Call) (s : Store)
    → perform_all d (cs ++ ds) s ≡ perform_all d ds (perform_all d cs s)
unfolding perform_all
perform_all-append d [] ds s = refl
perform_all-append d (c ∷ cs) ds s = perform_all-append d cs ds (perform d c s)

module _ (d : Digests) where
  Leads-refl : (s : Store) → Leads d s s
  unfolding perform_all
  Leads-refl s = ([], refl)

  Leads-trans : (s t u : Store) → Leads d s t → Leads d t u → Leads d s u
  Leads-trans s t u (cs, p) (ds, q) =
      (cs ++ ds, q ∙ ap (perform_all d ds) p ∙ sym (perform_all-append d cs ds s))

  after :
      (s : State) (at : ℕ) (r : Result ℕ × Store) (m : Loop)
      → after_reclaim s at r ≡ some m
      → (cs : List Call) → r.1 ≡ perform_all d cs s.store
      → Leads d s.store m.state.store
  after s at (ok n, t) m e cs h = let same : t ≡ m.state.store = ground arith in (cs, sym same ∙ h)
  after s at (err x, t) m e cs h = cc

  reclaim-Leads :
      (seconds : ℕ) (r : Round) (l m : Loop)
      → reclaim seconds r l ≡ some m
      → Leads d l.state.store m.state.store
  unfolding reclaim perform perform_all
  reclaim-Leads seconds r l m e = elim (Bool-cases (leb seconds (r.elapsed_at - l.last_reclaim))) [
    | inl due ↦
        after l.state r.reclaimed_at (reconcile_startup r.now l.state.store) m (rw due at e)
          (Call.reconcile_startup r.now ∷ []) refl
    | inr early ↦
        let same : l ≡ m = cc (rw early at e) in
        subst (λ (x : Loop). Leads d l.state.store x.state.store) same (Leads-refl l.state.store)
  ]

module _ (w : Setup) (payload_hash : CreateResearchRun → ℕ) where
  run_once-Leads :
      (o : Outside) (s : State) → Leads (digests_of w payload_hash) s.store (run_once w o s).1.store
  unfolding run_once work_on
  run_once-Leads o s = elim (Option-cases (next_run s.cursor s.store)) [
    | inl idle ↦ rw (idle, run_once) (Leads-refl (digests_of w payload_hash) s.store)
    | inr (i, chosen) ↦
        rw (chosen, run_once) (run_next-IsHistory w payload_hash o.handlers o.instants i s.store)
  ]

  round-Leads :
      (seconds : ℕ) (r : Round) (l m : Loop)
      → round w seconds r l ≡ some m
      → Leads (digests_of w payload_hash) l.state.store m.state.store
  unfolding round
  round-Leads seconds r l m e = elim (Option-cases (reclaim seconds r l)) [
    | inl lost ↦ cc (rw (lost, round) at e)
    | inr (k, kept) ↦
        let e' : some (record k { state = (run_once w r.outside k.state).1 }) ≡ some m =
          rw (kept, round) at e in
        let same : (run_once w r.outside k.state).1.store ≡ m.state.store = ground arith in
        subst (λ z. Leads (digests_of w payload_hash) l.state.store z) same
          (Leads-trans (digests_of w payload_hash) l.state.store k.state.store
            (run_once w r.outside k.state).1.store
            (reclaim-Leads (digests_of w payload_hash) seconds r l k kept)
            (run_once-Leads r.outside k.state))
  ]

  -- The rounds of a worker, if no reclaim raises an exception, leave the database that some
  -- history leaves: kernel calls, with the handlers' writes to the tables of workspaces and gaps
  -- between them.
  pub run_loop-Leads :
      (seconds : ℕ) (rs : List Round) (l m : Loop)
      → run_loop w seconds rs l ≡ some m
      → Leads (digests_of w payload_hash) l.state.store m.state.store
  unfolding run_loop
  run_loop-Leads seconds [] l m e =
      let same : l ≡ m = cc in
      subst (λ (x : Loop). Leads (digests_of w payload_hash) l.state.store x.state.store) same
        (Leads-refl (digests_of w payload_hash) l.state.store)
  run_loop-Leads seconds (r ∷ rs) l m e = elim (Option-cases (round w seconds r l)) [
    | inl lost ↦ cc (rw (lost, run_loop) at e)
    | inr (k, kept) ↦
        Leads-trans (digests_of w payload_hash) l.state.store k.state.store m.state.store
          (round-Leads seconds r l k kept)
          (run_loop-Leads seconds rs k m (rw (kept, run_loop) at e))
  ]
