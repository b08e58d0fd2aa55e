-- ===== src/Kernel/Idempotency.antt =====
-- Requests that are repeated: `create` under one idempotency key.
use omniverse_v.Prelude.{
  ℕ, suc, ◌≡◌, refl, ◌≢◌, Bool, none, some, [], ◌∷◌, ◌++◌, arith, ◌==◌, ==_iff, find, Option-cases,
  inl, inr,
}
use omniverse_v.Kernel.Rows.{Run, CreateResearchRun}
use omniverse_v.Kernel.Tx.{Store, ok, err, idempotency_conflict, transact, pure, ◌>>=◌, ◌>>◌}
use omniverse_v.Kernel.Respects.{settle-ok, bind-ok}
use omniverse_v.Kernel.Session.{new_id, add_run}
use omniverse_v.Kernel.Create.{create, create_body, new_run, fill_run, fresh_run, reuse_run}
use omniverse_v.Kernel.Frames.{framed, fill_run-runs, find-append_new}

abbrev by_key : ℕ → Run → Bool
by_key key r = r.idempotency_key == key

abbrev OnRecord : ℕ → ℕ → ℕ → Store → Type 0
OnRecord key hash i t =
    (r : Run) × (find (by_key key) t.runs ≡ some r) × (r.id ≡ i) × (r.payload_hash ≡ hash)

add_run-ok :
    (r : Run) (s t : Store) (u : Unit {0}) → add_run r s ≡ ok (u, t) → t.runs ≡ s.runs ++ r ∷ []
unfolding add_run ◌>>=◌
add_run-ok r s t u e = ground arith

-- What `create` leaves in the table of runs once it has an identifier.
rows_after :
    (row : Run) (hash now : ℕ) (c : CreateResearchRun) (s t : Store) (i : ℕ)
    → (add_run row >> (fill_run row.id hash now c >> pure row.id)) s ≡ ok (i, t)
    → (t.runs ≡ s.runs ++ row ∷ []) × (row.id ≡ i)
unfolding pure
rows_after row hash now c s t i e =
    let (u, s1, added, rest) = bind-ok (add_run row) _ s t i e in
    let (v, s2, filled, done) = bind-ok (fill_run row.id hash now c) _ s1 t i rest in
    let same_runs : s2.runs ≡ s1.runs =
      framed (λ z. z.runs) _ s1 s2 v (fill_run-runs row.id hash now c) filled in
    (cc (same_runs, done, add_run-ok row s s1 u added), cc)

new_run-OnRecord :
    (hash key now : ℕ) (c : CreateResearchRun) (s t : Store) (i : ℕ)
    → find (by_key key) s.runs ≡ none
    → new_run hash key now c s ≡ ok (i, t)
    → OnRecord key hash i t
unfolding new_run new_id ◌>>=◌
new_run-OnRecord hash key now c s t i fresh e =
    let row : Run = fresh_run (s.uuids s.drawn) hash key now c in
    let (runs, same) = rows_after row hash now c (record s { drawn = suc s.drawn }) t i e in
    (
      row,
      rw runs (find-append_new (by_key key) s.runs row fresh ((==_iff key key).1 refl)),
      same,
      refl,
    )

reuse-OnRecord :
    (hash key : ℕ) (c : CreateResearchRun) (r : Run) (s t : Store) (i : ℕ)
    → find (by_key key) s.runs ≡ some r
    → reuse_run hash r s ≡ ok (i, t)
    → OnRecord key hash i t
unfolding ◌>>=◌
reuse-OnRecord hash key c r s t i old e = (r, ground arith, ground arith, ground arith)

create_body-OnRecord :
    (hash key now : ℕ) (c : CreateResearchRun) (s t : Store) (i : ℕ)
    → create_body hash c key now s ≡ ok (i, t)
    → OnRecord key hash i t
unfolding ◌>>=◌
create_body-OnRecord hash key now c s t i e = elim (Option-cases (find (by_key key) s.runs)) [
  | inl fresh ↦ new_run-OnRecord hash key now c s t i fresh (rw fresh at e)
  | inr (r, old) ↦ reuse-OnRecord hash key c r s t i old (rw old at e)
]

-- `create` again under the same key and with the same command returns the run that the first call
-- made, and changes nothing.
pub create_again :
    (payload_hash : CreateResearchRun → ℕ) (c : CreateResearchRun) (key now later i : ℕ)
    (s t : Store)
    → create payload_hash c key now s ≡ (ok i, t)
    → create payload_hash c key later t ≡ (ok i, t)
unfolding create transact ◌>>=◌
create_again payload_hash c key now later i s t e =
    let (r, found, same, hashed) =
      create_body-OnRecord (payload_hash c) key now c s t i (settle-ok s t _ i e) in
    rw found (ground arith)

-- `create` under a key that has been used for a command with another digest is refused, and changes
-- nothing.
pub create_conflict :
    (payload_hash : CreateResearchRun → ℕ) (c other : CreateResearchRun) (key now later i : ℕ)
    (s t : Store)
    → create payload_hash c key now s ≡ (ok i, t)
    → payload_hash other ≢ payload_hash c
    → create payload_hash other key later t ≡ (err idempotency_conflict, t)
unfolding create transact ◌>>=◌
create_conflict payload_hash c other key now later i s t e differs =
    let (r, found, same, hashed) =
      create_body-OnRecord (payload_hash c) key now c s t i (settle-ok s t _ i e) in
    rw found (ground arith)
