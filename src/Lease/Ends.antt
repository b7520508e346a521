-- ===== src/Lease/Ends.antt =====
-- internal/run/lease.go: a wait for the lease ends, and what it ends with.
use layup.Base.{
  ℕ, zero, suc, ◌+◌, ◌-◌, ◌*◌, ◌<◌, ◌≤◌, ◌≡◌, ◌⊎◌, inl, inr, refl, true, not, ◌||◌, some, ◌==◌,
  Result, ok, err, arith, Bool-cases, Result-cases,
}
use layup.Text.{text_eq}
use layup.Lease.Types.{LeaseRow, LeaseError, store_error, Store, Clock, read_every, released}
use layup.Lease.Take.{takes_released, claim, Round, ends, waits, decide, judge, wait, take}

module _ {W : Type 0} (s : Store W) (c : Clock W) where
  decide_late :
      (me : LeaseRow) (h begin : ℕ) (seen : LeaseRow) (changed : ℕ) (row : LeaseRow) (w : W)
      {seen' : LeaseRow} {changed' : ℕ}
      → decide s c me h begin seen changed row w ≡ waits seen' changed'
      → (text_eq row.state released ≡ true) ⊎ (c.now w - begin < 3 * h)
  unfolding decide
  decide_late me h begin seen changed row w e = ground arith

  judge_late :
      (me : LeaseRow) (h begin : ℕ) (seen : LeaseRow) (changed : ℕ) (row : LeaseRow) (w : W)
      {seen' : LeaseRow} {changed' : ℕ}
      → judge s c me h begin seen changed row w ≡ waits seen' changed'
      → (text_eq row.state released ≡ true) ⊎ (c.now w - begin < 3 * h)
  unfolding judge
  judge_late me h begin seen changed row w e =
      elim (Bool-cases (not (text_eq row.run seen.run) || not (row.heartbeat == seen.heartbeat))) [
        | inl t ↦ decide_late me h begin row (c.now w) row w (rw t at e)
        | inr t ↦ decide_late me h begin seen changed row w (rw t at e)
      ]

  pub Round-cases :
      (r : Round s c)
      → ((o : Result LeaseError LeaseRow × W) × (r ≡ ends o))
        ⊎ ((seen : LeaseRow) × (changed : ℕ) × (r ≡ waits seen changed))
  Round-cases (ends o) = inl (o, refl)
  Round-cases (waits seen changed) = inr (seen, changed, refl)

  module _
      (sleeps : (d : ℕ) (w : W) → (c.sleep d w).0 ≡ ok tt → c.now w + d ≤ c.now (c.sleep d w).1)
      (reads : (w : W) → c.now w ≤ c.now (s.read_lease w).1) where
    wait_ends :
        (me : LeaseRow) (h begin fuel : ℕ) (seen : LeaseRow) (changed : ℕ) (row : LeaseRow) (w : W)
        → (text_eq row.state released ≡ true)
          ⊎ ((0 < fuel) × (begin + 3 * h ≤ c.now w + fuel * read_every))
        → (o : Result LeaseError LeaseRow × W) × (wait s c me h begin fuel seen changed row w
            ≡ some o)
    unfolding wait
    wait_ends me h begin zero seen changed row w m = elim m [
      | inl t ↦ (claim s c me (takes_released me row) w, rw (t, wait) refl)
      | inr (p, _) ↦ absurd (omega arith)
    ]
    wait_ends me h begin (suc fuel) seen changed row w m =
        elim (Bool-cases (text_eq row.state released)) [
          | inl t ↦ (claim s c me (takes_released me row) w, rw (t, wait) refl)
          | inr t ↦ elim (Result-cases (c.sleep read_every w).0) [
            | inr (e, p) ↦ ((err (store_error e), (c.sleep read_every w).1), rw (t, wait, p) refl)
            | inl (u, p) ↦ elim (Result-cases (s.read_lease (c.sleep read_every w).1).0) [
              | inr (e, q) ↦ (
                (err (store_error e), (s.read_lease (c.sleep read_every w).1).1),
                rw (t, wait, p, q) refl,
              )
              | inl (row', q) ↦
                  elim (Round-cases (
                    judge s c me h begin seen changed row'
                      (s.read_lease (c.sleep read_every w).1).1)) [
                        | inl (o, j) ↦ (o, rw (t, wait, p, q, j) refl)
                        | inr (seen', changed', j) ↦
                            let big : begin + 3 * h ≤ c.now w + suc fuel * read_every = elim m [
                              | inl x ↦ cc (x, t)
                              | inr (_, b) ↦ b
                            ] in
                            let slept = sleeps read_every w p in
                            let had = reads (c.sleep read_every w).1 in
                            let late =
                              judge_late me h begin seen changed row'
                                (s.read_lease (c.sleep read_every w).1).1 j in
                            let (o, done) =
                              wait_ends me h begin fuel seen' changed' row'
                                (s.read_lease (c.sleep read_every w).1).1
                                (elim late [
                                  | inl t' ↦ inl t'
                                  | inr l ↦ inr (omega arith, omega arith)
                                ]) in
                            (o, rw (t, wait, p, q, j) done)
                      ]
            ]
          ]
        ]

    -- By a clock on which a sleep lasts what it was asked to, and a read takes no negative time, `Take`
    -- gives a result within any number of rounds whose pauses, ten seconds each, outlast 3 × h.
    pub take_ends :
        (fuel : ℕ) (me : LeaseRow) (h : ℕ) (w : W)
        → 3 * h < fuel * read_every
        → (o : Result LeaseError LeaseRow × W) × (take s c fuel me h w ≡ some o)
    unfolding take
    take_ends fuel me h w m = elim (Result-cases (s.read_lease w).0) [
      | inr (e, r) ↦ ((err (store_error e), (s.read_lease w).1), rw (r, take) refl)
      | inl (row, r) ↦
          let (o, done) =
            wait_ends me h (c.now (s.read_lease w).1) fuel row (c.now (s.read_lease w).1) row
              (s.read_lease w).1 (inr (omega arith, omega arith)) in
          (o, rw (r, take) done)
    ]
