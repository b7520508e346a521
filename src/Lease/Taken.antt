-- ===== src/Lease/Taken.antt =====
-- internal/run/lease.go: what a lease that was taken is, and when another run's was taken over.
use layup.Base.{
  ℕ, zero, suc, ◌*◌, ◌/◌, ◌≡◌, sym, ap, inl, inr, not, ◌||◌, some, ◌==◌, ok, arith, Bool-cases,
  Result-cases,
}
use layup.Text.{Text, codes, text_eq}
use layup.Lease.Types.{LeaseRow, refused, failed, Store, Clock, read_every, released}
use layup.Lease.Ends.{Round-cases}
use layup.Lease.Take.{
  claimed, takes_over, takes_released, lost, claim_result, claim, ends, decide, judge, wait, take,
}

module _ {W : Type 0} (s : Store W) (c : Clock W) where
  -- The store took the row: of the run, its host and its version, started at the whole second that the
  -- clock showed, with no heartbeat yet, and held.
  pub record Wrote (me : LeaseRow) (row : LeaseRow) (after : W) : Type 0 where
    pub before : W
    pub message : Text
    pub wrote : s.write_lease row message before ≡ (ok tt, after)
    pub run : row.run ≡ me.run
    pub host : row.host ≡ me.host
    pub version : row.version ≡ me.version
    pub started : row.started ≡ c.now before / 1000000000 * 1000000000
    pub heartbeat : row.heartbeat ≡ 0
    pub state : row.state ≡ codes "held"

  claim-Wrote :
      (me : LeaseRow) (message : Text) (w : W) {row : LeaseRow} {after : W}
      → claim s c me message w ≡ (ok row, after)
      → Wrote me row after
  unfolding claim claim_result lost claimed
  claim-Wrote me message w {row = row} e =
      elim (Result-cases (s.write_lease (claimed (c.now w) me) message w).0) [
        | inr (refused, p) ↦ absurd (ground arith)
        | inr (failed t, p) ↦ absurd (ground arith)
        | inl (u, p) ↦
            let made : claimed (c.now w) me ≡ row = ground arith in
            record {
              before = w;
              message = message;
              wrote = ground arith;
              run = sym (ap (λ (z : LeaseRow). z.run) made);
              host = sym (ap (λ (z : LeaseRow). z.host) made);
              version = sym (ap (λ (z : LeaseRow). z.version) made);
              started = sym (ap (λ (z : LeaseRow). z.started) made);
              heartbeat = sym (ap (λ (z : LeaseRow). z.heartbeat) made);
              state = sym (ap (λ (z : LeaseRow). z.state) made);
            }
      ]

  decide-Wrote :
      (me : LeaseRow) (h begin : ℕ) (seen : LeaseRow) (changed : ℕ) (row' : LeaseRow) (w : W)
      {row : LeaseRow} {after : W}
      → decide s c me h begin seen changed row' w ≡ ends (ok row, after)
      → Wrote me row after
  unfolding decide
  decide-Wrote me h begin seen changed row' w e =
      claim-Wrote me (takes_over me row') w (ground arith)

  judge-Wrote :
      (me : LeaseRow) (h begin : ℕ) (seen : LeaseRow) (changed : ℕ) (row' : LeaseRow) (w : W)
      {row : LeaseRow} {after : W}
      → judge s c me h begin seen changed row' w ≡ ends (ok row, after)
      → Wrote me row after
  unfolding judge decide
  judge-Wrote me h begin seen changed row' w e =
      elim (Bool-cases
        (not (text_eq row'.run seen.run) || not (row'.heartbeat == seen.heartbeat))) [
          | inl t ↦ decide-Wrote me h begin row' (c.now w) row' w (rw t at e)
          | inr t ↦ decide-Wrote me h begin seen changed row' w (rw t at e)
        ]

  wait-Wrote :
      (me : LeaseRow) (h begin fuel : ℕ) (seen : LeaseRow) (changed : ℕ) (row' : LeaseRow) (w : W)
      {row : LeaseRow} {after : W}
      → wait s c me h begin fuel seen changed row' w ≡ some (ok row, after)
      → Wrote me row after
  unfolding wait
  wait-Wrote me h begin zero seen changed row' w e =
      claim-Wrote me (takes_released me row') w (ground arith)
  wait-Wrote me h begin (suc fuel) seen changed row' w e =
      elim (Bool-cases (text_eq row'.state released)) [
        | inl t ↦ claim-Wrote me (takes_released me row') w (ground arith)
        | inr t ↦ elim (Result-cases (c.sleep read_every w).0) [
          | inr (f, p) ↦ absurd (ground arith)
          | inl (u, p) ↦ elim (Result-cases (s.read_lease (c.sleep read_every w).1).0) [
            | inr (f, q) ↦ absurd (ground arith)
            | inl (row1, q) ↦
                elim (Round-cases s c (
                  judge s c me h begin seen changed row1
                    (s.read_lease (c.sleep read_every w).1).1)) [
                      | inl (o, j) ↦
                          judge-Wrote me h begin seen changed row1
                            (s.read_lease (c.sleep read_every w).1).1 (ground arith)
                      | inr (seen1, changed1, j) ↦
                          wait-Wrote me h begin fuel seen1 changed1 row1
                            (s.read_lease (c.sleep read_every w).1).1 (ground arith)
                    ]
          ]
        ]
      ]

  -- Where `Take` gives a lease, the store took its row last, and the row is of the run, its host and its
  -- version: started at the whole second that the clock showed before that, heartbeat 0, held.
  pub take-Wrote :
      (fuel : ℕ) (me : LeaseRow) (h : ℕ) (w : W) {row : LeaseRow} {after : W}
      → take s c fuel me h w ≡ some (ok row, after)
      → Wrote me row after
  unfolding take
  take-Wrote fuel me h w e = elim (Result-cases (s.read_lease w).0) [
    | inr (f, r) ↦ absurd (cc (rw (r, take) at e))
    | inl (row', r) ↦
        wait-Wrote me h (c.now (s.read_lease w).1) fuel row' (c.now (s.read_lease w).1) row'
          (s.read_lease w).1 (rw (r, take) at e)
  ]
