-- ===== src/Posting/Short.antt =====
-- internal/run/statuses.go: a fitted description is never too long for the forge.
use layup.Base.{
  ℕ, zero, suc, ◌+◌, ◌≤◌, ◌≡◌, inl, inr, refl, true, [], ◌∷◌, ◌++◌, some, arith, ltb, map, length,
  Bool-cases, Option-cases, is_ok,
}
use layup.Text.{Text, codes, member, Lead, lead_of}
use layup.Text.Numbers.{follows, rune_tail, rune_count_from, rune_count}
use layup.Forge.Types.{valid_status}
use layup.Posting.Fit.{rune_at, replacement, ellipsis, take_runes, one_line_byte, fit}

-- The bytes of a character that stand in a text stand in what is taken of it.
follows-take_runes :
    (k more lo hi : ℕ) (t e : Text)
    → follows more lo hi t ≡ true
    → follows more lo hi (take_runes k more t ++ e) ≡ true
unfolding follows take_runes
follows-take_runes k zero lo hi t e h = refl
follows-take_runes k (suc more) lo hi [] e h = cc
follows-take_runes k (suc more) lo hi (b ∷ t) e h =
    let rest = follows-take_runes k more 0x80 0xBF t e (ground arith) in ground arith

rune_at-some :
    (b : ℕ) (t : Text) {more : ℕ}
    → rune_at b t ≡ some more
    → (l : Lead) × (lead_of b ≡ some l) × (follows l.more l.lo l.hi t ≡ true) × (l.more ≡ more)
unfolding rune_at
rune_at-some b t {more} e = elim (Option-cases (lead_of b)) [
  | inl n ↦ absurd (ground arith)
  | inr (l, n) ↦ (l, n, ground arith, ground arith)
]

follows-length : (more lo hi : ℕ) (t : Text) → follows more lo hi t ≡ true → more ≤ length t
unfolding follows
follows-length zero lo hi t h = omega arith
follows-length (suc more) lo hi [] h = cc
follows-length (suc more) lo hi (b ∷ t) h =
    let rest = follows-length more 0x80 0xBF t (ground arith) in omega arith

replacement_count : (r : Text) → rune_count_from 0 (replacement ++ r) ≡ suc (rune_count_from 0 r)
unfolding rune_count_from rune_tail follows lead_of
replacement_count r = refl

rune_tail-rune_at :
    (k b : ℕ) (t e : Text) {more : ℕ}
    → rune_at b t ≡ some more
    → rune_tail b (take_runes k more t ++ e) ≡ more
unfolding rune_tail
rune_tail-rune_at k b t e {more} n =
    let (l, lead, fits, same) = rune_at-some b t n in
    let kept : follows l.more l.lo l.hi (take_runes k more t ++ e) ≡ true =
      rw⁻¹ same (follows-take_runes k l.more l.lo l.hi t e fits) in
    ground arith

rune_at-length : (b : ℕ) (t : Text) {more : ℕ} → rune_at b t ≡ some more → more ≤ length t
rune_at-length b t n =
    let (l, lead, fits, same) = rune_at-some b t n in
    let enough = follows-length l.more l.lo l.hi t fits in omega arith

-- What is taken has at most as many characters.
rune_count-take_runes :
    (k skip : ℕ) (t e : Text)
    → skip ≤ length t
    → rune_count_from skip (take_runes k skip t ++ e) ≤ k + rune_count_from 0 e
unfolding take_runes rune_count_from
rune_count-take_runes k zero [] e h = omega arith
rune_count-take_runes k (suc skip) [] e h = absurd (omega arith)
rune_count-take_runes k (suc skip) (b ∷ t) e h = rune_count-take_runes k skip t e (omega arith)
rune_count-take_runes zero zero (b ∷ t) e h = omega arith
rune_count-take_runes (suc k) zero (b ∷ t) e h = elim (Option-cases (rune_at b t)) [
  | inl n ↦
      let rest = rune_count-take_runes k zero t e (omega arith) in
      let one = replacement_count (take_runes k zero t ++ e) in rw (take_runes, n) (omega arith)
  | inr (more, n) ↦
      let rest = rune_count-take_runes k more t e (rune_at-length b t n) in
      let tail = rune_tail-rune_at k b t e n in
      rw (take_runes, n, rune_count_from, tail) (omega arith)
]

ellipsis_count : rune_count_from 0 ellipsis ≡ 1
unfolding rune_count_from rune_tail follows lead_of
ellipsis_count = refl

rune_count-fit : (s : Text) → rune_count (fit s) ≤ 140
unfolding fit rune_count
rune_count-fit s = elim (Bool-cases (ltb 140 (rune_count (map one_line_byte s)))) [
  | inr t ↦ rw t (ground arith)
  | inl t ↦
      let taken = rune_count-take_runes 139 0 (map one_line_byte s) ellipsis (omega arith) in
      let one = ellipsis_count in rw t (omega arith)
]

-- A fitted description has at most 140 characters, so the forge refuses none of a known state.
pub valid_status-fit :
    (state description : Text)
    → (rune_count (fit description) ≤ 140)
      × (is_ok (valid_status state (fit description))
          ≡ member state (codes "success" ∷ codes "failure" ∷ codes "pending" ∷ codes "error" ∷ []))
unfolding valid_status
valid_status-fit state description = let short = rune_count-fit description in (short, ground arith)
