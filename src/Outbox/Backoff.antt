-- ===== src/Outbox/Backoff.antt =====
-- The delays of pkg/outbox/outbox.go: backoff, and what truncate keeps of an error text.
use mathlib.Core.Path.{subst}
use native.Mathlib.Nat.{pow-suc}
use native.Mathlib.Decide.{dec_le}
use ifritah_go.Prelude.{
  ℕ, zero, suc, ◌-◌, ◌*◌, ◌^◌, ◌≤◌, ◌<◌, min, Text, true, false, ◌≡◌, refl, ◌⊎◌, inl, inr, arith,
  ltb, length, take, Bool-cases, length-take,
}
use ifritah_go.Outbox.Drain.{
  second, max_backoff, doublings, backoff, rune_start, byte_at, cut_point, truncate,
}

two_pow-suc : (k : ℕ) → 2 ^ suc k ≡ 2 ^ k * 2
two_pow-suc k = pow-suc 2 k

two_pow_pos : (k : ℕ) → 1 ≤ 2 ^ k
two_pow_pos zero = omega arith
two_pow_pos (suc k) = omega (arith, two_pow-suc k, two_pow_pos k)

le-mul_two_pow : (wait k : ℕ) → wait ≤ wait * 2 ^ k
le-mul_two_pow wait zero = omega arith
le-mul_two_pow wait (suc k) = rw (two_pow-suc k) (omega (arith, le-mul_two_pow wait k))

doublings_lem : (k wait : ℕ) → min (doublings k wait) max_backoff ≡ min (wait * 2 ^ k) max_backoff
unfolding doublings
doublings_lem zero wait = omega arith
doublings_lem (suc k) wait = elim (Bool-cases (ltb wait max_backoff)) [
  | inl more ↦
      rw (more, doublings) (rw (doublings_lem k (wait * 2)) (rw (two_pow-suc k) (grind arith)))
  | inr done ↦ rw (done, doublings) (ground (arith, le-mul_two_pow wait (suc k)))
]

-- The delay after an attempt is one second doubled for each attempt before it, cut at max_backoff;
-- so it lies between one second and max_backoff.
pub backoff_lem :
    (attempts : ℕ)
    → (backoff attempts ≡ min (second * 2 ^ (attempts - 1)) max_backoff)
      × (second ≤ backoff attempts)
      × (backoff attempts ≤ max_backoff)
unfolding backoff
backoff_lem attempts = (
  doublings_lem (attempts - 1) second,
  rw (doublings_lem (attempts - 1) second) (omega (arith, le-mul_two_pow second (attempts - 1))),
  omega arith,
)

-- A place where truncate may cut: the start, or a byte that starts a rune.
abbrev pub IsBoundary : Text → ℕ → Type 0
IsBoundary s n = (n ≡ 0) ⊎ (rune_start (byte_at s n) ≡ true)

cut_point_lem :
    (s : Text) (n : ℕ)
    → (cut_point s n ≤ n)
      × IsBoundary s (cut_point s n)
      × ((i : ℕ) → cut_point s n < i → i ≤ n → rune_start (byte_at s i) ≡ false)
unfolding cut_point
cut_point_lem s zero = (omega arith, inl refl, λ i lo hi. absurd (omega arith))
cut_point_lem s (suc n) = elim (Bool-cases (rune_start (byte_at s (suc n)))) [
  | inl e ↦ rw (e, cut_point) (omega arith, inr e, λ i lo hi. absurd (omega arith))
  | inr e ↦
      let (le, boundary, skipped) = cut_point_lem s n in
      rw (e, cut_point)
        (
          omega arith,
          boundary,
          λ i lo hi. elim (dec_le i n) [
            | yes p ↦ skipped i lo p
            | no p ↦ subst (λ j. rune_start (byte_at s j) ≡ false) (omega arith) e
          ],
        )
]

truncate_cut : (s : Text) (n : ℕ) → n < length s → truncate s n ≡ take (cut_point s n) s
unfolding truncate
truncate_cut s n h = ground arith

length-truncate : (s : Text) (n : ℕ) → n < length s → length (truncate s n) ≡ cut_point s n
unfolding truncate
length-truncate s n h = ground (arith, length-take (cut_point s n) s, (cut_point_lem s n).0)

-- A text longer than n bytes is cut to its first k bytes, where k is the last place up to n at which
-- a rune starts, or 0 if there is none.
pub truncate_lem :
    (s : Text) (n : ℕ)
    → n < length s
    → let k = length (truncate s n) in
      (k ≤ n)
      × (truncate s n ≡ take k s)
      × IsBoundary s k
      × ((i : ℕ) → k < i → i ≤ n → rune_start (byte_at s i) ≡ false)
truncate_lem s n h =
    rw (length-truncate s n h) (
      let (le, boundary, skipped) = cut_point_lem s n in
      (le, truncate_cut s n h, boundary, skipped))
