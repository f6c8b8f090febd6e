-- ===== src/VarSet/Enumerate.antt =====
-- What `while (vse++)` visits.
use mathlib.Core.Option
use minerule.Prelude.{
  ℕ, zero, suc, ◌+◌, ◌-◌, ◌^◌, ◌<◌, ◌≤◌, ◌%◌, ◌≡◌, refl, true, false, List, [], ◌∷◌, ltb,
  if◌then◌else◌, some, arith, ap, lt→ltb, map, two_pow_pos, two_pow_mono, upto,
}
use minerule.VarSet.{VarSet, Enumerator, enumerator, next, advance, visits}

abbrev pub config : ℕ → ℕ → VarSet
config n c = record { vset = c; vset_size = n }

-- All configurations of `n` variables, in the order of their words. The enumerator does not visit
-- the one configuration of no variables.
abbrev pub visited : ℕ → ℕ
visited zero = 0
visited (suc n) = 2 ^ suc n

abbrev pub words : ℕ → List ℕ
words n = upto 0 (visited n)

abbrev pub configs : ℕ → List VarSet
configs n = map (config n) (words n)

pub visited-le : (n : ℕ) → visited n ≤ 2 ^ n
visited-le zero = omega arith
visited-le (suc n) = omega arith

pub enumerator-some :
    (n : ℕ) → n < 32 → enumerator n ≡ some (record { varset = config n 0; first_call = true })
unfolding enumerator
enumerator-some n h = let same : n % 2 ^ 16 ≡ n = omega arith in rw (same, lt→ltb n 32 h)

advance-config :
    (n c : ℕ)
    → n < 32
    → c < 2 ^ n
    → advance (config n c)
      ≡ (if ltb (suc c) (2 ^ n) then (config n (suc c), true) else (config n c, false))
unfolding advance
advance-config n c h hc =
    let wide = two_pow_mono n 31 (omega arith) in
    let same : (c + 1) % 2 ^ 32 ≡ suc c = omega arith in rw same refl

visits-more :
    (fuel : ℕ) (e e' : Enumerator)
    → next e ≡ (e', true)
    → visits (suc fuel) e ≡ Option.map (λ vs. e'.varset ∷ vs) (visits fuel e')
unfolding visits
visits-more fuel e e' h = rw (h, visits) (rw h)

visits-done : (fuel : ℕ) (e e' : Enumerator) → next e ≡ (e', false) → visits (suc fuel) e ≡ some []
unfolding visits
visits-done fuel e e' h = rw (h, visits)

abbrev at : ℕ → ℕ → Enumerator
at n c = record { varset = config n c; first_call = false }

next-at : (n c : ℕ) → n < 32 → suc c < 2 ^ n → next (at n c) ≡ (at n (suc c), true)
unfolding next
next-at n c h hc = rw (advance-config n c h (omega arith), lt→ltb (suc c) (2 ^ n) hc)

next-last : (n c : ℕ) → n < 32 → suc c ≡ 2 ^ n → next (at n c) ≡ (at n c, false)
unfolding next
next-last n c h hc = rw (advance-config n c h (omega arith)) (ground arith)

-- From a configuration that has been visited, `left` more are to come.
visits-at :
    (n fuel left c : ℕ)
    → n < 32
    → suc c + left ≡ 2 ^ n
    → left < fuel
    → visits fuel (at n c) ≡ some (map (config n) (upto (suc c) left))
visits-at n zero left c h e f = absurd (omega arith)
visits-at n (suc fuel) zero c h e f =
    visits-done fuel (at n c) (at n c) (next-last n c h (omega arith))
visits-at n (suc fuel) (suc left) c h e f = rw (
  visits-more fuel (at n c) (at n (suc c)) (next-at n c h (omega arith)),
  visits-at n fuel left (suc c) h (omega arith) (omega arith),
)

abbrev pub start : ℕ → Enumerator
start n = record { varset = config n 0; first_call = true }

next-start : (n : ℕ) → next (start (suc n)) ≡ (at (suc n) 0, true)
unfolding next
next-start n = ground arith

upto-suc : (first count : ℕ) → 0 < count → upto first count ≡ first ∷ upto (suc first) (count - 1)
upto-suc first zero h = absurd (omega arith)
upto-suc first (suc count) h = ap (λ k. first ∷ upto (suc first) k) (omega arith)

visits-start : (n fuel : ℕ) → 2 ^ n < fuel → n < 32 → visits fuel (start n) ≡ some (configs n)
unfolding next advance
visits-start n zero f h = absurd (omega arith)
visits-start zero (suc fuel) f h = visits-done fuel (start 0) (start 0) refl
visits-start (suc n) (suc fuel) f h =
    let pos = two_pow_pos (suc n) in
    rw (
      visits-more fuel (start (suc n)) (at (suc n) 0) (next-start n),
      visits-at (suc n) fuel (2 ^ suc n - 1) 0 h (omega arith) (omega arith),
      upto-suc 0 (2 ^ suc n) pos,
    )

-- For at most 31 variables the enumerator can be built, and with more fuel than there are
-- configurations the loop over it ends, having visited each configuration once, in the order of the
-- words, and none if there are no variables.
pub visits-configs :
    (n fuel : ℕ)
    → n < 32
    → 2 ^ n < fuel
    → (enumerator n ≡ some (start n)) × (visits fuel (start n) ≡ some (configs n))
visits-configs n fuel h f = (enumerator-some n h, visits-start n fuel f h)
