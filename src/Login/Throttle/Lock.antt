-- ===== src/Login/Throttle/Lock.antt =====
-- auth.go: how long a lockout is, overflow of the shift included.
use trust_panel.Prelude.{
  ℕ, zero, suc, ◌≡◌, refl, sym, ◌∙◌, ap, ◌+◌, ◌-◌, ◌*◌, ◌%◌, ◌<◌, ◌≤◌, ltb, ltb→lt, leb, Bool-cases,
  ◌==◌, Bool, true, ◌&&◌, if◌then◌else◌, arith, inl, inr,
}
use trust_panel.Login.Throttle.{base_lock, max_lock, shift_left, lock_for}

-- Two seconds, doubled `n` times, with no bound on the number.
unfoldable pub doubled : ℕ → ℕ
doubled zero = base_lock
doubled (suc n) = doubled n * 2

-- A test for `count` numbers from `from` on.
all_from : (ℕ → Bool) → ℕ → ℕ → Bool
all_from f from zero = true
all_from f from (suc count) = f from && all_from f (suc from) count

all_from_lem :
    (f : ℕ → Bool) (from count n : ℕ)
    → all_from f from count ≡ true
    → from ≤ n
    → n < from + count
    → f n ≡ true
unfolding all_from
all_from_lem f from zero n e a b = absurd (omega (arith, a, b))
all_from_lem f from (suc count) n e a b = elim (Bool-cases (ltb from n)) [
  | inl t ↦
      all_from_lem f (suc from) count n (ground (arith, e)) (omega (arith, ltb→lt from n t))
        (omega (arith, b))
  | inr t ↦ let same : from ≡ n = ground (arith, t, a) in rw (← same) (ground (arith, e))
]

-- From the 54th shift on nothing is left of the number.
shifted_out : (k : ℕ) → shift_left base_lock (k + 54) ≡ 0
unfolding shift_left
shifted_out zero = refl
shifted_out (suc k) =
    let e : suc k + 54 ≡ suc (k + 54) = omega arith in
    ap (shift_left base_lock) e ∙ ap (λ x. (x * 2) % 18446744073709551616) (shifted_out k)

doubled_above : (k : ℕ) → max_lock < doubled (k + 9)
unfolding doubled
doubled_above zero = omega arith
doubled_above (suc k) =
    let e : suc k + 9 ≡ suc (k + 9) = omega arith in rw e (omega (arith, doubled_above k))

abbrev is_doubled : ℕ → Bool
is_doubled n = (lock_for n == doubled n) && leb (doubled n) max_lock

few_are_doubled : all_from is_doubled 0 9 ≡ true
unfolding all_from lock_for shift_left doubled
few_are_doubled = refl

-- Between the ninth shift and the 54th the pattern is above the cap, negative or both.
many_are_capped : all_from (λ n. lock_for n == max_lock) 9 45 ≡ true
unfolding all_from lock_for shift_left
many_are_capped = refl

split : (m n : ℕ) → m ≤ n → (n - m) + m ≡ n
split m n h = omega (arith, h)

out_lem : (n : ℕ) → 54 ≤ n → lock_for n ≡ max_lock
unfolding lock_for
out_lem n h = let e = split 54 n h in ground (arith, (rw e at (shifted_out (n - 54))))

-- A lockout is two seconds doubled for each further failure, and fifteen minutes at most: for every
-- number of failures, also where the shift overflows.
pub lock_for-capped :
    (n : ℕ) → lock_for n ≡ (if leb (doubled n) max_lock then doubled n else max_lock)
lock_for-capped n = elim (Bool-cases (ltb n 9)) [
  | inl a ↦
      let few = all_from_lem is_doubled 0 9 n few_are_doubled (omega arith) (ltb→lt n 9 a) in
      ground (arith, few)
  | inr a ↦
      let k = n - 9 in
      let above : max_lock < doubled n =
        rw (sym (split 9 n (ground (arith, a)))) (doubled_above (n - 9)) in
      elim (Bool-cases (ltb n 54)) [
        | inl b ↦
            let many =
              all_from_lem (λ m. lock_for m == max_lock) 9 45 n many_are_capped (ground (arith, a))
                (ltb→lt n 54 b) in
            ground (arith, many, above)
        | inr b ↦ ground (arith, out_lem n (ground (arith, b)), above)
      ]
]
