-- ===== src/Login/Throttle/Streaks.antt =====
-- auth.go: the lockout of a name over any sequence of logins.
use trust_panel.Prelude.{
  ℕ, ◌≡◌, refl, subst, ap, ◌+◌, ◌-◌, ◌<◌, ltb, ltb→lt, leb, Bool-cases, Option, some, List, [], ◌∷◌,
  if◌then◌else◌, ◌⊎◌, inl, inr, Text, text_eq, text_eq_refl, text_eq_iff, arith,
}
use trust_panel.Login.Throttle.{
  Entry, Throttle, max_lock, no_entries, retry_after, entry_or_new, count_failure, fail, success,
}
use trust_panel.Login.Throttle.Lock.{doubled, lock_for-capped}

-- What the login page reports to the throttle, and when.
pub data Event : Type 0 where
  failed : Text → ℕ → Event
  passed : Text → Event

abbrev pub report_login : Throttle → Event → Throttle
report_login l (failed u t) = fail l u t
report_login l (passed u) = success l u

abbrev pub report_logins : Throttle → List Event → Throttle
report_logins l [] = l
report_logins l (e ∷ es) = report_logins (report_login l e) es

-- The failures of a name since it last got in, `n` before the events.
abbrev pub streak : Text → ℕ → List Event → ℕ
streak u n [] = n
streak u n (failed v t ∷ es) = streak u (if text_eq u v then n + 1 else n) es
streak u n (passed v ∷ es) = streak u (if text_eq u v then 0 else n) es

-- The entry counts `n` failures, and is not locked before it has used up the free ones.
record Counts (o : Option Entry) (n : ℕ) : Type 0 where
  counted : (entry_or_new o).fails ≡ n
  unlocked : (5 < n) ⊎ ((entry_or_new o).locked_until ≡ 0)

count_failure-Counts :
    (o : Option Entry) (n t : ℕ)
    → Counts o n
    → Counts (some (count_failure (entry_or_new o) t)) (n + 1)
count_failure-Counts o n t c = elim (Bool-cases (ltb 5 (n + 1))) [
  | inl a ↦ record { counted = ground (arith, a, c.counted); unlocked = inl (ltb→lt 5 (n + 1) a) }
  | inr a ↦ record {
    counted = ground (arith, a, c.counted);
    unlocked = inr (elim c.unlocked [
      | inl b ↦ ground (arith, a, b)
      | inr b ↦ ground (arith, a, b, c.counted)
    ]);
  }
]

report_login-Counts :
    (u : Text) (l : Throttle) (n : ℕ) (e : Event)
    → Counts (l u) n
    → Counts (report_login l e u) (streak u n (e ∷ []))
unfolding fail success
report_login-Counts u l n (failed v t) c = elim (Bool-cases (text_eq u v)) [
  | inl a ↦
      let same : l u ≡ l v = ap l ((text_eq_iff u v).0 a) in
      rw a (count_failure-Counts (l v) n t (subst (λ o. Counts o n) same c))
  | inr a ↦ rw a c
]
report_login-Counts u l n (passed v) c = elim (Bool-cases (text_eq u v)) [
  | inl a ↦ rw a (record { counted = refl; unlocked = inr refl })
  | inr a ↦ rw a c
]

report_logins-Counts :
    (u : Text) (l : Throttle) (n : ℕ) (es : List Event)
    → Counts (l u) n
    → Counts (report_logins l es u) (streak u n es)
report_logins-Counts u l n [] c = c
report_logins-Counts u l n (failed v t ∷ es) c =
    report_logins-Counts u (fail l v t) _ es (report_login-Counts u l n (failed v t) c)
report_logins-Counts u l n (passed v ∷ es) c =
    report_logins-Counts u (success l v) _ es (report_login-Counts u l n (passed v) c)

-- Two seconds, doubled `n` times, and fifteen minutes at most.
abbrev pub capped : ℕ → ℕ
capped n = if leb (doubled n) max_lock then doubled n else max_lock

-- After any logins of anyone, a name that fails once more has to wait, from that moment on, for
-- nothing while it has failed at most five times since it last got in, and else for two seconds,
-- doubled for each failure after the sixth, and fifteen minutes at most.
pub retry_after-fail :
    (es : List Event) (u : Text) (t : ℕ)
    → let n = streak u 0 es in
      retry_after (fail (report_logins no_entries es) u t) u t
      ≡ (if ltb n 5 then 0 else capped (n - 5))
unfolding retry_after fail
retry_after-fail es u t =
    let n = streak u 0 es in
    let c =
      report_logins-Counts u no_entries 0 es (record { counted = refl; unlocked = inr refl }) in
    elim (Bool-cases (ltb n 5)) [
      | inl a ↦ elim c.unlocked [
        | inl b ↦ ground (arith, a, b)
        | inr b ↦ ground (arith, a, b, c.counted, text_eq_refl u)
      ]
      | inr a ↦ ground (arith, a, c.counted, text_eq_refl u, lock_for-capped (n - 5))
    ]
