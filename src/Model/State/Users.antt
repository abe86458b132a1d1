-- ===== src/Model/State/Users.antt =====
-- ActiveUsers: which users it returns, and in what order.
use mathlib.Core.List.{Memᴰ, Permᴰ, reverse_aux}
use mathlib.Core.List.Permᴰ as P
use trust_panel.Prelude.{
  ◌≡◌, refl, true, false, List, [], ◌∷◌, ◌++◌, All, filter, Bool-cases, inl, inr, arith, text_lt,
  text_lt_trans, text_lt_irrefl, text_lt_total, ◌<◌, ◌↔◌, Option, none, some, mem-perm, mem-filter,
  mem_of_filter,
}
use trust_panel.Model.Node.{Instant, User, active}
use trust_panel.Model.State.{State, sink, sort_loop, sort_users_by_username, active_users}

-- The name of `u` is not below that of `v`.
abbrev NotBelow : User → User → Type 0
NotBelow u v = text_lt u.username v.username ≡ false

-- In ascending order of the usernames.
abbrev pub IsAscending : List User → Type 0
IsAscending [] = Unit
IsAscending (u ∷ us) = All (λ v. NotBelow v u) us × IsAscending us

abbrev IsDescending : List User → Type 0
IsDescending [] = Unit
IsDescending (u ∷ us) = All (λ v. NotBelow u v) us × IsDescending us

NotBelow-trans : (a b c : User) → NotBelow a b → NotBelow b c → NotBelow a c
NotBelow-trans a b c h k = ground (
  arith,
  text_lt_trans b.username a.username c.username,
  text_lt_total b.username c.username,
  text_lt_total a.username b.username,
  text_lt_trans a.username c.username b.username,
)

NotBelow-All :
    (a b : User) (us : List User)
    → NotBelow a b
    → All (λ v. NotBelow b v) us
    → All (λ v. NotBelow a v) us
NotBelow-All a b [] h k = tt
NotBelow-All a b (v ∷ us) h (k, ks) = (NotBelow-trans a b v h k, NotBelow-All a b us h ks)

below_asym : (u v : User) → text_lt u.username v.username ≡ true → NotBelow v u
below_asym u v h =
    ground (arith, text_lt_trans u.username v.username u.username, text_lt_irrefl u.username)

sink-All :
    (a u : User) (us : List User)
    → NotBelow a u
    → All (λ v. NotBelow a v) us
    → All (λ v. NotBelow a v) (sink u us)
unfolding sink
sink-All a u [] h k = (h, tt)
sink-All a u (v ∷ us) h (k, ks) = elim (Bool-cases (text_lt u.username v.username)) [
  | inl e ↦ rw e (k, sink-All a u us h ks)
  | inr e ↦ rw e (h, (k, ks))
]

sink-IsDescending : (u : User) (us : List User) → IsDescending us → IsDescending (sink u us)
unfolding sink
sink-IsDescending u [] h = (tt, tt)
sink-IsDescending u (v ∷ us) (h, k) = elim (Bool-cases (text_lt u.username v.username)) [
  | inl e ↦ rw e (sink-All v u us (below_asym u v e) h, sink-IsDescending u us k)
  | inr e ↦ rw e ((e, NotBelow-All u v us e h), (h, k))
]

loop-IsDescending : (front us : List User) → IsDescending front → IsDescending (sort_loop front us)
unfolding sort_loop
loop-IsDescending front [] h = h
loop-IsDescending front (u ∷ us) h =
    loop-IsDescending (sink u front) us (sink-IsDescending u front h)

sink-Permᴰ : (u : User) (us : List User) → Permᴰ (sink u us) (u ∷ us)
unfolding sink
sink-Permᴰ u [] = P.refl _
sink-Permᴰ u (v ∷ us) = elim (Bool-cases (text_lt u.username v.username)) [
  | inl e ↦ rw e (Permᴰ.trans (Permᴰ.cons refl (sink-Permᴰ u us)) (Permᴰ.swap refl refl))
  | inr e ↦ rw e (P.refl _)
]

loop-Permᴰ : (front us : List User) → Permᴰ (sort_loop front us) (us ++ front)
unfolding sort_loop
loop-Permᴰ front [] = P.refl _
loop-Permᴰ front (u ∷ us) =
    Permᴰ.trans (loop-Permᴰ (sink u front) us)
      (Permᴰ.trans (P.append_left us (sink-Permᴰ u front)) (P.middle u us front))

-- Every user of the one list is not below any of the other.
abbrev Separates : List User → List User → Type 0
Separates us vs = All (λ u. All (λ v. NotBelow v u) vs) us

reverse_aux-IsAscending :
    (us acc : List User)
    → IsDescending us
    → IsAscending acc
    → Separates us acc
    → IsAscending (reverse_aux us acc)
reverse_aux-IsAscending [] acc d a s = a
reverse_aux-IsAscending (u ∷ us) acc (du, d) a (su, s) =
    reverse_aux-IsAscending us (u ∷ acc) d (su, a) (extend us du s)
  where
    extend :
        (ws : List User) → All (λ w. NotBelow u w) ws → Separates ws acc → Separates ws (u ∷ acc)
    extend [] h k = tt
    extend (w ∷ ws) (h, hs) (k, ks) = ((h, k), extend ws hs ks)

-- `at` comes before the user's expiry, if there is one.
abbrev pub IsUnexpired : User → Instant → Type 0
IsUnexpired u at = (t : Instant) → u.expires_at ≡ some t → at < t

active_iff :
    (u : User) (at : Instant) → (active u at ≡ true) ↔ ((u.enabled ≡ true) × IsUnexpired u at)
unfolding active
active_iff u at = (λ h. (ground arith, λ t e. ground arith), λ h. back u.expires_at refl h.0 h.1)
  where
    back :
        (o : Option Instant)
        → u.expires_at ≡ o
        → u.enabled ≡ true
        → IsUnexpired u at
        → active u at ≡ true
    back none e n x = ground arith
    back (some t) e n x = ground (arith, x t e)

sorted-Permᴰ : (us : List User) → Permᴰ (sort_users_by_username us) us
unfolding sort_users_by_username
sorted-Permᴰ us =
    Permᴰ.trans (P.reverse (sort_loop [] us)) (Permᴰ.trans (loop-Permᴰ [] us) (P.append-nil us))

-- The active users stand in ascending order of their usernames, and they are exactly the users of
-- the state that are enabled and whose expiry, if any, is still ahead.
pub active_users_correct :
    (s : State) (at : Instant)
    → IsAscending (active_users s at)
      × ((u : User)
          → Memᴰ u (active_users s at) ↔ (Memᴰ u s.users × (u.enabled ≡ true) × IsUnexpired u at))
unfolding active_users sort_users_by_username
active_users_correct s at =
    let kept = filter (λ u. active u at) s.users in
    (
      reverse_aux-IsAscending (sort_loop [] kept) [] (loop-IsDescending [] kept tt) tt
          (separate (sort_loop [] kept)),
      λ u. (
        λ h.
            let (m, a) =
              mem-filter (λ v. active v at) s.users (mem-perm (P.symm (sorted-Permᴰ kept)) h) in
            let (n, x) = (active_iff u at).0 a in (m, n, x),
        λ h.
            mem-perm (sorted-Permᴰ kept)
              (mem_of_filter (λ v. active v at) s.users h.0 ((active_iff u at).1 (h.1, h.2))),
      ),
    )
  where
    separate : (us : List User) → Separates us []
    separate [] = tt
    separate (u ∷ us) = (tt, separate us)
