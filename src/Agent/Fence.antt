-- ===== src/Agent/Fence.antt =====
-- agent/reconcile.go: the fence against a control plane that another has replaced.
use trust_panel.Prelude.{
  ℕ, ◌≡◌, ◌∙◌, ap, Bool, true, false, List, [], ◌∷◌, ◌⊎◌, inl, inr, Text, if◌then◌else◌, arith,
}
use mathlib.Core.List.{Memᴰ}
use trust_panel.Prelude.Int.{ℤ, pos, negsuc, int_lt}
use trust_panel.Agent.Api.{DesiredState, stale_leader}
use trust_panel.Agent.Host.{Host, IsLawful}
use trust_panel.Agent.Store.{LocalState, Codec, raise_epoch, commit_applied}
use trust_panel.Agent.Payload.{Config}
use trust_panel.Agent.Reconcile.{Agent, result, apply, roll_back}
use trust_panel.Agent.Course.{
  Course, fenced, turned_away, recached, installed, finished, undone, Recalls, apply-Course,
}

abbrev pub int_max : ℤ → ℤ → ℤ
int_max a b = if int_lt a b then b else a

pub below_max :
    (x e l : ℤ) → (int_lt x e ≡ true) ⊎ (int_lt x l ≡ true) → int_lt x (int_max l e) ≡ true
below_max (pos x) (pos e) (pos l) h = ground arith
below_max (pos x) (pos e) (negsuc l) h = ground arith
below_max (pos x) (negsuc e) (pos l) h = ground arith
below_max (pos x) (negsuc e) (negsuc l) h = ground arith
below_max (negsuc x) (pos e) (pos l) h = ground arith
below_max (negsuc x) (pos e) (negsuc l) h = ground arith
below_max (negsuc x) (negsuc e) (pos l) h = ground arith
below_max (negsuc x) (negsuc e) (negsuc l) h = ground arith

max_twice : (e l : ℤ) → int_max (int_max l e) e ≡ int_max l e
max_twice (pos e) (pos l) = ground arith
max_twice (pos e) (negsuc l) = ground arith
max_twice (negsuc e) (pos l) = ground arith
max_twice (negsuc e) (negsuc l) = ground arith

raise_lem :
    (e : ℤ) (st : LocalState)
    → (raise_epoch e st).last_accepted_epoch ≡ int_max st.last_accepted_epoch e
raise_lem e st = ground arith

module _ (h : Host) (law : IsLawful h) (codec : Codec) (store_path : Text) (c : Config) where
  open h use {World}

  Recalls-epoch :
      (ds : DesiredState) (st st1 : LocalState)
      → Recalls h law codec store_path c ds (raise_epoch ds.epoch st) st1
      → st1.last_accepted_epoch ≡ int_max st.last_accepted_epoch ds.epoch
  Recalls-epoch ds st st1 (inl e) =
      ap (λ (x : LocalState). x.last_accepted_epoch) e ∙ raise_lem ds.epoch st
  Recalls-epoch ds st st1 (inr e) =
      ap (λ (x : LocalState). x.last_accepted_epoch) e
      ∙ raise_lem ds.epoch (raise_epoch ds.epoch st)
      ∙ ap (λ x. int_max x ds.epoch) (raise_lem ds.epoch st)
      ∙ max_twice ds.epoch st.last_accepted_epoch

  fenced_epoch : (e l : ℤ) → int_lt e l ≡ true → l ≡ int_max l e
  fenced_epoch (pos e) (pos l) t = ground arith
  fenced_epoch (pos e) (negsuc l) t = ground arith
  fenced_epoch (negsuc e) (pos l) t = ground arith
  fenced_epoch (negsuc e) (negsuc l) t = ground arith

  of_Course :
      (ds : DesiredState) (now : ℕ) (w : World) (st : LocalState) (skip : Bool) (w0 : World)
      (r : Agent h)
      → Course h law codec store_path c ds now w st skip [] w0 (raise_epoch ds.epoch st) r
      → r.1.last_accepted_epoch ≡ int_max st.last_accepted_epoch ds.epoch
  unfolding roll_back commit_applied
  of_Course ds now w st skip w0 r (fenced t e) =
      ap (λ (x : Agent h). x.1.last_accepted_epoch) e
      ∙ fenced_epoch ds.epoch st.last_accepted_epoch t
  of_Course ds now w st skip w0 r (turned_away w1 st1 f t m e) =
      ap (λ (x : Agent h). x.1.last_accepted_epoch) e ∙ Recalls-epoch ds st st1 m
  of_Course ds now w st skip w0 r (recached f v k m n o) = Recalls-epoch ds st r.1 (inr m.state)
  of_Course ds now w st skip w0 r (installed f v fs k b g (finished w1 p d m n o)) =
      Recalls-epoch ds st r.1 (inr m.state)
  of_Course ds now w st skip w0 r (installed f v fs k b g (undone w1 st1 t m e)) =
      ap (λ (x : Agent h). x.1.last_accepted_epoch) e ∙ Recalls-epoch ds st st1 m

  -- The epoch on record after a request is the higher of its own and the one before.
  pub apply-last_accepted_epoch :
      (now : ℕ) (w : World) (st : LocalState) (ds : DesiredState) (skip : Bool)
      → (apply h codec store_path c now w st ds skip).1.last_accepted_epoch
        ≡ int_max st.last_accepted_epoch ds.epoch
  apply-last_accepted_epoch now w st ds skip =
      of_Course ds now w st skip _ _ (apply-Course h law codec store_path c ds now w st skip [])

  pub apply_stale :
      (now : ℕ) (w : World) (st : LocalState) (ds : DesiredState) (skip : Bool)
      → int_lt ds.epoch st.last_accepted_epoch ≡ true
      → apply h codec store_path c now w st ds skip ≡ (w, st, result st stale_leader false [])
  unfolding apply
  apply_stale now w st ds skip e = ground (arith, e)

  -- A request to Apply, and what happens on the node before it comes.
  pub record Push : Type 0 where
    pub now : ℕ
    pub before : World → World
    pub payload : DesiredState

  -- A sequence of requests, which applyMu lets in one by one.
  abbrev pub serve : List Push → World → LocalState → World × LocalState
  serve [] w st = (w, st)
  serve (p ∷ ps) w st =
      let r = apply h codec store_path c p.now (p.before w) st p.payload false in serve ps r.0 r.1

  serve-keeps :
      (ps : List Push) (w : World) (st : LocalState) (x : ℤ)
      → int_lt x st.last_accepted_epoch ≡ true
      → int_lt x (serve ps w st).1.last_accepted_epoch ≡ true
  serve-keeps [] w st x e = e
  serve-keeps (p ∷ ps) w st x e =
      let r = apply h codec store_path c p.now (p.before w) st p.payload false in
      serve-keeps ps r.0 r.1 x (
        rw (apply-last_accepted_epoch p.now (p.before w) st p.payload false)
          (below_max x p.payload.epoch st.last_accepted_epoch (inr e)))

  serve-passes :
      (ps : List Push) (w : World) (st : LocalState) (x : ℤ) (p : Push)
      → Memᴰ p ps
      → int_lt x p.payload.epoch ≡ true
      → int_lt x (serve ps w st).1.last_accepted_epoch ≡ true
  serve-passes [] w st x p m e = elim m [ ]
  serve-passes (q ∷ ps) w st x p (Memᴰ.head g) e =
      let r = apply h codec store_path c q.now (q.before w) st q.payload false in
      serve-keeps ps r.0 r.1 x (
        rw (apply-last_accepted_epoch q.now (q.before w) st q.payload false)
          (below_max x q.payload.epoch st.last_accepted_epoch (inl (rw g at e))))
  serve-passes (q ∷ ps) w st x p (Memᴰ.tail m) e =
      let r = apply h codec store_path c q.now (q.before w) st q.payload false in
      serve-passes ps r.0 r.1 x p m e

  -- After any sequence of requests, a request of an epoch lower than that of one of them, whether or
  -- not it is checked for its age, be that one applied, refused or rolled back, is answered with stale_leader and
  -- changes neither the node nor what the agent remembers.
  pub apply-is_fenced :
      (ps : List Push) (p : Push) (w : World) (st : LocalState) (now : ℕ) (ds : DesiredState)
      (skip : Bool)
      → Memᴰ p ps
      → int_lt ds.epoch p.payload.epoch ≡ true
      → apply h codec store_path c now (serve ps w st).0 (serve ps w st).1 ds skip
        ≡ ((serve ps w st).0, (serve ps w st).1, result (serve ps w st).1 stale_leader false [])
  apply-is_fenced ps p w st now ds skip m e =
      apply_stale now (serve ps w st).0 (serve ps w st).1 ds skip
        (serve-passes ps w st ds.epoch p m e)
