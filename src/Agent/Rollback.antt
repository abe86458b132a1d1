-- ===== src/Agent/Rollback.antt =====
-- agent/reconcile.go: what a request that is not applied leaves on the disk.
use trust_panel.Prelude.{
  ℕ, ◌≡◌, ◌≢◌, ◌∙◌, ap, Bool, true, false, some, List, [], Bool-cases, ◌⊎◌, inl, inr, Text, text_eq,
}
use trust_panel.Agent.Api.{DesiredState, rolled_back}
use trust_panel.Agent.Host.{Host, IsLawful, body_of}
use trust_panel.Agent.Files.{BackupSet, has_entry, restore}
use trust_panel.Agent.Store.{LocalState, Codec, raise_epoch, bump_epoch}
use trust_panel.Agent.Payload.{Config, ResolvedFile, changed_files}
use trust_panel.Agent.Reconcile.{Agent, apply, roll_back, capture_all}
use trust_panel.Agent.Effects.{writes, bump_epoch-elsewhere, commit_applied-elsewhere}
use trust_panel.Agent.Course.{
  Course, fenced, turned_away, recached, installed, finished, undone, Touched, apply-Course,
}
use trust_panel.Agent.Backup.{restore-prior, capture_all-IsPrior, capture_all-has_entry}

module _ (h : Host) (law : IsLawful h) (codec : Codec) (store_path : Text) (c : Config) where
  open h use {World, disk}

  -- The restore that made the world `w` of the backup taken in `w0` reported an error, which `apply`
  -- drops.
  pub record RestoreFailed (w0 w : World) (ds : DesiredState) : Type 0 where
    pub from : World
    pub files : List ResolvedFile
    pub to_write : changed_files h c w0 ds.files ≡ some files
    pub backup : BackupSet
    pub taken : capture_all h w0 [] files ≡ some backup
    pub world : w ≡ (restore h from backup).0
    pub failed : (restore h from backup).1 ≡ false

  untouched :
      (w w1 : World) (q : Text)
      → text_eq q store_path ≡ false
      → (text_eq q store_path ≡ true) ⊎ (false ≡ true) ⊎ (disk w1 q ≡ disk w q)
      → disk w1 q ≡ disk w q
  untouched w w1 q e (inl t) = cc
  untouched w w1 q e (inr (inl t)) = cc
  untouched w w1 q e (inr (inr t)) = t

  unchanged_in :
      (now : ℕ) (w : World) (st : LocalState) (ds : DesiredState) (skip : Bool) (q : Text)
      (r : Agent h)
      → text_eq q store_path ≡ false
      → r.2.changed ≡ false
      → r.2.outcome ≢ rolled_back
      → Course h law codec store_path c ds now w st skip q
          (bump_epoch h codec store_path w st ds.epoch).0
          (raise_epoch ds.epoch st)
          r
      → disk r.0 q ≡ disk w q
  unfolding roll_back
  unchanged_in now w st ds skip q r e ch o (fenced t g) = ap (λ (x : Agent h). disk x.0 q) g
  unchanged_in now w st ds skip q r e ch o (turned_away w1 st1 f t m g) =
      ap (λ (x : Agent h). disk x.0 q) g ∙ untouched w w1 q e t
  unchanged_in now w st ds skip q r e ch o (recached f v k m n p) =
      ap (λ (x : World). disk x q) m.world
      ∙ commit_applied-elsewhere h law codec store_path _ (raise_epoch ds.epoch st) ds q e
      ∙ bump_epoch-elsewhere h law codec store_path w st ds.epoch q e
  unchanged_in now w st ds skip q r e ch o (installed f v fs k b g (finished w1 p d m n a)) = cc
  unchanged_in now w st ds skip q r e ch o (installed f v fs k b g (undone w1 st1 t m a)) =
      absurd (o (ap (λ (x : Agent h). x.2.outcome) a))

  -- On a host whose units and checkers write no files, a request that reports no change, and is not
  -- rolled back, leaves every file as it was but for the agent's own.
  pub apply-unchanged :
      (now : ℕ) (w : World) (st : LocalState) (ds : DesiredState) (skip : Bool) (q : Text)
      → text_eq q store_path ≡ false
      → (apply h codec store_path c now w st ds skip).2.changed ≡ false
      → (apply h codec store_path c now w st ds skip).2.outcome ≢ rolled_back
      → disk (apply h codec store_path c now w st ds skip).0 q ≡ disk w q
  apply-unchanged now w st ds skip q e ch o =
      unchanged_in now w st ds skip q _ e ch o
        (apply-Course h law codec store_path c ds now w st skip q)

  as_before :
      (ds : DesiredState) (w w1 : World) (b : BackupSet) (fs : List ResolvedFile) (q : Text)
      → has_entry b q ≡ writes fs q
      → text_eq q store_path ≡ false
      → Touched h law codec store_path c ds w w1 fs q
      → (has_entry b q ≡ true) ⊎ (body_of (disk w1 q) ≡ body_of (disk w q))
  as_before ds w w1 b fs q s e (inl t) = cc
  as_before ds w w1 b fs q s e (inr (inl t)) = inl (s ∙ t)
  as_before ds w w1 b fs q s e (inr (inr t)) = inr (ap body_of t)

  restored_in :
      (now : ℕ) (w : World) (st : LocalState) (ds : DesiredState) (skip : Bool) (q : Text)
      (r : Agent h)
      → text_eq q store_path ≡ false
      → r.2.outcome ≡ rolled_back
      → Course h law codec store_path c ds now w st skip q
          (bump_epoch h codec store_path w st ds.epoch).0
          (raise_epoch ds.epoch st)
          r
      → (body_of (disk r.0 q) ≡ body_of (disk w q))
        ⊎ RestoreFailed (bump_epoch h codec store_path w st ds.epoch).0 r.0 ds
  unfolding roll_back
  restored_in now w st ds skip q r e o (fenced t g) =
      let x = ap (λ (x : Agent h). x.2.outcome) g in cc
  restored_in now w st ds skip q r e o (turned_away w1 st1 f t m g) =
      let x = ap (λ (x : Agent h). x.2.outcome) g in cc
  restored_in now w st ds skip q r e o (recached f v k m n (inl p)) = cc
  restored_in now w st ds skip q r e o (recached f v k m n (inr p)) = cc
  restored_in now w st ds skip q r e o (installed f v fs k b g (finished w1 p d m n a)) = cc
  restored_in now w st ds skip q r e o (installed f v fs k b x (undone w1 st1 t m a)) =
      let w0 = (bump_epoch h codec store_path w st ds.epoch).0 in
      let s = capture_all-has_entry h law w0 [] fs b q x in
      let world = ap (λ (x : Agent h). x.0) a in
      elim (Bool-cases (restore h w1 b).1) [
        | inl y ↦ inl (
            ap (λ (x : World). body_of (disk x q)) world
            ∙ restore-prior h law w0 w1 b q (capture_all-IsPrior h law w0 [] fs b x tt) y
                (as_before ds w0 w1 b fs q s e t)
            ∙ ap body_of (bump_epoch-elsewhere h law codec store_path w st ds.epoch q e))
        | inr y ↦ inr (record {
          from = w1;
          files = fs;
          to_write = k;
          backup = b;
          taken = x;
          world = world;
          failed = y;
        })
      ]

  -- On a host whose units and checkers write no files, after a rollback every file but the agent's own
  -- has the body that it had before the request, or the restore failed somewhere.
  pub apply-rolled_back :
      (now : ℕ) (w : World) (st : LocalState) (ds : DesiredState) (skip : Bool) (q : Text)
      → text_eq q store_path ≡ false
      → (apply h codec store_path c now w st ds skip).2.outcome ≡ rolled_back
      → (body_of (disk (apply h codec store_path c now w st ds skip).0 q) ≡ body_of (disk w q))
        ⊎ RestoreFailed
            (bump_epoch h codec store_path w st ds.epoch).0
            (apply h codec store_path c now w st ds skip).0
            ds
  apply-rolled_back now w st ds skip q e o =
      restored_in now w st ds skip q _ e o
        (apply-Course h law codec store_path c ds now w st skip q)
