-- ===== src/Agent/Converged.antt =====
-- agent/reconcile.go: what an applied request has brought about on the node and in the store.
use trust_panel.Prelude.{
  ℕ, ◌≡◌, ◌≢◌, refl, sym, ◌∙◌, ap, subst, not, ◌&&◌, Bool, true, false, some, List, [], All,
  All-mem, Bool-cases, ◌⊎◌, inl, inr, Text, text_eq, text_eq_iff,
}
use mathlib.Core.List.{Memᴰ}
use trust_panel.Prelude.Result.{ok, then-ok, for_each-ok, for_each, ◌>>◌, fail_if}
use trust_panel.Agent.Api.{File, DesiredState, applied, no_change}
use trust_panel.Agent.Host.{Host, IsLawful, Disk, body_of}
use trust_panel.Agent.Files.{resolve_within_roots}
use trust_panel.Agent.Store.{LocalState, Codec, raise_epoch}
use trust_panel.Agent.Payload.{
  Config, ResolvedFile, file_ok, service_ok, validate, changed_file, changed_files, is_too_old,
  wrong_node, too_old,
}
use trust_panel.Agent.Reconcile.{Agent, apply, write_files, roll_back}
use trust_panel.Agent.Effects.{commit_applied-elsewhere}
use trust_panel.Agent.Course.{
  Course, fenced, turned_away, recached, installed, finished, undone, Commits, apply-Course,
}
use trust_panel.Agent.Sums.{
  HasSum, file_ok-Stated, changed_file-Stated, changed_file-HasSum, changed_files-All,
  changed_files-covers, write_files-HasSum,
}

some_inj : {a b : Text} → some a ≡ some b → a ≡ b
some_inj e = cc

module _ (h : Host) (law : IsLawful h) (c : Config) where
  open h use {World, disk, sha256_hex}

  pub validate-files :
      (now : ℕ) (ds : DesiredState) (skip : Bool)
      → validate h c now ds skip ≡ ok tt
      → All (λ f. file_ok h c f ≡ ok tt) ds.files
  unfolding validate
  validate-files now ds skip v =
      let checks =
        fail_if (not (text_eq ds.node_id c.node_id)) wrong_node
        >> fail_if (not skip && is_too_old now c.max_clock_skew ds.issued_at) too_old in
      let files = for_each (file_ok h c) ds.files in
      let (v1, _) = then-ok (checks >> files) (for_each (service_ok c) ds.services) v in
      let (_, v2) = then-ok checks files v1 in for_each-ok (file_ok h c) ds.files v2

  -- The files of the payload that go to one path have one sum.
  abbrev pub AgreeOn : List File → File → Type 0
  AgreeOn files f =
      All
        (λ g.
          (resolve_within_roots h c.roots g.path ≢ resolve_within_roots h c.roots f.path)
          ⊎ (g.sha256 ≡ f.sha256))
        files

  module _ (files : List File) (valid : All (λ f. file_ok h c f ≡ ok tt) files) where
    is_alike :
        (w : World) (f : File)
        → AgreeOn files f
        → (abs : Text) → resolve_within_roots h c.roots f.path ≡ some abs
        → (g : File) → Memᴰ g files
        → (rf : ResolvedFile) → changed_file h c w g ≡ some (some rf)
        → (text_eq abs rf.abs ≡ false) ⊎ (sha256_hex rf.body ≡ f.sha256)
    is_alike w f agree abs r g m rf k =
        let s = file_ok-Stated h law c g (All-mem (λ x. file_ok h c x ≡ ok tt) files valid m) in
        let (p, q) = changed_file-Stated h law c w g s rf k in
        elim (Bool-cases (text_eq abs rf.abs)) [
          | inr n ↦ inl n
          | inl y ↦ elim (All-mem _ files agree m) [
            | inl n ↦
                absurd
                  (n (s.resolved ∙ ap some (sym p ∙ sym ((text_eq_iff abs rf.abs).0 y)) ∙ sym r))
            | inr a ↦ inr (ap sha256_hex q ∙ s.sums ∙ a)
          ]
        ]

    written-HasSum :
        (w : World) (fs : List ResolvedFile) (f : File)
        → Memᴰ f files
        → AgreeOn files f
        → changed_files h c w files ≡ some fs
        → (write_files h w fs).1 ≡ true
        → (abs : Text) → resolve_within_roots h c.roots f.path ≡ some abs
        → HasSum h law c (write_files h w fs).0 abs f.sha256
    written-HasSum w fs f m agree k e abs r =
        let s = file_ok-Stated h law c f (All-mem (λ g. file_ok h c g ≡ ok tt) files valid m) in
        let same : s.abs ≡ abs = some_inj (sym s.resolved ∙ r) in
        let alike =
          changed_files-All h law c w
            (λ rf. (text_eq abs rf.abs ≡ false) ⊎ (sha256_hex rf.body ≡ f.sha256)) files fs
            (is_alike w f agree abs r) k in
        write_files-HasSum h law c w fs abs f.sha256 e alike
          (elim (changed_files-covers h law c w files fs f k m) [
            | inl u ↦ inr (
                subst (λ x. HasSum h law c w x f.sha256) same (changed_file-HasSum h law c w f s u))
            | inr (rf, u, t) ↦
                let p = (changed_file-Stated h law c w f s rf u).0 in inl (rw (sym (p ∙ same)) t)
          ])

  module _ (codec : Codec) (store_path : Text) where
    committed-HasSum :
        (w w1 : World) (st : LocalState) (ds : DesiredState) (r : Agent h) (abs sum : Text)
        → text_eq abs store_path ≡ false
        → disk w1 ≡ disk w
        → Commits h law codec store_path c ds w1 st r
        → HasSum h law c w abs sum
        → HasSum h law c r.0 abs sum
    committed-HasSum w w1 st ds r abs sum e d m s = record {
      body = s.body;
      stands =
          ap (λ (x : World). body_of (disk x abs)) m.world
          ∙ ap body_of (commit_applied-elsewhere h law codec store_path w1 st ds abs e)
          ∙ ap (λ (x : Disk). body_of (x abs)) d
          ∙ s.stands;
      sums = s.sums;
    }

    converged_in :
        (now : ℕ) (w : World) (st : LocalState) (ds : DesiredState) (skip : Bool) (w0 : World)
        (r : Agent h)
        → Course h law codec store_path c ds now w st skip [] w0 (raise_epoch ds.epoch st) r
        → (r.2.outcome ≡ applied) ⊎ (r.2.outcome ≡ no_change)
        → (f : File) → Memᴰ f ds.files
        → AgreeOn ds.files f
        → (abs : Text) → resolve_within_roots h c.roots f.path ≡ some abs
        → text_eq abs store_path ≡ false
        → HasSum h law c r.0 abs f.sha256
    unfolding roll_back write_files
    converged_in now w st ds skip w0 r (fenced t g) o f m a abs p e =
        let x = ap (λ (x : Agent h). x.2.outcome) g in elim o [ inl y ↦ cc | inr y ↦ cc ]
    converged_in now w st ds skip w0 r (turned_away w1 st1 t u v g) o f m a abs p e =
        let x = ap (λ (x : Agent h). x.2.outcome) g in elim o [ inl y ↦ cc | inr y ↦ cc ]
    converged_in now w st ds skip w0 r (recached t v k y n z) o f m a abs p e =
        committed-HasSum w0 w0 (raise_epoch ds.epoch st) ds r abs f.sha256 e refl y
          (written-HasSum ds.files (validate-files now ds skip v) w0 [] f m a k refl abs p)
    converged_in now w st ds skip w0 r (installed t v fs k b g (finished w1 d q y n z)) o f m a abs
          p e =
        committed-HasSum (write_files h w0 fs).0 w1 (raise_epoch ds.epoch st) ds r abs f.sha256 e q
          y (written-HasSum ds.files (validate-files now ds skip v) w0 fs f m a k d abs p)
    converged_in now w st ds skip w0 r (installed t v fs k b g (undone w1 st1 q y z)) o f m a abs p
          e =
        let x = ap (λ (x : Agent h). x.2.outcome) z in elim o [ inl y ↦ cc | inr y ↦ cc ]

    -- On a host whose units and checkers write no files, after a request that is answered with applied
    -- or no_change, the content at the path of each file of the payload has the file's sum, if the payload's files for that path agree and the path is not
    -- that of the agent's own state.
    pub apply-HasSum :
        (now : ℕ) (w : World) (st : LocalState) (ds : DesiredState) (skip : Bool) (f : File)
        (abs : Text)
        → (((apply h codec store_path c now w st ds skip).2.outcome ≡ applied)
            ⊎ ((apply h codec store_path c now w st ds skip).2.outcome ≡ no_change))
        → Memᴰ f ds.files
        → AgreeOn ds.files f
        → resolve_within_roots h c.roots f.path ≡ some abs
        → text_eq abs store_path ≡ false
        → HasSum h law c (apply h codec store_path c now w st ds skip).0 abs f.sha256
    apply-HasSum now w st ds skip f abs o m a p e =
        converged_in now w st ds skip _ _
          (apply-Course h law codec store_path c ds now w st skip []) o f m a abs p e
