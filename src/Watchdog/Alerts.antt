-- ===== src/Watchdog/Alerts.antt =====
-- What a monitor says of one key: it depends on that key's samples only, its notices alternate, a
-- failing key is reported once, and it says what the single-target watcher says.
use trust_panel.Prelude.{
  ℕ, ◌+◌, ◌<◌, length, All, ◌≡◌, refl, sym, ◌∙◌, ap, Bool, true, false, Option, none, some, List,
  [], ◌∷◌, map, filter, leb, if◌then◌else◌, Text, text_eq, text_eq_refl, text_eq_iff, text_eq_sym,
  arith, Bool-cases, inl, inr, filter-filter,
}
use trust_panel.Prelude.Int.{ℤ, pos, negsuc}
use trust_panel.Model.Node.{Instant}
use trust_panel.Watchdog.{
  Notice, down, up, Cell, Monitor, new_monitor, since_or, due, observe, Sample, noted, run, Watcher,
  tick, said_first, reaches, at_least_one, watch,
}

cell_of : Monitor → Text → Cell
cell_of m key = record { fails = m.fails key; since = m.since key; alerted = m.alerted key }

-- Observe as one key sees it.
cell_step : ℕ → ℕ → Cell → Instant → Bool → Cell × Option Notice
cell_step threshold min_down c at true =
    (record { fails = 0; since = none; alerted = false }, (if c.alerted then some up else none))
cell_step threshold min_down c at false =
    let since = since_or c.since at in
    if due threshold min_down (c.fails + 1) since at c.alerted
    then (record { fails = c.fails + 1; since = some since; alerted = true }, some down)
    else (record { fails = c.fails + 1; since = some since; alerted = c.alerted }, none)

cell_run : ℕ → ℕ → Cell → List Sample → List Notice
cell_run threshold min_down c [] = []
cell_run threshold min_down c (x ∷ xs) =
    let (after, said) = cell_step threshold min_down c x.at x.is_healthy in
    said_first said (cell_run threshold min_down after xs)

abbrev pub samples_of : Text → List Sample → List Sample
samples_of key = filter (λ x. text_eq x.key key)

-- The notices of one key.
unfoldable pub notices_of : Text → List (Text × Notice) → List Notice
notices_of key [] = []
notices_of key (n ∷ ns) =
    let rest = notices_of key ns in if text_eq n.0 key then n.1 ∷ rest else rest

observe-same :
    (m : Monitor) (at : Instant) (key : Text) (b : Bool)
    → (cell_of (observe m at key b).0 key
        ≡ (cell_step m.threshold m.min_down (cell_of m key) at b).0)
      × ((observe m at key b).1 ≡ (cell_step m.threshold m.min_down (cell_of m key) at b).1)
unfolding observe cell_of cell_step
observe-same m at key b = (ground (arith, text_eq_refl key), ground (arith, text_eq_refl key))

observe-key :
    (m : Monitor) (at : Instant) (key other : Text) (b : Bool)
    → other ≡ key
    → (cell_of (observe m at other b).0 key
        ≡ (cell_step m.threshold m.min_down (cell_of m key) at b).0)
      × ((observe m at other b).1 ≡ (cell_step m.threshold m.min_down (cell_of m key) at b).1)
observe-key m at key other b e = rw e (observe-same m at key b)

observe-other :
    (m : Monitor) (at : Instant) (key other : Text) (b : Bool)
    → text_eq other key ≡ false
    → cell_of (observe m at key b).0 other ≡ cell_of m other
unfolding observe cell_of
observe-other m at key other b h = ground arith

observe-settings :
    (m : Monitor) (at : Instant) (key : Text) (b : Bool)
    → ((observe m at key b).0.threshold ≡ m.threshold)
      × ((observe m at key b).0.min_down ≡ m.min_down)
unfolding observe
observe-settings m at key b = (ground arith, ground arith)

noted-of :
    (key other : Text) (n : Option Notice) (ns : List (Text × Notice))
    → notices_of key (noted other n ns)
      ≡ (if text_eq other key then said_first n (notices_of key ns) else notices_of key ns)
unfolding notices_of
noted-of key other none ns = ground arith
noted-of key other (some n) ns = refl

-- What is said of a key is a matter of that key's cell and of its samples.
run-by_cell :
    (key : Text) (m : Monitor) (xs : List Sample)
    → notices_of key (run m xs)
      ≡ cell_run m.threshold m.min_down (cell_of m key) (samples_of key xs)
unfolding run notices_of cell_run
run-by_cell key m [] = refl
run-by_cell key m (x ∷ xs) =
    let after = observe m x.at x.key x.is_healthy in
    let (same_threshold, same_floor) = observe-settings m x.at x.key x.is_healthy in
    let later = run-by_cell key after.0 xs in
    let shown = noted-of key x.key after.1 (run after.0 xs) in
    elim (Bool-cases (text_eq x.key key)) [
      | inl e ↦
          let (cell, said) =
            observe-key m x.at key x.key x.is_healthy ((text_eq_iff x.key key).0 e) in
          shown ∙ rw e (rw (said, later, cell, same_threshold, same_floor) refl)
      | inr e ↦
          let untouched = observe-other m x.at x.key key x.is_healthy (text_eq_sym key x.key ∙ e) in
          shown ∙ rw e (rw (later, untouched, same_threshold, same_floor) refl)
    ]

-- What a monitor says of a key, over any samples, is what it says where only the samples of that
-- key arrive.
pub run-samples_of :
    (key : Text) (m : Monitor) (xs : List Sample)
    → notices_of key (run m xs) ≡ notices_of key (run m (samples_of key xs))
run-samples_of key m xs =
    let kept = λ (x : Sample). text_eq x.key key in
    run-by_cell key m xs
    ∙ ap (cell_run m.threshold m.min_down (cell_of m key)) (sym (filter-filter kept xs))
    ∙ sym (run-by_cell key m (samples_of key xs))

-- DOWN and UP in turn, DOWN first unless an alert is already out.
unfoldable pub alternates : Bool → List Notice → Bool
alternates b [] = true
alternates false (down ∷ ns) = alternates true ns
alternates true (up ∷ ns) = alternates false ns
alternates true (down ∷ ns) = false
alternates false (up ∷ ns) = false

cell_run-alternates :
    (threshold min_down : ℕ) (c : Cell) (xs : List Sample)
    → alternates c.alerted (cell_run threshold min_down c xs) ≡ true
unfolding alternates cell_run cell_step
cell_run-alternates threshold min_down c [] = ground arith
cell_run-alternates threshold min_down c (x ∷ xs) =
    let after = cell_step threshold min_down c x.at x.is_healthy in
    ground (arith, cell_run-alternates threshold min_down after.0 xs)

-- Over any samples, the notices of a key alternate: never two DOWN without an UP between them, and
-- no UP of a key that is not alerted.
pub run-alternates :
    (key : Text) (m : Monitor) (xs : List Sample)
    → alternates (m.alerted key) (notices_of key (run m xs)) ≡ true
unfolding cell_of
run-alternates key m xs =
    rw (run-by_cell key m xs)
      (cell_run-alternates m.threshold m.min_down (cell_of m key) (samples_of key xs))

-- The samples of one key that a watcher's probes are.
abbrev pub probes_of : Text → List (Instant × Bool) → List Sample
probes_of key = map (λ x. record { at = x.0; key = key; is_healthy = x.1 })

abbrev pub fresh_watcher : ℤ → Watcher
fresh_watcher threshold = record { threshold = threshold; consec_fails = 0; alerted = false }

all_of_key :
    (key : Text) (ps : List (Instant × Bool)) → samples_of key (probes_of key ps) ≡ probes_of key ps
all_of_key key [] = refl
all_of_key key (p ∷ ps) = rw (text_eq_refl key, all_of_key key ps) refl

-- A threshold below one is passed at the first failure, as a threshold of one is.
reaches_clamped :
    (threshold : ℤ) (n : ℕ) → reaches threshold (n + 1) ≡ leb (at_least_one threshold) (n + 1)
reaches_clamped (pos t) n = ground arith
reaches_clamped (negsuc t) n = ground arith

watch-cell :
    (threshold : ℤ) (key : Text) (fails : ℕ) (since : Option Instant) (alerted : Bool)
    (ps : List (Instant × Bool))
    → watch
        (record { threshold = threshold; consec_fails = fails; alerted = alerted })
        (map (λ p. p.1) ps)
      ≡ cell_run
          (at_least_one threshold)
          0
          (record { fails = fails; since = since; alerted = alerted })
          (probes_of key ps)
unfolding watch tick cell_run cell_step
watch-cell threshold key fails since alerted [] = refl
watch-cell threshold key fails since alerted ((at, true) ∷ ps) =
    rw (watch-cell threshold key 0 none false ps) refl
watch-cell threshold key fails since alerted ((at, false) ∷ ps) = ground (
  arith,
  reaches_clamped threshold fails,
  watch-cell threshold key (fails + 1) (some (since_or since at)) true ps,
  watch-cell threshold key (fails + 1) (some (since_or since at)) alerted ps,
)

-- A fresh watcher, whatever its threshold, sends the same notices in the same order as a fresh
-- monitor of that threshold without a floor does for one key, whenever the probes are made.
pub watch-is_run :
    (threshold : ℤ) (key : Text) (ps : List (Instant × Bool))
    → watch (fresh_watcher threshold) (map (λ p. p.1) ps)
      ≡ notices_of key (run (new_monitor threshold) (probes_of key ps))
unfolding new_monitor cell_of
watch-is_run threshold key ps =
    watch-cell threshold key 0 none false ps
    ∙ sym (
        run-by_cell key (new_monitor threshold) (probes_of key ps)
        ∙ ap
            (cell_run (at_least_one threshold) 0
              (record { fails = 0; since = none; alerted = false }))
            (all_of_key key ps))

abbrev pub AllUnhealthy : List Sample → Type 0
AllUnhealthy = All (λ x. x.is_healthy ≡ false)

alerted-quiet :
    (threshold min_down fails : ℕ) (since : Option Instant) (xs : List Sample)
    → AllUnhealthy xs
    → cell_run threshold min_down (record { fails = fails; since = since; alerted = true }) xs ≡ []
unfolding cell_run cell_step
alerted-quiet threshold min_down fails since [] h = refl
alerted-quiet threshold min_down fails since (x ∷ xs) (h, k) =
    ground (arith, alerted-quiet threshold min_down (fails + 1) (some (since_or since x.at)) xs k)

cell-alerts :
    (threshold fails : ℕ) (since : Option Instant) (xs : List Sample)
    → AllUnhealthy xs
    → fails < threshold
    → cell_run threshold 0 (record { fails = fails; since = since; alerted = false }) xs
      ≡ (if leb threshold (fails + length xs) then down ∷ [] else [])
unfolding cell_run cell_step
cell-alerts threshold fails since [] h k = ground arith
cell-alerts threshold fails since (x ∷ xs) (h, hs) k =
    elim (Bool-cases (leb threshold (fails + 1))) [
      | inl e ↦
          ground (arith, alerted-quiet threshold 0 (fails + 1) (some (since_or since x.at)) xs hs)
      | inr e ↦ ground (
        arith,
        cell-alerts threshold (fails + 1) (some (since_or since x.at)) xs hs (ground arith),
      )
    ]

clamped_positive : (threshold : ℤ) → 0 < at_least_one threshold
clamped_positive (pos n) = ground arith
clamped_positive (negsuc n) = ground arith

-- Where every sample of a key is unhealthy, whatever those of other keys, a fresh monitor without a
-- floor says DOWN exactly once if the key has at least as many samples as the threshold, and nothing
-- if it has fewer; a threshold below one counts as one.
pub run-AllUnhealthy :
    (threshold : ℤ) (key : Text) (xs : List Sample)
    → AllUnhealthy (samples_of key xs)
    → notices_of key (run (new_monitor threshold) xs)
      ≡ (if leb (at_least_one threshold) (length (samples_of key xs)) then down ∷ [] else [])
unfolding new_monitor cell_of
run-AllUnhealthy threshold key xs h =
    run-by_cell key (new_monitor threshold) xs
    ∙ ground (
      arith,
      cell-alerts (at_least_one threshold) 0 none (samples_of key xs) h
          (clamped_positive threshold),
    )
