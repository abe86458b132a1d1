-- ===== src/Backup.antt =====
-- internal/core/backup/deliver.go: an archive in parts that a chat can carry.
use trust_panel.Prelude.{
  ℕ, zero, suc, ◌≡◌, refl, sym, ◌∙◌, ap, ◌==◌, ◌*◌, ◌^◌, if◌then◌else◌, ◌<◌, ◌≤◌, Option, none,
  some, List, [], ◌∷◌, ◌++◌, All, length, Text, arith,
}
use trust_panel.Prelude.Int.{ℤ, pos, negsuc}

-- DefaultChunkBytes, 45 << 20
abbrev pub default_chunk_bytes : ℕ
default_chunk_bytes = 47185920

-- `b[:n]` and `b[n:]`, with `n` cut to the length.
unfoldable pub take : ℕ → Text → Text
take zero b = []
take (suc n) [] = []
take (suc n) (c ∷ b) = c ∷ take n b

unfoldable pub drop : ℕ → Text → Text
drop zero b = b
drop (suc n) [] = []
drop (suc n) (c ∷ b) = drop n b

-- `size <= 0` stands for the default; no size is 0.
abbrev pub chunk_size : ℤ → ℕ
chunk_size (pos zero) = default_chunk_bytes
chunk_size (pos (suc n)) = suc n
chunk_size (negsuc _) = default_chunk_bytes

abbrev pub then_part : Text → Option (List Text) → Option (List Text)
then_part part none = none
then_part part (some parts) = some (part ∷ parts)

-- The loop of splitBytes on the bytes from `off` on; `none` is a loop that is not done.
unfoldable pub split_loop : ℕ → ℕ → Text → Option (List Text)
split_loop fuel size [] = some []
split_loop zero size (c ∷ b) = none
split_loop (suc fuel) size (c ∷ b) =
    then_part (take size (c ∷ b)) (split_loop fuel size (drop size (c ∷ b)))

-- splitBytes; each turn uses up a byte at least.
unfoldable pub split_bytes : Text → ℤ → Option (List Text)
split_bytes [] size = some ([] ∷ [])
split_bytes (c ∷ b) size = split_loop (length (c ∷ b)) (chunk_size size) (c ∷ b)

abbrev pub joined : List Text → Text
joined [] = []
joined (part ∷ parts) = part ++ joined parts

take-drop : (n : ℕ) (b : Text) → take n b ++ drop n b ≡ b
unfolding take drop
take-drop zero b = refl
take-drop (suc n) [] = refl
take-drop (suc n) (c ∷ b) = ap (λ (r : Text). c ∷ r) (take-drop n b)

length-take : (n : ℕ) (b : Text) → length (take n b) ≤ n
unfolding take
length-take zero b = omega arith
length-take (suc n) [] = omega arith
length-take (suc n) (c ∷ b) = omega (arith, length-take n b)

length-drop : (n : ℕ) (b : Text) → length (drop n b) ≤ length b
unfolding drop
length-drop zero b = omega arith
length-drop (suc n) [] = omega arith
length-drop (suc n) (c ∷ b) = omega (arith, length-drop n b)

-- The parts of a text: in order they are the text, and none is longer than the size.
pub record IsSplit (size : ℕ) (b : Text) (parts : List Text) : Type 0 where
  pub whole : joined parts ≡ b
  pub short : All (λ part. length part ≤ size) parts

split_loop-IsSplit :
    (fuel n : ℕ) (b : Text)
    → length b ≤ fuel
    → (parts : List Text) × (split_loop fuel (suc n) b ≡ some parts) × IsSplit (suc n) b parts
unfolding split_loop drop
split_loop-IsSplit fuel n [] h = ([], refl, record { whole = refl; short = tt })
split_loop-IsSplit zero n (c ∷ b) h = absurd (omega (arith, h))
split_loop-IsSplit (suc fuel) n (c ∷ b) h =
    let (parts, e, s) = split_loop-IsSplit fuel n (drop n b) (omega (arith, h, length-drop n b)) in
    (
      take (suc n) (c ∷ b) ∷ parts,
      ap (then_part (take (suc n) (c ∷ b))) e,
      record {
        whole = ap (λ r. take (suc n) (c ∷ b) ++ r) s.whole ∙ take-drop (suc n) (c ∷ b);
        short = (length-take (suc n) (c ∷ b), s.short);
      },
    )

chunk_size_positive : (size : ℤ) → 0 < chunk_size size
chunk_size_positive (pos zero) = omega arith
chunk_size_positive (pos (suc n)) = omega arith
chunk_size_positive (negsuc n) = omega arith

split_loop-whole :
    (size : ℕ) (b : Text)
    → 0 < size
    → (parts : List Text) × (split_loop (length b) size b ≡ some parts) × IsSplit size b parts
split_loop-whole zero b h = absurd (omega (arith, h))
split_loop-whole (suc n) b h = split_loop-IsSplit (length b) n b (omega arith)

not_empty : (b : Text) (parts : List Text) → 0 < length b → joined parts ≡ b → 0 < length parts
not_empty b [] h e = absurd (omega (arith, h, ap length e))
not_empty b (part ∷ parts) h e = omega arith

-- How long a part may be, for the size that is asked for: 45 MiB where it is not positive.
abbrev pub longest : ℤ → ℕ
longest (pos n) = if n == 0 then 45 * 2 ^ 20 else n
longest (negsuc n) = 45 * 2 ^ 20

chunk_size-longest : (size : ℤ) → chunk_size size ≡ longest size
chunk_size-longest (pos zero) = refl
chunk_size-longest (pos (suc n)) = ground arith
chunk_size-longest (negsuc n) = refl

-- Whatever the archive and the size, the loop ends, the parts in order are the archive, there is one
-- at least, and none is longer than the size, or the default where the size is not positive.
pub split_bytes-IsSplit :
    (b : Text) (size : ℤ)
    → (parts : List Text) × (split_bytes b size ≡ some parts)
      × IsSplit (longest size) b parts
      × (0 < length parts)
unfolding split_bytes
split_bytes-IsSplit [] size =
    ([] ∷ [], refl, record { whole = refl; short = (omega arith, tt) }, omega arith)
split_bytes-IsSplit (c ∷ b) size =
    let (parts, e, s) = split_loop-whole (chunk_size size) (c ∷ b) (chunk_size_positive size) in
    (parts, e, rw (sym (chunk_size-longest size)) s, not_empty (c ∷ b) parts (omega arith) s.whole)
