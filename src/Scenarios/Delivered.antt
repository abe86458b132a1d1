-- ===== src/Scenarios/Delivered.antt =====
-- The theorem on the parts of an archive, at a short one.
use trust_panel.Prelude.{◌≡◌, refl, ◌<◌, some, List, [], ◌∷◌, Text, codes, length}
use trust_panel.Prelude.Int.{pos}
use trust_panel.Backup.{longest, split_bytes, split_loop, take, drop, IsSplit, split_bytes-IsSplit}

split_bytes-IsSplit_example :
    (parts : List Text) × (split_bytes (codes "abcde") (pos 2) ≡ some parts)
    × IsSplit (longest (pos 2)) (codes "abcde") parts
    × (0 < length parts)
split_bytes-IsSplit_example = split_bytes-IsSplit (codes "abcde") (pos 2)

three_parts :
    split_bytes (codes "abcde") (pos 2) ≡ some (codes "ab" ∷ (codes "cd" ∷ (codes "e" ∷ [])))
unfolding split_bytes split_loop take drop
three_parts = refl
