-- ===== src/Client/Varint.antt =====
-- clientcfg.go and deeplink.go: integers of variable length (RFC 9000, section 16).
use trust_panel.Prelude.{
  ℕ, ◌≡◌, ◌+◌, ◌*◌, ◌/◌, ◌%◌, ◌<◌, ◌==◌, ltb, Option, none, some, [], ◌∷◌, ◌++◌, if◌then◌else◌,
  Text, arith,
}

-- putVarint. A byte is a remainder by 256; where the two top bits are set, the bits below them are
-- clear (in the last form they are cut to six), so that `|` is a sum.
unfoldable pub put_varint : ℕ → Text
put_varint v =
    if ltb v 64
    then v ∷ []
    else if ltb v 16384
    then (64 + v / 256) ∷ ((v % 256) ∷ [])
    else if ltb v 1073741824
    then (128 + v / 16777216) ∷ ((v / 65536) % 256 ∷ ((v / 256) % 256 ∷ (v % 256 ∷ [])))
    else (192 + (v / 72057594037927936) % 64)
      ∷ ((v / 281474976710656) % 256
          ∷ ((v / 1099511627776) % 256
              ∷ ((v / 4294967296) % 256
                  ∷ ((v / 16777216) % 256
                      ∷ ((v / 65536) % 256 ∷ ((v / 256) % 256 ∷ (v % 256 ∷ [])))))))

-- `v<<8 | b`
abbrev pub shift_in : ℕ → ℕ → ℕ
shift_in v b = v * 256 + b

-- The bytes after the first, by the form that its two top bits name.
abbrev pub varint2 : ℕ → Text → Option (ℕ × Text)
varint2 v [] = none
varint2 v (b ∷ s) = some (shift_in v b, s)

abbrev pub varint4 : ℕ → Text → Option (ℕ × Text)
varint4 v (b ∷ (c ∷ (d ∷ s))) = some (shift_in (shift_in (shift_in v b) c) d, s)
varint4 v _ = none

abbrev pub varint8 : ℕ → Text → Option (ℕ × Text)
varint8 v (b ∷ (c ∷ (d ∷ (e ∷ (f ∷ (g ∷ (h ∷ s))))))) =
    some (
      shift_in (shift_in (shift_in (shift_in (shift_in (shift_in (shift_in v b) c) d) e) f) g) h,
      s,
    )
varint8 v _ = none

-- getVarint, on the bytes from the offset on: the value and the bytes after it; `none` is the error.
unfoldable pub get_varint : Text → Option (ℕ × Text)
get_varint [] = none
get_varint (f ∷ s) =
    if f / 64 == 0
    then some (f % 64, s)
    else if f / 64 == 1
    then varint2 (f % 64) s
    else if f / 64 == 2
    then varint4 (f % 64) s
    else varint8 (f % 64) s

-- The limit of the encoding, 2 ^ 62.
abbrev pub varint_limit : ℕ
varint_limit = 4611686018427387904

-- A value below 2 ^ 62 is read back as it was written, whatever follows it.
pub get-put_varint :
    (v : ℕ) (rest : Text) → v < varint_limit → get_varint (put_varint v ++ rest) ≡ some (v, rest)
unfolding get_varint put_varint
get-put_varint v rest h = ground arith
