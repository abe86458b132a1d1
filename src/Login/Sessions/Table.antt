-- ===== src/Login/Sessions/Table.antt =====
-- auth.go: the map of sessions under the operations, against a function from tokens to sessions.
use trust_panel.Prelude.{
  ◌≡◌, refl, ◌∙◌, ap, ◌+◌, Bool, Bool-cases, Option, none, some, [], ◌∷◌, length, if◌then◌else◌,
  inl, inr, Text, text_eq, text_eq_iff, text_eq_refl, arith,
}
use trust_panel.Login.Sessions.{Session, Table, lookup, delete, put, sweep}

-- No token stands twice.
abbrev pub IsDistinct : Table → Type 0
IsDistinct [] = Unit {0}
IsDistinct ((t, s) ∷ rest) = (lookup t rest ≡ none) × IsDistinct rest

abbrev pub keep_if : (Text × Session → Bool) → Text → Option Session → Option Session
keep_if kept token none = none
keep_if kept token (some s) = if kept (token, s) then some s else none

pub lookup-delete :
    (token t : Text) (table : Table)
    → lookup token (delete t table) ≡ (if text_eq token t then none else lookup token table)
unfolding lookup delete
lookup-delete token t [] = ground arith
lookup-delete token t ((u, s) ∷ rest) =
    let ih = lookup-delete token t rest in
    elim (Bool-cases (text_eq t u)) [
      | inl a ↦ ground (arith, a, ih, ap (text_eq token) ((text_eq_iff t u).0 a))
      | inr a ↦ elim (Bool-cases (text_eq token t)) [
        | inl b ↦ ground (arith, a, b, ih, ap (λ x. text_eq x u) ((text_eq_iff token t).0 b))
        | inr b ↦ ground (arith, a, b, ih)
      ]
    ]

pub lookup-put :
    (token t : Text) (s : Session) (table : Table)
    → lookup token (put t s table) ≡ (if text_eq token t then some s else lookup token table)
unfolding lookup put
lookup-put token t s table = ground (arith, lookup-delete token t table)

pub lookup-sweep :
    (kept : Text × Session → Bool) (token : Text) (table : Table)
    → IsDistinct table
    → lookup token (sweep kept table).0 ≡ keep_if kept token (lookup token table)
unfolding lookup sweep
lookup-sweep kept token [] d = refl
lookup-sweep kept token ((u, s) ∷ rest) (a, d) =
    let ih = lookup-sweep kept token rest d in
    elim (Bool-cases (text_eq token u)) [
      | inl b ↦
          let same = (text_eq_iff token u).0 b in
          let gone : lookup token rest ≡ none = ap (λ x. lookup x rest) same ∙ a in
          ground (arith, b, ih, gone, ap (λ x. kept (x, s)) same)
      | inr b ↦ ground (arith, b, ih)
    ]

pub sweep-count :
    (kept : Text × Session → Bool) (table : Table)
    → (sweep kept table).1 + length (sweep kept table).0 ≡ length table
unfolding sweep
sweep-count kept [] = refl
sweep-count kept (e ∷ table) = ground (arith, sweep-count kept table)

pub delete-IsDistinct : (t : Text) (table : Table) → IsDistinct table → IsDistinct (delete t table)
unfolding delete
delete-IsDistinct t [] d = tt
delete-IsDistinct t ((u, s) ∷ rest) (a, d) = elim (Bool-cases (text_eq t u)) [
  | inl b ↦ rw b (delete-IsDistinct t rest d)
  | inr b ↦ rw b (ground (arith, lookup-delete u t rest, a), delete-IsDistinct t rest d)
]

pub put-IsDistinct :
    (t : Text) (s : Session) (table : Table) → IsDistinct table → IsDistinct (put t s table)
unfolding put
put-IsDistinct t s table d =
    (rw (lookup-delete t t table, text_eq_refl t) refl, delete-IsDistinct t table d)

pub sweep-IsDistinct :
    (kept : Text × Session → Bool) (table : Table)
    → IsDistinct table
    → IsDistinct (sweep kept table).0
unfolding sweep
sweep-IsDistinct kept [] d = tt
sweep-IsDistinct kept ((u, s) ∷ rest) (a, d) = elim (Bool-cases (kept (u, s))) [
  | inl k ↦ rw k (lookup-sweep kept u rest d ∙ rw a refl, sweep-IsDistinct kept rest d)
  | inr k ↦ rw k (sweep-IsDistinct kept rest d)
]
