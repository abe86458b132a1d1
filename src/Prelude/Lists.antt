-- ===== src/Prelude/Lists.antt =====
-- Lists under Boolean tests, measured by native numbers.
use Prim.Native.Nat.{ℕ, suc, ◌+◌}
use mathlib.Core.Path.{◌≡◌, refl, sym, ◌∙◌}
use mathlib.Core.Bool.{Bool, true, false, ◌&&◌, ◌||◌}
use mathlib.Core.List.{List, [], ◌∷◌, ◌++◌, Memᴰ, Permᴰ}
use native.Mathlib.Omega.{arith}
use mathlib.Core.Logic.{inl, inr}
use trust_panel.Prelude.Tests.{if◌then◌else◌, Bool-cases}

-- A predicate on every item, by recursion: it computes to tuples.
abbrev pub All {ℓ κ} : {A : Type ℓ} → (A → Type κ) → List A → Type κ
All P [] = Unit
All P (x ∷ xs) = P x × All P xs

module _ {ℓ} {A : Type ℓ} where
  abbrev pub length : List A → ℕ
  length [] = 0
  length (x ∷ xs) = suc (length xs)

  abbrev pub any : (A → Bool) → List A → Bool
  any p [] = false
  any p (x ∷ xs) = p x || any p xs

  abbrev pub all : (A → Bool) → List A → Bool
  all p [] = true
  all p (x ∷ xs) = p x && all p xs

  abbrev pub filter : (A → Bool) → List A → List A
  filter p [] = []
  filter p (x ∷ xs) = let rest = filter p xs in if p x then x ∷ rest else rest

module _ {ℓ} {A : Type ℓ} where
  pub length-append : (xs ys : List A) → length (xs ++ ys) ≡ length xs + length ys
  length-append [] ys = omega arith
  length-append (x ∷ xs) ys = omega (arith, length-append xs ys)

  pub filter-append :
      (p : A → Bool) (xs ys : List A) → filter p (xs ++ ys) ≡ filter p xs ++ filter p ys
  filter-append p [] ys = refl
  filter-append p (x ∷ xs) ys = ground (arith, filter-append p xs ys)

  pub filter-filter : (p : A → Bool) (xs : List A) → filter p (filter p xs) ≡ filter p xs
  filter-filter p [] = refl
  filter-filter p (x ∷ xs) = ground (arith, filter-filter p xs)

  pub any-append : (p : A → Bool) (xs ys : List A) → any p (xs ++ ys) ≡ (any p xs || any p ys)
  any-append p [] ys = refl
  any-append p (x ∷ xs) ys = ground (arith, any-append p xs ys)

module _ {ℓ} {A : Type ℓ} where
  pub mem-perm : {a : A} {l m : List A} → Permᴰ l m → Memᴰ a m → Memᴰ a l
  mem-perm Permᴰ.nil h = h
  mem-perm (Permᴰ.cons e d) (Memᴰ.head h) = Memᴰ.head (h ∙ sym e)
  mem-perm (Permᴰ.cons e d) (Memᴰ.tail h) = Memᴰ.tail (mem-perm d h)
  mem-perm (Permᴰ.swap e f) (Memᴰ.head h) = Memᴰ.tail (Memᴰ.head (h ∙ sym f))
  mem-perm (Permᴰ.swap e f) (Memᴰ.tail (Memᴰ.head h)) = Memᴰ.head (h ∙ sym e)
  mem-perm (Permᴰ.swap e f) (Memᴰ.tail (Memᴰ.tail h)) = Memᴰ.tail (Memᴰ.tail h)
  mem-perm (Permᴰ.trans d d') h = mem-perm d (mem-perm d' h)

  mem_under :
      {a x : A} (p : A → Bool) (xs ys : List A)
      → p x ≡ true
      → (Memᴰ a ys → Memᴰ a xs × (p a ≡ true))
      → Memᴰ a (x ∷ ys)
      → Memᴰ a (x ∷ xs) × (p a ≡ true)
  mem_under p xs ys e rest (Memᴰ.head g) = (Memᴰ.head g, rw g e)
  mem_under p xs ys e rest (Memᴰ.tail g) = let (m, q) = rest g in (Memᴰ.tail m, q)

  pub mem-filter :
      {a : A} (p : A → Bool) (xs : List A) → Memᴰ a (filter p xs) → Memᴰ a xs × (p a ≡ true)
  mem-filter p [] h = elim h [ ]
  mem-filter p (x ∷ xs) h = elim (Bool-cases (p x)) [
    | inl e ↦ mem_under p xs (filter p xs) e (mem-filter p xs) (rw e at h)
    | inr e ↦ let (m, q) = mem-filter p xs (rw e at h) in (Memᴰ.tail m, q)
  ]

  pub mem_of_filter :
      {a : A} (p : A → Bool) (xs : List A) → Memᴰ a xs → p a ≡ true → Memᴰ a (filter p xs)
  mem_of_filter p [] m q = elim m [ ]
  mem_of_filter p (x ∷ xs) (Memᴰ.head g) q = rw (← g, q) (Memᴰ.head refl)
  mem_of_filter p (x ∷ xs) (Memᴰ.tail g) q = elim (Bool-cases (p x)) [
    | inl e ↦ rw e (Memᴰ.tail (mem_of_filter p xs g q))
    | inr e ↦ rw e (mem_of_filter p xs g q)
  ]

pub All-mem {ℓ κ} : {A : Type ℓ} (P : A → Type κ) (xs : List A) {a : A} → All P xs → Memᴰ a xs → P a
All-mem P [] h m = elim m [ ]
All-mem P (x ∷ xs) (h, hs) (Memᴰ.head e) = rw e h
All-mem P (x ∷ xs) (h, hs) (Memᴰ.tail m) = All-mem P xs hs m

module _ {ℓ κ} {A : Type ℓ} (P : A → Type κ) where
  pub All-append : (xs ys : List A) → All P xs → All P ys → All P (xs ++ ys)
  All-append [] ys a b = b
  All-append (x ∷ xs) ys (h, a) b = (h, All-append xs ys a b)

  pub All-filter : (p : A → Bool) (xs : List A) → All P xs → All P (filter p xs)
  All-filter p [] a = tt
  All-filter p (x ∷ xs) (h, a) = elim (Bool-cases (p x)) [
    | inl e ↦ rw e (h, All-filter p xs a)
    | inr e ↦ rw e (All-filter p xs a)
  ]
