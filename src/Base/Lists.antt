-- ===== src/Base/Lists.antt =====
-- Lists over the native numbers: length, membership tests, predicates by recursion.
use Prim.Native.Nat.{ℕ, zero, suc, ◌+◌, ◌-◌, ◌≤◌}
use Prim.Native.String.{String}
use mathlib.Core.Path.{◌≡◌, refl, ap, subst}
use mathlib.Core.Logic.{◌⊎◌, inl, inr}
use mathlib.Core.Bool.{Bool, true, false, ◌&&◌, ◌||◌}
use mathlib.Core.Option.{Option, none, some}
use mathlib.Core.List.{List, [], ◌∷◌, ◌++◌, map}
use native.Mathlib.Omega.{arith}
use siem_sentinel_xv.Base.Tests.{◌=ₛ◌, if◌then◌else◌, Bool-cases, some_inj}

module _ {ℓ} {A : Type ℓ} where
  abbrev pub length : List A → ℕ
  length [] = 0
  length (x ∷ xs) = suc (length xs)

  -- `[x for x in xs if p(x)]`
  abbrev pub keep : (A → Bool) → List A → List A
  keep p [] = []
  keep p (x ∷ xs) = let rest = keep p xs in if p x then x ∷ rest else rest

  abbrev pub any : (A → Bool) → List A → Bool
  any p [] = false
  any p (x ∷ xs) = p x || any p xs

  abbrev pub all : (A → Bool) → List A → Bool
  all p [] = true
  all p (x ∷ xs) = p x && all p xs

  abbrev pub drop : ℕ → List A → List A
  drop zero xs = xs
  drop (suc n) [] = []
  drop (suc n) (x ∷ xs) = drop n xs

  abbrev pub All {κ} : (A → Type κ) → List A → Type κ
  All P [] = Unit
  All P (x ∷ xs) = P x × All P xs

  -- q.filter(p).first()
  abbrev pub find_first : (A → Bool) → List A → Option A
  find_first p [] = none
  find_first p (x ∷ xs) = let rest = find_first p xs in if p x then some x else rest

  -- The first row that meets `p` is changed.
  abbrev pub update_first : (A → Bool) → (A → A) → List A → List A
  update_first p f [] = []
  update_first p f (x ∷ xs) = let rest = update_first p f xs in if p x then f x ∷ xs else x ∷ rest

  -- The first row that meets `p` is deleted.
  abbrev pub remove_first : (A → Bool) → List A → List A
  remove_first p [] = []
  remove_first p (x ∷ xs) = let rest = remove_first p xs in if p x then xs else x ∷ rest

  abbrev pub take : ℕ → List A → List A
  take zero xs = []
  take (suc n) [] = []
  take (suc n) (x ∷ xs) = x ∷ take n xs

  pub length-append : (xs ys : List A) → length (xs ++ ys) ≡ length xs + length ys
  length-append [] ys = omega arith
  length-append (x ∷ xs) ys = omega (arith, length-append xs ys)

  pub length-drop : (n : ℕ) (xs : List A) → length (drop n xs) ≡ length xs - n
  length-drop zero xs = omega arith
  length-drop (suc n) [] = omega arith
  length-drop (suc n) (x ∷ xs) = omega (arith, length-drop n xs)

-- One of the list is the value.
abbrev pub Member {ℓ} : {A : Type ℓ} → A → List A → Type ℓ
Member x [] = Unit {ℓ} → ⊥
Member x (y ∷ ys) = (y ≡ x) ⊎ Member x ys

module _ {ℓ} {A : Type ℓ} where
  pub Member-append_right : (x : A) (xs ys : List A) → Member x ys → Member x (xs ++ ys)
  Member-append_right x [] ys m = m
  Member-append_right x (z ∷ xs) ys m = inr (Member-append_right x xs ys m)

  pub Member-keep :
      (p : A → Bool) (x : A) (xs : List A) → p x ≡ true → Member x xs → Member x (keep p xs)
  Member-keep p x [] h m = m
  Member-keep p x (y ∷ ys) h (inl e) = rw e (rw h (inl refl))
  Member-keep p x (y ∷ ys) h (inr m) = elim (Bool-cases (p y)) [
    | inl t ↦ rw t (inr (Member-keep p x ys h m))
    | inr f ↦ rw f (Member-keep p x ys h m)
  ]

  pub Member-map {κ} :
      {B : Type κ} (f : A → B) (x : A) (xs : List A) → Member x xs → Member (f x) (map f xs)
  Member-map f x [] m = λ t. m tt
  Member-map f x (y ∷ ys) (inl e) = inl (ap f e)
  Member-map f x (y ∷ ys) (inr m) = inr (Member-map f x ys m)

  pub find_first_found :
      (p : A → Bool) (xs : List A) (x : A) → find_first p xs ≡ some x → (p x ≡ true) × Member x xs
  find_first_found p [] x h = cc
  find_first_found p (y ∷ ys) x h = elim (Bool-cases (p y)) [
    | inl e ↦ let same = some_inj (rw e at h) in (subst (λ z. p z ≡ true) same e, inl same)
    | inr e ↦ let rest = find_first_found p ys x (rw e at h) in (rest.0, inr rest.1)
  ]

  pub length-keep : (p : A → Bool) (xs : List A) → length (keep p xs) ≤ length xs
  length-keep p [] = omega arith
  length-keep p (x ∷ xs) = ground (arith, length-keep p xs)

  pub keep-append : (p : A → Bool) (xs ys : List A) → keep p (xs ++ ys) ≡ keep p xs ++ keep p ys
  keep-append p [] ys = refl
  keep-append p (x ∷ xs) ys = ground (arith, keep-append p xs ys)

  pub All-append {κ} : (P : A → Type κ) (xs ys : List A) → All P xs → All P ys → All P (xs ++ ys)
  All-append P [] ys hx hy = hy
  All-append P (x ∷ xs) ys hx hy = (hx.0, All-append P xs ys hx.1 hy)

  pub All-keep : (p : A → Bool) (xs : List A) → All (λ x. p x ≡ true) (keep p xs)
  All-keep p [] = tt
  All-keep p (x ∷ xs) = ground (arith, All-keep p xs)

  pub length-map {κ} : {B : Type κ} (f : A → B) (xs : List A) → length (map f xs) ≡ length xs
  length-map f [] = refl
  length-map f (x ∷ xs) = ap suc (length-map f xs)

-- `s in xs` for texts
abbrev pub mem : String → List String → Bool
mem s [] = false
mem s (x ∷ xs) = x =ₛ s || mem s xs
