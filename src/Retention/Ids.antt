-- ===== src/Retention/Ids.antt =====
-- Rows that are deleted by their ids.
use siem_sentinel_xv.Base.{
  ℕ, ◌==◌, ◌≡◌, refl, sym, ap, subst, Bool, true, false, not, List, [], ◌∷◌, keep, map, All,
  Bool-cases, inl, inr, arith,
}
use siem_sentinel_xv.Retention.{is_in}

-- No id twice.
abbrev pub IsDistinct : List ℕ → Type 0
IsDistinct [] = Unit
IsDistinct (i ∷ ids) = (is_in i ids ≡ false) × IsDistinct ids

module _ {ℓ} {A : Type ℓ} where
  pub keep-keep :
      (p q : A → Bool) (xs : List A)
      → All (λ x. p x ≡ true → q x ≡ true) xs
      → keep p (keep q xs) ≡ keep p xs
  keep-keep p q [] h = refl
  keep-keep p q (x ∷ xs) h = elim (Bool-cases (p x)) [
    | inl y ↦ rw (h.0 y, y) (ap (λ l. x ∷ l) (keep-keep p q xs h.1))
    | inr n ↦ elim (Bool-cases (q x)) [
      | inl y ↦ rw y (rw n (keep-keep p q xs h.1))
      | inr y ↦ rw (y, n) (keep-keep p q xs h.1)
    ]
  ]

  pub keep-ids :
      (id : A → ℕ) (p : A → Bool) (n : ℕ) (xs : List A)
      → is_in n (map id (keep p xs)) ≡ true
      → is_in n (map id xs) ≡ true
  keep-ids id p n [] h = h
  keep-ids id p n (x ∷ xs) h = elim (Bool-cases (p x)) [
    | inl y ↦ ground (arith, keep-ids id p n xs, rw y at h)
    | inr y ↦ ground (arith, keep-ids id p n xs, rw y at h)
  ]

  -- A row whose id is none of those that go stays.
  pub left-ids :
      (id : A → ℕ) (gone : List ℕ) (n : ℕ) (xs : List A)
      → is_in n (map id xs) ≡ true
      → is_in n gone ≡ false
      → is_in n (map id (keep (λ x. not (is_in (id x) gone)) xs)) ≡ true
  left-ids id gone n [] h g = h
  left-ids id gone n (x ∷ xs) h g = elim (Bool-cases (id x == n)) [
    | inl e ↦
        let same : id x ≡ n = ground (arith, e) in
        rw (subst (λ m. is_in m gone ≡ false) (sym same) g) (rw e refl)
    | inr e ↦
        let rest = left-ids id gone n xs (rw e at h) g in
        elim (Bool-cases (is_in (id x) gone)) [ inl y ↦ rw y rest | inr y ↦ rw y (rw e rest) ]
  ]

pub kept_All {ℓ κ} :
    {A : Type ℓ} (P : A → Type κ) (p : A → Bool) (xs : List A)
    → All (λ x. p x ≡ true → P x) xs
    → All P (keep p xs)
kept_All P p [] h = tt
kept_All P p (x ∷ xs) h = elim (Bool-cases (p x)) [
  | inl y ↦ rw y (h.0 y, kept_All P p xs h.1)
  | inr n ↦ rw n (kept_All P p xs h.1)
]

module _ {ℓ κ μ} {A : Type ℓ} {P : A → Type κ} {Q : A → Type μ} where
  pub All_map : ((x : A) → P x → Q x) → (xs : List A) → All P xs → All Q xs
  All_map f [] h = tt
  All_map f (x ∷ xs) h = (f x h.0, All_map f xs h.1)

pub every {ℓ κ} : {A : Type ℓ} {P : A → Type κ} → ((x : A) → P x) → (xs : List A) → All P xs
every f [] = tt
every f (x ∷ xs) = (f x, every f xs)

-- The id of each row that is kept is among the ids of those kept.
pub kept_listed {ℓ} :
    {A : Type ℓ} (id : A → ℕ) (p : A → Bool) (xs : List A)
    → All (λ x. p x ≡ true → is_in (id x) (map id (keep p xs)) ≡ true) xs
kept_listed id p [] = tt
kept_listed id p (x ∷ xs) = (
  λ h. rw h (ground arith),
  All_map
      (λ y later h. elim (Bool-cases (p x)) [
        | inl e ↦ rw e (ground (arith, later h))
        | inr e ↦ rw e (later h)
      ])
      xs (kept_listed id p xs),
)

pub not_in : (n m : ℕ) (ids : List ℕ) → is_in n ids ≡ true → is_in m ids ≡ false → (m == n) ≡ false
not_in n m ids h k = elim (Bool-cases (m == n)) [
  | inl e ↦
      let same : m ≡ n = ground (arith, e) in
      let other = subst (λ x. is_in x ids ≡ false) same k in cc
  | inr e ↦ e
]

pub not_kept {ℓ} :
    {A : Type ℓ} (id : A → ℕ) (p : A → Bool) (n : ℕ) (xs : List A)
    → is_in n (map id xs) ≡ false
    → is_in n (map id (keep p xs)) ≡ false
not_kept id p n xs h = elim (Bool-cases (is_in n (map id (keep p xs)))) [
  | inl y ↦ let there = keep-ids id p n xs y in cc
  | inr y ↦ y
]

pub listed {ℓ} :
    {A : Type ℓ} (id : A → ℕ) (xs : List A) → All (λ x. is_in (id x) (map id xs) ≡ true) xs
listed id [] = tt
listed id (x ∷ xs) = (ground arith, All_map (λ y h. ground (arith, h)) xs (listed id xs))

kept_just_tail {ℓ} :
    {A : Type ℓ} (id : A → ℕ) (p : A → Bool) (x : A) (xs : List A)
    → p x ≡ true
    → is_in (id x) (map id xs) ≡ false
    → (ys : List A) → All (λ y. is_in (id y) (map id xs) ≡ true) ys
    → All (λ y. is_in (id y) (map id (keep p xs)) ≡ p y) ys
    → All (λ y. is_in (id y) (map id (keep p (x ∷ xs))) ≡ p y) ys
kept_just_tail id p x xs e n [] h k = tt
kept_just_tail id p x xs e n (y ∷ ys) h k = (
  rw e (rw (not_in (id y) (id x) (map id xs) h.0 n) k.0),
  kept_just_tail id p x xs e n ys h.1 k.1,
)

-- Among rows without an id twice, the id of a row is among those kept just if the row is.
pub kept_just {ℓ} :
    {A : Type ℓ} (id : A → ℕ) (p : A → Bool) (xs : List A)
    → IsDistinct (map id xs)
    → All (λ x. is_in (id x) (map id (keep p xs)) ≡ p x) xs
kept_just id p [] d = tt
kept_just id p (x ∷ xs) d = elim (Bool-cases (p x)) [
  | inl e ↦ (
    rw e (ground arith),
    kept_just_tail id p x xs e d.0 xs (listed id xs) (kept_just id p xs d.1),
  )
  | inr e ↦ (rw e (not_kept id p (id x) xs d.0), All_map (λ y h. rw e h) xs (kept_just id p xs d.1))
]

pub keep_ext {ℓ} :
    {A : Type ℓ} (p q : A → Bool) (xs : List A) → All (λ x. p x ≡ q x) xs → keep p xs ≡ keep q xs
keep_ext p q [] h = refl
keep_ext p q (x ∷ xs) h = rw (h.0, keep_ext p q xs h.1) refl
