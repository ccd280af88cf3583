-- ===== src/Base/Table/Laws.antt =====
-- Laws of the table operations.
use frimo_messenger.Base.Tests.{Bool-cases, if◌then◌else◌}
use frimo_messenger.Base.Table.{find, count, update, exists, All}
use Prim.Native.Nat.{suc, ◌≤◌, ◌<◌}
use mathlib.Core.Path.{◌≡◌, refl, subst}
use mathlib.Core.Logic.{inl, inr}
use mathlib.Core.Bool.{Bool, true, false, ◌&&◌}
use mathlib.Core.Option.{none, some}
use mathlib.Core.List.{List, [], ◌∷◌}
use native.Mathlib.Omega.{arith}

module _ {ℓ} {A : Type ℓ} where
  -- What `find` returns passes the test.
  pub find_sound : (p : A → Bool) (xs : List A) (a : A) → find p xs ≡ some a → p a ≡ true
  unfolding find
  find_sound p [] a h = cc
  find_sound p (x ∷ xs) a h = ground (arith, find_sound p xs a)

  -- What one test finds, another that it passes does not miss.
  pub find_also :
      (p q : A → Bool) (xs : List A) (a : A)
      → find p xs ≡ some a
      → q a ≡ true
      → (b : A) × (find q xs ≡ some b)
  unfolding find
  find_also p q [] a h pass = cc
  find_also p q (x ∷ xs) a h pass = elim (Bool-cases (q x)) [
    | inl e ↦ (x, rw e refl)
    | inr e ↦ elim (Bool-cases (p x)) [
      | inl hit ↦ cc
      | inr miss ↦ rw e (find_also p q xs a (ground arith) pass)
    ]
  ]

  pub find-exists : (p : A → Bool) (xs : List A) → exists p xs ≡ false → find p xs ≡ none
  unfolding find exists
  find-exists p [] h = refl
  find-exists p (x ∷ xs) h = ground (arith, find-exists p xs)

  pub exists-find : (p : A → Bool) (xs : List A) → find p xs ≡ none → exists p xs ≡ false
  unfolding find exists
  exists-find p [] h = refl
  exists-find p (x ∷ xs) h = ground (arith, exists-find p xs)

  -- No row passes, so no row is counted, and an update changes nothing.
  pub count-zero : (p : A → Bool) (xs : List A) → exists p xs ≡ false → count p xs ≡ 0
  unfolding count exists
  count-zero p [] h = refl
  count-zero p (x ∷ xs) h = ground (arith, count-zero p xs)

  pub update-none :
      (p : A → Bool) (f : A → A) (xs : List A) → exists p xs ≡ false → update p f xs ≡ xs
  unfolding update exists
  update-none p f [] h = refl
  update-none p f (x ∷ xs) h = ground (arith, update-none p f xs)

  -- A search by a key that the update does not write sees the updated row.
  pub find-update :
      (q p : A → Bool) (f : A → A) (xs : List A)
      → ((a : A) → q (f a) ≡ q a)
      → (a : A) → find q xs ≡ some a
      → find q (update p f xs) ≡ some (if p a then f a else a)
  unfolding find update
  find-update q p f [] keep a h = cc
  find-update q p f (x ∷ xs) keep a h = ground (arith, keep x, find-update q p f xs keep a)

  pub find-update-none :
      (q p : A → Bool) (f : A → A) (xs : List A)
      → ((a : A) → q (f a) ≡ q a)
      → find q xs ≡ none
      → find q (update p f xs) ≡ none
  unfolding find update
  find-update-none q p f [] keep h = refl
  find-update-none q p f (x ∷ xs) keep h = ground (arith, keep x, find-update-none q p f xs keep)

  pub count-update_same :
      (q p : A → Bool) (f : A → A) (xs : List A)
      → ((a : A) → q (f a) ≡ q a)
      → count q (update p f xs) ≡ count q xs
  unfolding count update
  count-update_same q p f [] keep = refl
  count-update_same q p f (x ∷ xs) keep = ground (arith, keep x, count-update_same q p f xs keep)

  pub All-update {κ} :
      {P : A → Type κ} (p : A → Bool) (f : A → A) (xs : List A)
      → ((a : A) → p a ≡ true → P a → P (f a))
      → All P xs
      → All P (update p f xs)
  unfolding update
  All-update p f [] step all = tt
  All-update {P} p f (x ∷ xs) step all = (one (p x) refl, All-update p f xs step all.1)
    where
      one : (b : Bool) → p x ≡ b → P (if b then f x else x)
      one true e = step x e all.0
      one false e = all.0

  pub All-find {κ} :
      (P : A → Type κ) (p : A → Bool) (xs : List A) (a : A) → All P xs → find p xs ≡ some a → P a
  unfolding find
  All-find P p [] a all h = cc
  All-find P p (x ∷ xs) a all h = elim (Bool-cases (p x)) [
    | inl hit ↦ subst P (ground arith) all.0
    | inr miss ↦ All-find P p xs a all.1 (ground arith)
  ]

  pub find-cons_miss :
      (p : A → Bool) (x : A) (xs : List A) → p x ≡ false → find p (x ∷ xs) ≡ find p xs
  unfolding find
  find-cons_miss p x xs h = ground arith

  pub find-cons_hit : (p : A → Bool) (x : A) (xs : List A) → p x ≡ true → find p (x ∷ xs) ≡ some x
  unfolding find
  find-cons_hit p x xs h = ground arith

  pub exists-update_same :
      (q p : A → Bool) (f : A → A) (xs : List A)
      → ((a : A) → q (f a) ≡ q a)
      → exists q (update p f xs) ≡ exists q xs
  unfolding exists update
  exists-update_same q p f [] keep = refl
  exists-update_same q p f (x ∷ xs) keep = ground (arith, keep x, exists-update_same q p f xs keep)

  -- An update after which no updated row passes `q` counts no more rows, and one less for each
  -- row that passed before.
  pub count-update_le :
      (q p : A → Bool) (f : A → A) (xs : List A)
      → ((a : A) → q (f a) ≡ false)
      → count q (update p f xs) ≤ count q xs
  unfolding count update
  count-update_le q p f [] drop = omega arith
  count-update_le q p f (x ∷ xs) drop = ground (arith, drop x, count-update_le q p f xs drop)

  pub count-update_lt :
      (q p h : A → Bool) (f : A → A) (xs : List A) (a : A)
      → ((b : A) → q (f b) ≡ false)
      → find h xs ≡ some a
      → p a ≡ true
      → q a ≡ true
      → count q (update p f xs) < count q xs
  unfolding count update find
  count-update_lt q p h f [] a drop found hp hq = cc
  count-update_lt q p h f (x ∷ xs) a drop found hp hq =
      ground (arith, drop x, count-update_le q p f xs drop, count-update_lt q p h f xs a drop)

  pub exists-of_find :
      (p : A → Bool) (xs : List A) (a : A) → find p xs ≡ some a → exists p xs ≡ true
  unfolding find exists
  exists-of_find p [] a h = cc
  exists-of_find p (x ∷ xs) a h = ground (arith, exists-of_find p xs a)

  -- A stricter search finds the same row, if that row passes it.
  pub find-and :
      (p q : A → Bool) (xs : List A) (a : A)
      → find p xs ≡ some a
      → q a ≡ true
      → find (λ x. p x && q x) xs ≡ some a
  unfolding find
  find-and p q [] a h k = cc
  find-and p q (x ∷ xs) a h k = ground (arith, find-and p q xs a)

  pub count-cons_hit :
      (p : A → Bool) (x : A) (xs : List A) → p x ≡ true → count p (x ∷ xs) ≡ suc (count p xs)
  unfolding count
  count-cons_hit p x xs h = ground arith

-- A property of the elements, one at a time.
pub All-map {ℓ κ μ} :
    {A : Type ℓ} (P : A → Type κ) (Q : A → Type μ) (xs : List A)
    → ((a : A) → P a → Q a)
    → All P xs
    → All Q xs
All-map P Q [] f all = tt
All-map P Q (x ∷ xs) f all = (f x all.0, All-map P Q xs f all.1)

pub All-not_exists {ℓ} :
    {A : Type ℓ} (p : A → Bool) (xs : List A) → exists p xs ≡ false → All (λ a. p a ≡ false) xs
unfolding exists
All-not_exists p [] h = tt
All-not_exists p (x ∷ xs) h = (ground arith, All-not_exists p xs (ground arith))

module _ {ℓ} {A : Type ℓ} where
  pub exists-of_count_zero : (p : A → Bool) (xs : List A) → count p xs ≡ 0 → exists p xs ≡ false
  unfolding count exists
  exists-of_count_zero p [] h = refl
  exists-of_count_zero p (x ∷ xs) h = ground (arith, exists-of_count_zero p xs)

  -- Two tests that agree on every row count and update the same rows.
  pub count-congr :
      (p q : A → Bool) (xs : List A) → All (λ a. p a ≡ q a) xs → count p xs ≡ count q xs
  unfolding count
  count-congr p q [] all = refl
  count-congr p q (x ∷ xs) all = ground (arith, all.0, count-congr p q xs all.1)

  pub update-congr :
      (p q : A → Bool) (f : A → A) (xs : List A)
      → All (λ a. p a ≡ q a) xs
      → update p f xs ≡ update q f xs
  unfolding update
  update-congr p q f [] all = refl
  update-congr p q f (x ∷ xs) all = ground (arith, all.0, update-congr p q f xs all.1)

  -- A test that implies another, and counts as many rows, is implied by it.
  pub count_mono :
      (p q : A → Bool) (xs : List A) → ((a : A) → p a ≡ true → q a ≡ true) → count p xs ≤ count q xs
  unfolding count
  count_mono p q [] h = omega arith
  count_mono p q (x ∷ xs) h = ground (arith, h x, count_mono p q xs h)

  pub count_eq_implies :
      (p q : A → Bool) (xs : List A)
      → ((a : A) → p a ≡ true → q a ≡ true)
      → count p xs ≡ count q xs
      → All (λ a. q a ≡ true → p a ≡ true) xs
  unfolding count
  count_eq_implies p q [] h e = tt
  count_eq_implies p q (x ∷ xs) h e = (
    λ t. ground (arith, h x, count_mono p q xs h),
    count_eq_implies p q xs h (ground (arith, h x, count_mono p q xs h)),
  )
