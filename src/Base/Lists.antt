-- ===== src/Base/Lists.antt =====
-- Lists: Boolean searches that run, the predicates that they decide, and the filter of a test.
use Prim.Native.Nat.{ℕ, suc}
use mathlib.Core.Path.{◌≡◌, refl, sym, subst, ap, ◌∙◌}
use mathlib.Core.Logic.{◌⊎◌, inl, inr}
use mathlib.Core.Bool.{Bool, true, false, ◌||◌}
use mathlib.Core.List.{List, [], ◌∷◌}
use native.Mathlib.Omega.{arith}
use ocis_mcp_server.Base.Tests.{if◌then◌else◌, Bool-cases}

module _ {ℓ} {A : Type ℓ} where
  abbrev pub length : List A → ℕ
  length [] = 0
  length (x ∷ xs) = suc (length xs)

  -- a loop that returns true at the first element that passes
  unfoldable pub any : (A → Bool) → List A → Bool
  any p [] = false
  any p (x ∷ xs) = p x || any p xs

  -- a loop that appends the elements that pass
  unfoldable pub keep : (A → Bool) → List A → List A
  keep p [] = []
  keep p (x ∷ xs) = let rest = keep p xs in if p x then x ∷ rest else rest

module _ {ℓ} {A : Type ℓ} (P : A → Type 0) where
  abbrev pub All : List A → Type 0
  All [] = Unit
  All (x ∷ xs) = P x × All xs

  abbrev pub Some : List A → Type 0
  Some [] = ⊥
  Some (x ∷ xs) = P x ⊎ Some xs

-- `a` is one of the elements
abbrev pub In : {A : Type 0} → A → List A → Type 0
In a xs = Some (λ x. x ≡ a) xs

module _ {ℓ} {A : Type ℓ} {P Q : A → Type 0} (f : (a : A) → P a → Q a) where
  pub Some-map : (xs : List A) → Some P xs → Some Q xs
  Some-map [] h = absurd h
  Some-map (x ∷ xs) (inl p) = inl (f x p)
  Some-map (x ∷ xs) (inr h) = inr (Some-map xs h)

  pub All-map : (xs : List A) → All P xs → All Q xs
  All-map [] h = tt
  All-map (x ∷ xs) (p, h) = (f x p, All-map xs h)

-- What holds of every element and what holds of some element hold together of one.
pub All-Some {ℓ} :
    {A : Type ℓ} (P Q : A → Type 0) (xs : List A) → All P xs → Some Q xs → Some (λ a. P a × Q a) xs
All-Some P Q [] h s = absurd s
All-Some P Q (x ∷ xs) (p, h) (inl q) = inl (p, q)
All-Some P Q (x ∷ xs) (p, h) (inr s) = inr (All-Some P Q xs h s)

-- An element that some search finds, named.
pub Some-element : {A : Type 0} (P : A → Type 0) (xs : List A) → Some P xs → (a : A) × In a xs × P a
Some-element P [] h = absurd h
Some-element P (x ∷ xs) (inl p) = (x, inl refl, p)
Some-element P (x ∷ xs) (inr h) = let (a, i, p) = Some-element P xs h in (a, inr i, p)

pub In-Some : {A : Type 0} (P : A → Type 0) (xs : List A) (a : A) → In a xs → P a → Some P xs
In-Some P [] a h p = absurd h
In-Some P (x ∷ xs) a (inl e) p = inl (subst P (sym e) p)
In-Some P (x ∷ xs) a (inr h) p = inr (In-Some P xs a h p)

pub All_at : {A : Type 0} (P : A → Type 0) (xs : List A) (a : A) → All P xs → In a xs → P a
All_at P [] a h i = absurd i
All_at P (x ∷ xs) a (p, h) (inl e) = subst P e p
All_at P (x ∷ xs) a (p, h) (inr i) = All_at P xs a h i

module _ {ℓ} {A : Type ℓ} (p : A → Bool) where
  pub any_sound : (xs : List A) → any p xs ≡ true → Some (λ x. p x ≡ true) xs
  unfolding any
  any_sound [] h = cc
  any_sound (x ∷ xs) h = elim (Bool-cases (p x)) [
    | inl e ↦ inl e
    | inr e ↦ inr (any_sound xs (ground arith))
  ]

  pub any_complete : (xs : List A) → Some (λ x. p x ≡ true) xs → any p xs ≡ true
  unfolding any
  any_complete [] h = absurd h
  any_complete (x ∷ xs) (inl e) = rw e
  any_complete (x ∷ xs) (inr h) = ground (arith, any_complete xs h)

  pub keep-All : (P : A → Type 0) (xs : List A) → All P xs → All P (keep p xs)
  unfolding keep
  keep-All P [] h = tt
  keep-All P (x ∷ xs) (q, h) = elim (Bool-cases (p x)) [
    | inl e ↦ rw e (q, keep-All P xs h)
    | inr e ↦ rw e (keep-All P xs h)
  ]

module _ {A : Type 0} (p : A → Bool) (a : A) where
  pub In-keep : (xs : List A) → In a xs → p a ≡ true → In a (keep p xs)
  unfolding keep
  In-keep [] i h = i
  In-keep (x ∷ xs) (inl e) h = rw (ap p e ∙ h) (inl e)
  In-keep (x ∷ xs) (inr i) h = elim (Bool-cases (p x)) [
    | inl e ↦ rw e (inr (In-keep xs i h))
    | inr e ↦ rw e (In-keep xs i h)
  ]

  at_head :
      (x : A) (xs ys : List A)
      → p x ≡ true
      → (In a ys → In a xs × (p a ≡ true))
      → In a (x ∷ ys)
      → In a (x ∷ xs) × (p a ≡ true)
  at_head x xs ys e later (inl q) = (inl q, ap p (sym q) ∙ e)
  at_head x xs ys e later (inr j) = let (k, h) = later j in (inr k, h)

  pub keep-In : (xs : List A) → In a (keep p xs) → In a xs × (p a ≡ true)
  unfolding keep
  keep-In [] i = absurd i
  keep-In (x ∷ xs) i = elim (Bool-cases (p x)) [
    | inl e ↦ at_head x xs (keep p xs) e (keep-In xs) (rw e at i)
    | inr e ↦ let (k, h) = keep-In xs (rw e at i) in (inr k, h)
  ]
