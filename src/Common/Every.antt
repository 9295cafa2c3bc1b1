-- ===== src/Common/Every.antt =====
-- What holds of all elements of a list, and of every two.
use mathlib.Core.List.{List, [], ◌∷◌, ◌++◌}

-- `P` holds of every element.
abbrev pub All {ℓ κ} : {A : Type ℓ} → (A → Type κ) → List A → Type κ
All P [] = Unit
All P (x ∷ xs) = P x × All P xs

module _ {ℓ κ} {A : Type ℓ} (P : A → Type κ) where
  pub All-all : ((x : A) → P x) → (xs : List A) → All P xs
  All-all f [] = tt
  All-all f (x ∷ xs) = (f x, All-all f xs)

  pub All-append : (xs ys : List A) → All P xs → All P ys → All P (xs ++ ys)
  All-append [] ys p q = q
  All-append (x ∷ xs) ys p q = (p.0, All-append xs ys p.1 q)

  pub All-append_left : (xs ys : List A) → All P (xs ++ ys) → All P xs
  All-append_left [] ys p = tt
  All-append_left (x ∷ xs) ys p = (p.0, All-append_left xs ys p.1)

  pub All-append_right : (xs ys : List A) → All P (xs ++ ys) → All P ys
  All-append_right [] ys p = p
  All-append_right (x ∷ xs) ys p = All-append_right xs ys p.1

module _ {ℓ κ μ} {A : Type ℓ} (P : A → Type κ) (Q : A → Type μ) where
  pub All-mono : (xs : List A) → ((x : A) → P x → Q x) → All P xs → All Q xs
  All-mono [] f p = tt
  All-mono (x ∷ xs) f p = (f x p.0, All-mono xs f p.1)

module _ {ℓ κ} {A : Type ℓ} (P : A → Type κ) where
  pub All-insert : (xs ys : List A) (a : A) → P a → All P (xs ++ ys) → All P (xs ++ a ∷ ys)
  All-insert [] ys a p ps = (p, ps)
  All-insert (x ∷ xs) ys a p ps = (ps.0, All-insert xs ys a p ps.1)

  pub All-remove : (xs ys : List A) (a : A) → All P (xs ++ a ∷ ys) → All P (xs ++ ys)
  All-remove [] ys a ps = ps.1
  All-remove (x ∷ xs) ys a ps = (ps.0, All-remove xs ys a ps.1)

-- `R` holds of every element and each one behind it.
abbrev pub Pairwise {ℓ κ} : {A : Type ℓ} → (A → A → Type κ) → List A → Type κ
Pairwise R [] = Unit
Pairwise R (x ∷ xs) = All (R x) xs × Pairwise R xs

module _ {ℓ κ} {A : Type ℓ} (R : A → A → Type κ) where
  pub Pairwise-insert :
      (xs ys : List A) (a : A)
      → All (λ x. R x a) xs
      → All (R a) ys
      → Pairwise R (xs ++ ys)
      → Pairwise R (xs ++ a ∷ ys)
  Pairwise-insert [] ys a before behind p = (behind, p)
  Pairwise-insert (x ∷ xs) ys a before behind p =
      (All-insert (R x) xs ys a before.0 p.0, Pairwise-insert xs ys a before.1 behind p.1)

  pub Pairwise-remove : (xs ys : List A) (a : A) → Pairwise R (xs ++ a ∷ ys) → Pairwise R (xs ++ ys)
  Pairwise-remove [] ys a p = p.1
  Pairwise-remove (x ∷ xs) ys a p = (All-remove (R x) xs ys a p.0, Pairwise-remove xs ys a p.1)

  pub Pairwise-append_left : (xs ys : List A) → Pairwise R (xs ++ ys) → Pairwise R xs
  Pairwise-append_left [] ys p = tt
  Pairwise-append_left (x ∷ xs) ys p =
      (All-append_left (R x) xs ys p.0, Pairwise-append_left xs ys p.1)

  pub Pairwise-append_right : (xs ys : List A) → Pairwise R (xs ++ ys) → Pairwise R ys
  Pairwise-append_right [] ys p = p
  Pairwise-append_right (x ∷ xs) ys p = Pairwise-append_right xs ys p.1

  pub Pairwise-cross : (xs ys : List A) → Pairwise R (xs ++ ys) → All (λ x. All (R x) ys) xs
  Pairwise-cross [] ys p = tt
  Pairwise-cross (x ∷ xs) ys p = (All-append_right (R x) xs ys p.0, Pairwise-cross xs ys p.1)

module _ {ℓ κ μ} {A : Type ℓ} (P : A → Type κ) (Q : A → Type μ) where
  pub All-both : (xs : List A) → All P xs → All Q xs → All (λ x. P x × Q x) xs
  All-both [] p q = tt
  All-both (x ∷ xs) p q = ((p.0, q.0), All-both xs p.1 q.1)
