-- ===== src/SkipList/Order.antt =====
-- The keys of the skip list of include/common/skipList.h, by `operator<` and `operator==`.
use kvcache_raft.Common.{◌≡◌, sym, Bool, true, false, inl, inr, Bool-cases, subst}

pub record Order (K : Type 0) : Type 0 where
  pub lt : K → K → Bool
  pub eq : K → K → Bool
  pub eq_sound : (a b : K) → eq a b ≡ true → a ≡ b
  pub eq_refl : (a : K) → eq a a ≡ true
  pub lt_irrefl : (a : K) → lt a a ≡ false
  pub lt_trans : (a b c : K) → lt a b ≡ true → lt b c ≡ true → lt a c ≡ true
  pub lt_total : (a b : K) → lt a b ≡ false → eq a b ≡ false → lt b a ≡ true

module _ {K : Type 0} (ord : Order K) where
  pub not_above_below : (a b : K) → ord.lt a b ≡ true → ord.lt b a ≡ false
  not_above_below a b h = elim (Bool-cases (ord.lt b a)) [
    | inr e ↦ e
    | inl e ↦ let p = ord.lt_trans a b a h e in let q = ord.lt_irrefl a in absurd (cc)
  ]

  pub lt-eq : (a b : K) → ord.lt a b ≡ true → ord.eq a b ≡ false
  lt-eq a b h = elim (Bool-cases (ord.eq a b)) [
    | inr e ↦ e
    | inl e ↦
        let p = ord.eq_sound a b e in
        let q = ord.lt_irrefl a in let r = subst (λ z. ord.lt a z ≡ true) (sym p) h in absurd (cc)
  ]

  pub gt-eq : (a b : K) → ord.lt b a ≡ true → ord.eq a b ≡ false
  gt-eq a b h = elim (Bool-cases (ord.eq a b)) [
    | inr e ↦ e
    | inl e ↦
        let p = ord.eq_sound a b e in
        let q = ord.lt_irrefl a in let r = subst (λ z. ord.lt z a ≡ true) (sym p) h in absurd (cc)
  ]
