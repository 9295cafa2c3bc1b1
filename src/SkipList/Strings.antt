-- ===== src/SkipList/Strings.antt =====
-- The keys of the server's skip list (include/common/skipList.h) are strings: `operator<` of
-- `std::string`, by the codes of the characters.
use Prim.Native.String.{◌∷◌ as char_cons, [] as no_chars}
use Prim.Native.Char.{Char, code}
use text.Mathlib.TextEquality.{Char-path}
use kvcache_raft.Common.{
  ◌≡◌, ◌≢◌, ◌⊎◌, refl, sym, ◌∙◌, Bool, true, false, String, inl, inr, ltb, ◌==◌, if◌then◌else◌, ◌<◌,
  arith, str_eq, str_eq_iff, ℕ_discrete,
}
use kvcache_raft.SkipList.Order.{Order}

abbrev pub str_lt : String → String → Bool
str_lt no_chars no_chars = false
str_lt no_chars (char_cons d t) = true
str_lt (char_cons c s) no_chars = false
str_lt (char_cons c s) (char_cons d t) =
    if code c == code d then str_lt s t else ltb (code c) (code d)

pub str_lt_irrefl : (a : String) → str_lt a a ≡ false
str_lt_irrefl no_chars = refl
str_lt_irrefl (char_cons c s) = ground (arith, str_lt_irrefl s)

-- The first characters decide, or the rests.
str_lt_cases :
    (c d : Char) (s t : String)
    → str_lt (char_cons c s) (char_cons d t) ≡ true
    → (code c < code d) ⊎ ((code c ≡ code d) × (str_lt s t ≡ true))
str_lt_cases c d s t h = elim (ℕ_discrete (code c) (code d)) [
  | yes e ↦ inr (e, ground arith)
  | no ne ↦ inl (ground arith)
]

str_lt_first :
    (c d : Char) (s t : String) → code c < code d → str_lt (char_cons c s) (char_cons d t) ≡ true
str_lt_first c d s t h = ground arith

str_lt_rest :
    (c d : Char) (s t : String)
    → code c ≡ code d
    → str_lt (char_cons c s) (char_cons d t) ≡ str_lt s t
str_lt_rest c d s t e = ground arith

pub str_lt_trans : (a b c : String) → str_lt a b ≡ true → str_lt b c ≡ true → str_lt a c ≡ true
str_lt_trans no_chars no_chars c p q = absurd (cc)
str_lt_trans no_chars (char_cons y b) no_chars p q = absurd (cc)
str_lt_trans no_chars (char_cons y b) (char_cons z c) p q = refl
str_lt_trans (char_cons x a) no_chars c p q = absurd (cc)
str_lt_trans (char_cons x a) (char_cons y b) no_chars p q = absurd (cc)
str_lt_trans (char_cons x a) (char_cons y b) (char_cons z c) p q = elim (str_lt_cases x y a b p) [
  | inl l ↦ elim (str_lt_cases y z b c q) [
    | inl r ↦ str_lt_first x z a c (omega arith)
    | inr (e, r) ↦ str_lt_first x z a c (omega arith)
  ]
  | inr (e, l) ↦ elim (str_lt_cases y z b c q) [
    | inl r ↦ str_lt_first x z a c (omega arith)
    | inr (f, r) ↦ str_lt_rest x z a c (e ∙ f) ∙ str_lt_trans a b c l r
  ]
]

pub str_lt_total : (a b : String) → a ≢ b → str_lt a b ≡ false → str_lt b a ≡ true
str_lt_total no_chars no_chars ne p = absurd (ne refl)
str_lt_total no_chars (char_cons y b) ne p = absurd (cc)
str_lt_total (char_cons x a) no_chars ne p = refl
str_lt_total (char_cons x a) (char_cons y b) ne p = elim (ℕ_discrete (code x) (code y)) [
  | yes e ↦
      let c = Char-path x y e in
      str_lt_rest y x b a (sym e)
      ∙ str_lt_total a b (λ q. ne (λ i. char_cons (c i) (q i))) (sym (str_lt_rest x y a b e) ∙ p)
  | no other ↦ str_lt_first y x b a (ground arith)
]

pub different : (a b : String) → str_eq a b ≡ false → a ≢ b
different a b h e = let same = (str_eq_iff a b).1 e in absurd (cc)

abbrev pub string_order : Order String
string_order = record {
  lt = str_lt;
  eq = str_eq;
  eq_sound = λ a b h. (str_eq_iff a b).0 h;
  eq_refl = λ a. (str_eq_iff a a).1 refl;
  lt_irrefl = str_lt_irrefl;
  lt_trans = str_lt_trans;
  lt_total = λ a b p q. str_lt_total a b (different a b q) p;
}
