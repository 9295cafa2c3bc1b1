-- ===== src/SkipList/Relink.antt =====
-- The pointers of a level of include/common/skipList.h when a cell comes in or goes out.
use kvcache_raft.Common.{
  ℕ, ◌<◌, ◌≡◌, ◌≢◌, inl, inr, sym, ap, ◌∙◌, subst, List, [], ◌∷◌, ◌++◌, Option, leb, Outcome, ok,
  arith, All, Bool-cases,
}
use kvcache_raft.SkipList.Cells.{
  Cell, Links, Distinct, Elsewhere, first_at, last_at, first_at-short, last_at-All,
}

module _ {K V : Type 0} where
  -- What is behind `pre` is replaced: only the last cell of the level gets another pointer.
  pub Links-relink :
      (f g : ℕ → Outcome (Option ℕ)) (i : ℕ) (h : Cell K V) (pre post post' : List (Cell K V))
      → Distinct (h ∷ pre)
      → All (λ c. c.addr ≢ (last_at i h pre).addr → g c.addr ≡ f c.addr) (h ∷ pre)
      → g (last_at i h pre).addr ≡ ok (first_at i post')
      → Links g i post'
      → Links f i (h ∷ (pre ++ post))
      → Links g i (h ∷ (pre ++ post'))
  Links-relink f g i h [] post post' d same e l' l = ((λ p. e), l')
  Links-relink f g i h (c ∷ cs) post post' d same e l' l = elim (Bool-cases (leb i c.level)) [
    | inl p ↦
        let t : last_at i h (c ∷ cs) ≡ last_at i c cs = rw (p) in
        let apart : h.addr ≢ (last_at i h (c ∷ cs)).addr = λ q.
          subst (Elsewhere h.addr) (sym t) (last_at-All (Elsewhere h.addr) i c cs d.0.0 d.0.1)
            (sym q) in
        (
          (λ q. same.0 apart ∙ l.0 q ∙ ap ok (rw (p))),
          Links-relink f g i c cs post post' d.1
              (subst (λ z. All (λ c. c.addr ≢ z.addr → g c.addr ≡ f c.addr) (c ∷ cs)) t same.1)
              (subst (λ z. g z.addr ≡ ok (first_at i post')) t e) l' l.1,
        )
    | inr p ↦
        let t : last_at i h (c ∷ cs) ≡ last_at i h cs = rw (p) in
        let ih =
          Links-relink f g i h cs post post' (d.0.1, d.1.1)
            (subst (λ z. All (λ c. c.addr ≢ z.addr → g c.addr ≡ f c.addr) (h ∷ cs)) t
              (same.0, same.1.1))
            (subst (λ z. g z.addr ≡ ok (first_at i post')) t e) l'
            ((λ q. l.0 q ∙ ap ok (rw (p))), l.1.1) in
        ((λ q. ih.0 q ∙ ap ok (rw (p))), ((λ q. absurd (ground arith)), ih.1))
  ]

  -- A level above the cell's own.
  pub Links-insert_short :
      (f : ℕ → Outcome (Option ℕ)) (i : ℕ) (n : Cell K V) (xs ys : List (Cell K V))
      → n.level < i
      → Links f i (xs ++ ys)
      → Links f i (xs ++ n ∷ ys)
  Links-insert_short f i n [] ys p l = ((λ q. absurd (omega arith)), l)
  Links-insert_short f i n (x ∷ xs) ys p l = (
    (λ q. l.0 q ∙ ap ok (sym (first_at-short i n xs ys p))),
    Links-insert_short f i n xs ys p l.1,
  )

  pub Links-remove_short :
      (f : ℕ → Outcome (Option ℕ)) (i : ℕ) (n : Cell K V) (xs ys : List (Cell K V))
      → n.level < i
      → Links f i (xs ++ n ∷ ys)
      → Links f i (xs ++ ys)
  Links-remove_short f i n [] ys p l = l.1
  Links-remove_short f i n (x ∷ xs) ys p l =
      ((λ q. l.0 q ∙ ap ok (first_at-short i n xs ys p)), Links-remove_short f i n xs ys p l.1)
