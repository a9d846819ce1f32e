-- ===== src/Resume/Fits.antt =====
-- What the fitting of a packet into its budget keeps, in resume.py.
use causal_continuity_engine.Prelude.{
  ℕ, zero, suc, ◌-◌, ◌≤◌, true, false, ◌==◌, nat_eq, List, [], ◌∷◌, ◌++◌, length, append-nil, take,
  leb→le, In, ◌≡◌, refl, ap, sym, ◌∙◌, ◌⊎◌, inl, inr, arith, subst, Bool-cases,
}
use causal_continuity_engine.Resume.{
  Trimmable, trim_order, Omission, Section, items, whole, Packet, section_of, with_section, fits,
  kept_length, cut, trim, trim_all, fit_budget,
}
use causal_continuity_engine.Resume.Trimmed.{
  IsTrimmed-refl, IsTrimmed-trans, items_injective, items-whole, omitted, with_section-IsTrimmed,
  with_section-same, take-all, IsShortened, IsShortened-later, IsShortened-earlier, same_key_refl,
  IsTrimmed,
}

module _ (Json Rest : Type 0) where
  module _ (tokens : Packet Json Rest → List Omission → ℕ) (budget : ℕ) where
    kept_length-le :
        (key : Trimmable) (p : Packet Json Rest) (o : List Omission) (l : List Json) (n : ℕ)
        → kept_length Json Rest tokens budget key p o l n ≤ n
    unfolding kept_length
    kept_length-le key p o l zero = omega arith
    kept_length-le key p o l (suc n) =
        elim (Bool-cases (
          fits Json Rest tokens budget (with_section Json Rest key (items (take (suc n) l)) p) o)) [
            | inl fitting ↦ rw (kept_length, fitting) (omega arith)
            | inr over ↦
                let less = kept_length-le key p o l n in
                rw (kept_length, over) (omega (arith, less))
          ]

    -- a packet that does not fit loses an entry at least, where there is one
    kept_length-less :
        (key : Trimmable) (p : Packet Json Rest) (o : List Omission) (l : List Json)
        → section_of Json Rest key p ≡ items l
        → fits Json Rest tokens budget p o ≡ false
        → (l ≡ []) ⊎ (suc (kept_length Json Rest tokens budget key p o l (length l)) ≤ length l)
    unfolding kept_length
    kept_length-less key p o [] at over = inl refl
    kept_length-less key p o (x ∷ l) at over =
        let same : with_section Json Rest key (items (take (suc (length l)) (x ∷ l))) p ≡ p =
          ap (λ m. with_section Json Rest key (items m) p) (take-all Json Rest (x ∷ l))
          ∙ with_section-same Json Rest key p (items (x ∷ l)) at in
        let still : fits Json Rest tokens budget
              (with_section Json Rest key (items (take (suc (length l)) (x ∷ l))) p) o
            ≡ false =
          ap (λ q. fits Json Rest tokens budget q o) same ∙ over in
        let less = kept_length-le key p o (x ∷ l) (length l) in
        inr (rw (kept_length, still) (omega (arith, less)))

    -- a good round: nothing is lost unsaid, and the section is shortened
    abbrev IsRound :
        Trimmable → Packet Json Rest → List Omission → Packet Json Rest × List Omission → Type 0
    IsRound key p o r =
        IsTrimmed Json Rest p r.0 o (o ++ r.1) × IsShortened Json Rest key p o (o ++ r.1)

    unchanged-IsRound :
        (key : Trimmable) (p : Packet Json Rest) (o : List Omission)
        → ((l : List Json) → section_of Json Rest key p ≡ items l → l ≡ [])
        → IsRound key p o (p, [])
    unchanged-IsRound key p o h = (
      subst (IsTrimmed Json Rest p p o) (sym (append-nil o)) (IsTrimmed-refl Json Rest p o),
      λ l at. inl (h l at),
    )

    cut-IsRound :
        (key : Trimmable) (p : Packet Json Rest) (o : List Omission) (l : List Json) (n : ℕ)
        → section_of Json Rest key p ≡ items l
        → (l ≡ []) ⊎ (suc n ≤ length l)
        → n ≤ length l
        → IsRound key p o (cut Json Rest tokens budget key p l n)
    cut-IsRound key p o l n at less few = elim (Bool-cases (n == length l)) [
      | inl all ↦ rw all (
          unchanged-IsRound key p o (λ m e. elim less [
            | inl empty ↦ items_injective Json Rest (section_of Json Rest key p) m l e at ∙ empty
            | inr fewer ↦ absurd (ground (arith, all, fewer))
          ]))
      | inr some_cut ↦ rw some_cut (
        with_section-IsTrimmed Json Rest key p l n o at few,
        λ m e. inr (
            let count = omitted Json Rest key key o (length l - n) in
            let own = same_key_refl key in
            let more = rw own at count in ground (arith, more, some_cut, few)),
      )
    ]

    trim-IsRound :
        (key : Trimmable) (p : Packet Json Rest) (o : List Omission)
        → fits Json Rest tokens budget p o ≡ false
        → IsRound key p o (trim Json Rest tokens budget key p o)
    unfolding trim
    trim-IsRound key p o over = go (section_of Json Rest key p) refl
      where
        go :
            (s : Section Json Rest)
            → section_of Json Rest key p ≡ s
            → IsRound key p o (trim Json Rest tokens budget key p o)
        go (whole j) at =
            let same : (p, []) ≡ trim Json Rest tokens budget key p o = rw (trim, at) refl in
            subst (IsRound key p o) same (
              unchanged-IsRound key p o
                (λ l e. absurd (items-whole Json Rest (section_of Json Rest key p) l j e at)))
        go (items l) at =
            let n = kept_length Json Rest tokens budget key p o l (length l) in
            let same : cut Json Rest tokens budget key p l n
                ≡ trim Json Rest tokens budget key p o =
              rw (trim, at) refl in
            subst (IsRound key p o) same (
              cut-IsRound key p o l n at (kept_length-less key p o l at over)
                (kept_length-le key p o l (length l)))

    trim_all-fits :
        (keys : List Trimmable) (p : Packet Json Rest) (o : List Omission)
        → IsTrimmed Json Rest p
            (trim_all Json Rest tokens budget keys p o).0
            o
            (trim_all Json Rest tokens budget keys p o).1
          × ((fits Json Rest tokens budget
                  (trim_all Json Rest tokens budget keys p o).0
                  (trim_all Json Rest tokens budget keys p o).1
                ≡ true)
              ⊎ ((key : Trimmable)
                  → In key keys
                  → IsShortened Json Rest key p o (trim_all Json Rest tokens budget keys p o).1))
    unfolding trim_all
    trim_all-fits [] p o = (IsTrimmed-refl Json Rest p o, inr (λ key i. absurd i))
    trim_all-fits (key ∷ keys) p o = elim (Bool-cases (fits Json Rest tokens budget p o)) [
      | inl fitting ↦ rw (trim_all, fitting) (IsTrimmed-refl Json Rest p o, inl fitting)
      | inr over ↦
          let r = trim Json Rest tokens budget key p o in
          let q = trim_all Json Rest tokens budget keys r.0 (o ++ r.1) in
          let (first, short) = trim-IsRound key p o over in
          let (later, ended) = trim_all-fits keys r.0 (o ++ r.1) in
          rw (trim_all, over)
            (
              IsTrimmed-trans Json Rest p r.0 q.0 o (o ++ r.1) q.1 first later,
              elim ended [
                | inl fitting ↦ inl fitting
                | inr all ↦ inr (λ k i. elim i [
                  | inl here ↦
                      subst (λ x. IsShortened Json Rest x p o q.1) (sym here)
                        (IsShortened-later Json Rest key p r.0 q.0 o (o ++ r.1) q.1 first later
                          short)
                  | inr j ↦
                      IsShortened-earlier Json Rest k p r.0 q.0 o (o ++ r.1) q.1 first later
                        (all k j)
                ])
              ],
            )
    ]

    every : (key : Trimmable) → In key trim_order
    every Trimmable.recent_context = inl refl
    every Trimmable.verified_progress = inr (inl refl)
    every Trimmable.environment = inr (inr (inl refl))

    -- A packet is fitted into its budget honestly: authority and all else that may not be trimmed
    -- stay as they are, a trimmed section keeps its first entries and the omissions count exactly
    -- the others, and the fitted packet, with these omissions, is within the budget unless every
    -- section that could be trimmed was empty or has lost entries.
    pub fit_budget_fits :
        (p : Packet Json Rest) (o : List Omission)
        → IsTrimmed Json Rest p
            (fit_budget Json Rest tokens budget p o).0
            o
            (fit_budget Json Rest tokens budget p o).1
          × ((tokens
                  (fit_budget Json Rest tokens budget p o).0
                  (fit_budget Json Rest tokens budget p o).1
                ≤ budget)
              ⊎ ((key : Trimmable)
                  → IsShortened Json Rest key p o (fit_budget Json Rest tokens budget p o).1))
    unfolding fit_budget
    fit_budget_fits p o =
        let (t, done) = trim_all-fits trim_order p o in
        (
          t,
          elim done [
            | inl fitting ↦ inl (leb→le _ _ fitting)
            | inr all ↦ inr (λ key. all key (every key))
          ],
        )
