-- ===== src/Resume/Trimmed.antt =====
-- When one packet is another one, trimmed, in resume.py.
use causal_continuity_engine.Prelude.{
  ℕ, zero, suc, ◌+◌, ◌-◌, ◌≤◌, Bool, true, false, ◌==◌, nat_eq, List, [], ◌∷◌, ◌++◌, length,
  length-append, length-take_le, append_assoc, append-nil, take, if◌then◌else◌, ◌≡◌, refl, ap, sym,
  ◌∙◌, ◌⊎◌, inl, inr, arith, subst, Bool-cases,
}
use causal_continuity_engine.Resume.{
  Trimmable, Omission, Section, items, whole, Packet, section_of, with_section,
}

abbrev key_code : Trimmable → ℕ
key_code Trimmable.recent_context = 0
key_code Trimmable.verified_progress = 1
key_code Trimmable.environment = 2

abbrev same_key : Trimmable → Trimmable → Bool
same_key a b = key_code a == key_code b

same_key_sound : (a b : Trimmable) → same_key a b ≡ true → a ≡ b
same_key_sound Trimmable.recent_context Trimmable.recent_context h = refl
same_key_sound Trimmable.verified_progress Trimmable.verified_progress h = refl
same_key_sound Trimmable.environment Trimmable.environment h = refl
same_key_sound _ _ h = absurd (ground arith)

pub same_key_refl : (a : Trimmable) → same_key a a ≡ true
same_key_refl Trimmable.recent_context = refl
same_key_refl Trimmable.verified_progress = refl
same_key_refl Trimmable.environment = refl

-- how many entries of the section the omissions count
abbrev pub withheld_count : Trimmable → List Omission → ℕ
withheld_count key [] = 0
withheld_count key (o ∷ rest) =
    let later = withheld_count key rest in if same_key o.section key then o.count + later else later

withheld_count-append :
    (key : Trimmable) (xs ys : List Omission)
    → withheld_count key (xs ++ ys) ≡ withheld_count key xs + withheld_count key ys
withheld_count-append key [] ys = omega arith
withheld_count-append key (o ∷ xs) ys = ground (arith, withheld_count-append key xs ys)

dropped : {A : Type 0} (n : ℕ) (l : List A) → (d : List A) × (l ≡ take n l ++ d)
dropped zero l = (l, refl)
dropped (suc n) [] = ([], refl)
dropped (suc n) (x ∷ l) = (let (d, e) = dropped n l in (d, ap (◌∷◌ x) e))

module _ (Json Rest : Type 0) where
  -- One packet is another one, trimmed: the rest is untouched, what is no list stays, and a list
  -- keeps its first entries, the missing ones being counted as omitted.
  pub record IsTrimmed (p q : Packet Json Rest) (before after : List Omission) : Type 0 where
    pub untouched : q.rest ≡ p.rest
    pub stays :
        (key : Trimmable) (j : Json)
        → section_of Json Rest key p ≡ whole j
        → section_of Json Rest key q ≡ whole j
    pub counted :
        (key : Trimmable) (l : List Json)
        → section_of Json Rest key p ≡ items l
        → (kept : List Json) × (gone : List Json) × (section_of Json Rest key q ≡ items kept)
          × (l ≡ kept ++ gone)
          × (withheld_count key after ≡ withheld_count key before + length gone)

  pub IsTrimmed-refl : (p : Packet Json Rest) (o : List Omission) → IsTrimmed p p o o
  IsTrimmed-refl p o = record {
    untouched = refl;
    stays = λ key j h. h;
    counted = λ key l h. (l, [], h, sym (append-nil l), omega arith);
  }

  pub IsTrimmed-trans :
      (p q r : Packet Json Rest) (a b c : List Omission)
      → IsTrimmed p q a b
      → IsTrimmed q r b c
      → IsTrimmed p r a c
  IsTrimmed-trans p q r a b c f g = record {
    untouched = g.untouched ∙ f.untouched;
    stays = λ key j h. g.stays key j (f.stays key j h);
    counted = λ key l h.
        (let (k1, g1, at1, e1, c1) = f.counted key l h in
          let (k2, g2, at2, e2, c2) = g.counted key k1 at1 in
          (
            k2,
            g2 ++ g1,
            at2,
            e1 ∙ (ap (λ k. k ++ g1) e2 ∙ append_assoc k2 g2 g1),
            omega (arith, c1, c2, length-append g2 g1),
          ));
  }

  section-here :
      (key : Trimmable) (s : Section Json Rest) (p : Packet Json Rest)
      → section_of Json Rest key (with_section Json Rest key s p) ≡ s
  section-here Trimmable.recent_context s p = refl
  section-here Trimmable.verified_progress s p = refl
  section-here Trimmable.environment s p = refl

  section-elsewhere :
      (key other : Trimmable) (s : Section Json Rest) (p : Packet Json Rest)
      → same_key key other ≡ false
      → section_of Json Rest other (with_section Json Rest key s p) ≡ section_of Json Rest other p
  section-elsewhere Trimmable.recent_context Trimmable.recent_context s p h = absurd (ground arith)
  section-elsewhere Trimmable.recent_context Trimmable.verified_progress s p h = refl
  section-elsewhere Trimmable.recent_context Trimmable.environment s p h = refl
  section-elsewhere Trimmable.verified_progress Trimmable.recent_context s p h = refl
  section-elsewhere Trimmable.verified_progress Trimmable.verified_progress s p h =
      absurd (ground arith)
  section-elsewhere Trimmable.verified_progress Trimmable.environment s p h = refl
  section-elsewhere Trimmable.environment Trimmable.recent_context s p h = refl
  section-elsewhere Trimmable.environment Trimmable.verified_progress s p h = refl
  section-elsewhere Trimmable.environment Trimmable.environment s p h = absurd (ground arith)

  rest-with_section :
      (key : Trimmable) (s : Section Json Rest) (p : Packet Json Rest)
      → (with_section Json Rest key s p).rest ≡ p.rest
  rest-with_section Trimmable.recent_context s p = refl
  rest-with_section Trimmable.verified_progress s p = refl
  rest-with_section Trimmable.environment s p = refl

  pub items_injective :
      (s : Section Json Rest) (l m : List Json) → s ≡ items l → s ≡ items m → l ≡ m
  items_injective s l m h k = cc

  pub items-whole :
      (s : Section Json Rest) (l : List Json) (j : Json) → s ≡ items l → s ≡ whole j → ⊥
  items-whole s l j h k = absurd (ground arith)

  -- the omission of a cut
  pub omitted :
      (key other : Trimmable) (o : List Omission) (n : ℕ)
      → withheld_count other (o ++ (record { section = key; count = n }) ∷ [])
        ≡ withheld_count other o + (if same_key key other then n else 0)
  omitted key other o n =
      let added = withheld_count-append other o ((record { section = key; count = n }) ∷ []) in
      elim (Bool-cases (same_key key other)) [
        | inl here ↦ rw here (added ∙ (rw here (omega arith)))
        | inr there ↦ rw there (added ∙ (rw there (omega arith)))
      ]

  pub with_section-IsTrimmed :
      (key : Trimmable) (p : Packet Json Rest) (l : List Json) (n : ℕ) (o : List Omission)
      → section_of Json Rest key p ≡ items l
      → n ≤ length l
      → IsTrimmed p
          (with_section Json Rest key (items (take n l)) p)
          o
          (o ++ (record { section = key; count = length l - n }) ∷ [])
  with_section-IsTrimmed key p l n o at few = record {
    untouched = rest-with_section key (items (take n l)) p;
    stays = λ other j h. elim (Bool-cases (same_key key other)) [
      | inl here ↦ absurd (
          items-whole (section_of Json Rest other p) l j
            (subst (λ k. section_of Json Rest k p ≡ items l) (same_key_sound key other here) at) h)
      | inr there ↦ section-elsewhere key other (items (take n l)) p there ∙ h
    ];
    counted = λ other m h. elim (Bool-cases (same_key key other)) [
      | inl here ↦
          let same =
            items_injective (section_of Json Rest other p) l m
              (subst (λ k. section_of Json Rest k p ≡ items l) (same_key_sound key other here) at)
              h in
          let (d, e) = dropped n l in
          let put =
            subst
              (λ k.
                section_of Json Rest k (with_section Json Rest key (items (take n l)) p)
                ≡ items (take n l))
              (same_key_sound key other here) (section-here key (items (take n l)) p) in
          let long = length-take_le n l few in
          let both : length l ≡ length (take n l) + length d =
            ap length e ∙ length-append (take n l) d in
          (
            take n l,
            d,
            put,
            sym same ∙ e,
            omitted key other o (length l - n) ∙ (rw here (omega (arith, long, both))),
          )
      | inr there ↦ (
        m,
        [],
        section-elsewhere key other (items (take n l)) p there ∙ h,
        sym (append-nil m),
        omitted key other o (length l - n) ∙ (rw there refl),
      )
    ];
  }

  pub with_section-same :
      (key : Trimmable) (p : Packet Json Rest) (s : Section Json Rest)
      → section_of Json Rest key p ≡ s
      → with_section Json Rest key s p ≡ p
  with_section-same Trimmable.recent_context p s h = ap (λ x. record p { recent = x }) (sym h)
  with_section-same Trimmable.verified_progress p s h = ap (λ x. record p { progress = x }) (sym h)
  with_section-same Trimmable.environment p s h = ap (λ x. record p { surroundings = x }) (sym h)

  pub take-all : (l : List Json) → take (length l) l ≡ l
  take-all [] = refl
  take-all (x ∷ l) = ap (◌∷◌ x) (take-all l)

  -- the section was empty, or something of it was omitted
  abbrev pub IsShortened : Trimmable → Packet Json Rest → List Omission → List Omission → Type 0
  IsShortened key p before after =
      (l : List Json)
      → section_of Json Rest key p ≡ items l
      → (l ≡ []) ⊎ (suc (withheld_count key before) ≤ withheld_count key after)

  -- what is shortened stays so
  pub IsShortened-later :
      (key : Trimmable) (p q r : Packet Json Rest) (a b c : List Omission)
      → IsTrimmed p q a b
      → IsTrimmed q r b c
      → IsShortened key p a b
      → IsShortened key p a c
  IsShortened-later key p q r a b c f g short l at =
      let (k1, g1, at1, e1, c1) = f.counted key l at in
      let (k2, g2, at2, e2, c2) = g.counted key k1 at1 in
      elim (short l at) [ inl empty ↦ inl empty | inr more ↦ inr (omega (arith, more, c2)) ]

  -- what is shortened later was shortened from the start
  pub IsShortened-earlier :
      (key : Trimmable) (p q r : Packet Json Rest) (a b c : List Omission)
      → IsTrimmed p q a b
      → IsTrimmed q r b c
      → IsShortened key q b c
      → IsShortened key p a c
  IsShortened-earlier key p q r a b c f g short l at =
      let (k1, g1, at1, e1, c1) = f.counted key l at in
      let (k2, g2, at2, e2, c2) = g.counted key k1 at1 in
      elim (short k1 at1) [
        | inr more ↦ inr (omega (arith, more, c1))
        | inl empty ↦ cases g1 (e1 ∙ ap (λ k. k ++ g1) empty) c1 (length g2) c2
      ]
    where
      cases :
          (g1 : List Json)
          → l ≡ g1
          → withheld_count key b ≡ withheld_count key a + length g1
          → (n : ℕ) → withheld_count key c ≡ withheld_count key b + n
          → (l ≡ []) ⊎ (suc (withheld_count key a) ≤ withheld_count key c)
      cases [] e h n k = inl e
      cases (x ∷ g1) e h n k = inr (omega (arith, h, k))
