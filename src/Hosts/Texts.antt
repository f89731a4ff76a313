-- ===== src/Hosts/Texts.antt =====
-- What split, partition and strip do to a text that was put together.
use battery_lab_sim.Prelude.{
  ℕ, ◌≡◌, refl, ap, ◌∙◌, Bool, true, false, List, [], ◌∷◌, ◌++◌, ◌==◌, All, arith, inl, inr,
  Bool-cases,
}
use battery_lab_sim.Hosts.{Text, is_empty, onto_first, split, partition, lstrip, rstrip, strip}

abbrev pub Lacks : ℕ → Text → Type 0
Lacks sep s = All (λ c. (c == sep) ≡ false) s

-- `sep.join(parts)`
abbrev pub join : ℕ → List Text → Text
join sep [] = []
join sep (p ∷ []) = p
join sep (p ∷ q ∷ ps) = p ++ sep ∷ join sep (q ∷ ps)

split_none : (sep : ℕ) (p : Text) → Lacks sep p → split sep p ≡ p ∷ []
unfolding split
split_none sep [] h = refl
split_none sep (c ∷ p) h = rw h.0 (ap (onto_first c) (split_none sep p h.1))

split_at : (sep : ℕ) (p s : Text) → Lacks sep p → split sep (p ++ sep ∷ s) ≡ p ∷ split sep s
unfolding split
split_at sep [] s h = ground arith
split_at sep (c ∷ p) s h = rw h.0 (ap (onto_first c) (split_at sep p s h.1))

pub split-join :
    (sep : ℕ) (p : Text) (ps : List Text)
    → All (Lacks sep) (p ∷ ps)
    → split sep (join sep (p ∷ ps)) ≡ p ∷ ps
split-join sep p [] h = split_none sep p h.0
split-join sep p (q ∷ ps) h =
    split_at sep p (join sep (q ∷ ps)) h.0 ∙ ap (λ l. p ∷ l) (split-join sep q ps h.1)

pub partition_at : (sep : ℕ) (p s : Text) → Lacks sep p → partition sep (p ++ sep ∷ s) ≡ (p, s)
unfolding partition
partition_at sep [] s h = ground arith
partition_at sep (c ∷ p) s h = rw (h.0, partition_at sep p s h.1) refl

pub partition_none : (sep : ℕ) (p : Text) → Lacks sep p → partition sep p ≡ (p, [])
unfolding partition
partition_none sep [] h = refl
partition_none sep (c ∷ p) h = rw (h.0, partition_none sep p h.1) refl

module _ (is_space : ℕ → Bool) where
  abbrev pub Blank : Text → Type 0
  Blank s = All (λ c. is_space c ≡ true) s

  abbrev pub Solid : Text → Type 0
  Solid s = All (λ c. is_space c ≡ false) s

  lstrip-Blank : (l s : Text) → Blank l → lstrip is_space (l ++ s) ≡ lstrip is_space s
  unfolding lstrip
  lstrip-Blank [] s h = refl
  lstrip-Blank (c ∷ l) s h = rw h.0 (lstrip-Blank l s h.1)

  rstrip-Blank : (r : Text) → Blank r → rstrip is_space r ≡ []
  unfolding rstrip
  rstrip-Blank [] h = refl
  rstrip-Blank (c ∷ r) h = rw (rstrip-Blank r h.1, h.0) refl

  rstrip-Solid : (t r : Text) → Solid t → Blank r → rstrip is_space (t ++ r) ≡ t
  unfolding rstrip
  rstrip-Solid [] r h k = rstrip-Blank r k
  rstrip-Solid (c ∷ t) r h k =
      rw (rstrip-Solid t r h.1 k)
        (elim (Bool-cases (is_empty t)) [ inl e ↦ rw (e, h.0) refl | inr e ↦ rw e refl ])

  lstrip-Solid : (t r : Text) → Solid t → is_empty t ≡ false → lstrip is_space (t ++ r) ≡ t ++ r
  unfolding lstrip
  lstrip-Solid [] r h e = absurd (cc)
  lstrip-Solid (c ∷ t) r h e = rw h.0 refl

  pub strip_padded :
      (l t r : Text)
      → Blank l
      → Solid t
      → is_empty t ≡ false
      → Blank r
      → strip is_space (l ++ (t ++ r)) ≡ t
  unfolding strip
  strip_padded l t r hl ht e hr =
      ap (rstrip is_space) (lstrip-Blank l (t ++ r) hl ∙ lstrip-Solid t r ht e)
      ∙ rstrip-Solid t r ht hr

  lstrip_all : (s : Text) → Blank s → lstrip is_space s ≡ []
  unfolding lstrip
  lstrip_all [] h = refl
  lstrip_all (c ∷ s) h = rw h.0 (lstrip_all s h.1)

  pub strip-Blank : (s : Text) → Blank s → strip is_space s ≡ []
  unfolding strip rstrip
  strip-Blank s h = rw (lstrip_all s h) refl

  pub Blank-Lacks : (sep : ℕ) → is_space sep ≡ false → (s : Text) → Blank s → Lacks sep s
  Blank-Lacks sep h [] k = tt
  Blank-Lacks sep h (c ∷ s) k = (ground (arith), Blank-Lacks sep h s k.1)
