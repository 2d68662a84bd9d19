-- ===== src/Backend/Floor/Best.antt =====
-- The token that is substituted is the best that does not end the text.
use codex_local_qwen27b.Base.{
  ℕ, zero, suc, ◌+◌, ◌≡◌, refl, ap, sym, ◌∙◌, ◌⊎◌, inl, inr, Bool, true, false, not, ◌&&◌, ◌||◌,
  Option, none, some, List, [], ◌∷◌, arith, get_elem?, Bool-cases, Option-cases, ℤ, pos, leb_ℤ,
}
use mathlib.Core.Path.{subst}
use mathlib.Core.Option.{some-injective}
use codex_local_qwen27b.Backend.Floor.{best_from, apply_min_tokens_floor}

-- What `>` is of scores: nothing is above itself, and it passes on.
pub record IsStrict {F : Type 0} (above : F → F → Bool) : Type 0 where
  pub irreflexive : (x : F) → above x x ≡ false
  pub transitive : (x y z : F) → above x y ≡ true → above y z ≡ true → above x z ≡ true

module _ {F : Type 0} (above : F → F → Bool) (is_eos : ℕ → Bool) (strict : IsStrict above) where
  -- Where the result of the loop comes from.
  abbrev From : ℕ → List F → F → Option ℕ → F × Option ℕ → Type 0
  From v xs best alt r =
      (r ≡ (best, alt))
      ⊎ ((i : ℕ) × (r.1 ≡ some (v + i)) × (get_elem? xs i ≡ some r.0) × (is_eos (v + i) ≡ false))

  -- No score is above the result: neither one that was not above the start, nor one of the list.
  record Top (v : ℕ) (xs : List F) (best : F) (alt : Option ℕ) (r : F × Option ℕ) : Type 0 where
    old : (z : F) → above z best ≡ false → above z r.0 ≡ false
    new : (i : ℕ) (x : F) → get_elem? xs i ≡ some x → is_eos (v + i) ≡ false → above x r.0 ≡ false
    from : From v xs best alt r

  -- What is not above a score is not above a better one.
  not_above : (z x best : F) → above x best ≡ true → above z best ≡ false → above z x ≡ false
  not_above z x best a n = elim (Bool-cases (above z x)) [
    | inl e ↦ absurd (ground (arith, strict.transitive z x best e a, n))
    | inr e ↦ e
  ]

  shifted :
      (v : ℕ) (x : F) (xs : List F) (best best' : F) (alt alt' : Option ℕ) (r : F × Option ℕ)
      → From (suc v) xs best' alt' r
      → (r ≡ (best', alt') → From v (x ∷ xs) best alt r)
      → From v (x ∷ xs) best alt r
  shifted v x xs best best' alt alt' r (inl e) k = k e
  shifted v x xs best best' alt alt' r (inr (i, a, b, c)) k =
      let e : suc v + i ≡ v + suc i = omega arith in
      inr (suc i, a ∙ ap some e, b, sym (ap is_eos e) ∙ c)

  -- No score of a list is above one that is above neither its first nor the others.
  none_above :
      (v : ℕ) (x : F) (xs : List F) (top : F)
      → (is_eos v ≡ false → above x top ≡ false)
      → ((i : ℕ) (y : F)
          → get_elem? xs i ≡ some y
          → is_eos (suc v + i) ≡ false
          → above y top ≡ false)
      → (i : ℕ) (y : F) → get_elem? (x ∷ xs) i ≡ some y
      → is_eos (v + i) ≡ false
      → above y top ≡ false
  none_above v x xs top h t zero y g e =
      let same : v ≡ v + 0 = omega arith in
      subst (λ z. above z top ≡ false) (some-injective _ _ g) (h (ap is_eos same ∙ e))
  none_above v x xs top h t (suc i) y g e =
      let same : suc v + i ≡ v + suc i = omega arith in t i y g (ap is_eos same ∙ e)

  best_from-Top :
      (v : ℕ) (xs : List F) (best : F) (alt : Option ℕ)
      → Top v xs best alt (best_from above is_eos v xs best alt)
  unfolding best_from
  best_from-Top v [] best alt = record {
    old = λ z n. n;
    new = λ i x g. absurd (cc);
    from = inl refl;
  }
  best_from-Top v (x ∷ xs) best alt =
      let taken = best_from-Top (suc v) xs x (some v) in
      let passed = best_from-Top (suc v) xs best alt in
      let same : v ≡ v + 0 = omega arith in
      elim (Bool-cases (not (is_eos v) && above x best)) [
        | inl b ↦
            let r = best_from above is_eos (suc v) xs x (some v) in
            rw b (record {
              old = λ z n. taken.old z (not_above z x best (ground (arith, b)) n);
              new = none_above v x xs r.0 (λ e. taken.old x (strict.irreflexive x)) taken.new;
              from = shifted v x xs best x alt (some v) r taken.from (λ e. inr (
                0,
                ap (λ (q : F × Option ℕ). q.1) e ∙ ap some same,
                ap some (sym (ap (λ (q : F × Option ℕ). q.0) e)),
                sym (ap is_eos same) ∙ ground (arith, b),
              ));
            })
        | inr b ↦
            let r = best_from above is_eos (suc v) xs best alt in
            rw b (record {
              old = passed.old;
              new = none_above v x xs r.0 (λ e. passed.old x (ground (arith, b, e))) passed.new;
              from = shifted v x xs best best alt alt r passed.from (λ e. inl e);
            })
      ]

  -- No token that does not end the text has a score above this one.
  abbrev pub NoneAbove : List F → F → Type 0
  NoneAbove logits y =
      (i : ℕ) (x : F) → get_elem? logits i ≡ some x → is_eos i ≡ false → above x y ≡ false

  abbrev pub Substituted : F → List F → ℕ → ℕ → Type 0
  Substituted lowest logits tok r =
      ((r ≡ tok) × NoneAbove logits lowest)
      ⊎ ((y : F) × (get_elem? logits r ≡ some y) × (is_eos r ≡ false) × NoneAbove logits y)

  abbrev given : ℕ → Option ℕ → ℕ
  given tok none = tok
  given tok (some alt) = alt

  substituted :
      (lowest : F) (logits : List F) (tok : ℕ) (r : F × Option ℕ)
      → From 0 logits lowest none r
      → NoneAbove logits r.0
      → Substituted lowest logits tok (given tok r.1)
  substituted lowest logits tok r (inl e) n =
      subst
        (λ (q : F × Option ℕ). NoneAbove logits q.0 → Substituted lowest logits tok (given tok q.1))
        (sym e) (λ m. inl (refl, m)) n
  substituted lowest logits tok r (inr (i, a, g, c)) n =
      let same : i ≡ 0 + i = omega arith in
      subst (λ o. Substituted lowest logits tok (given tok o)) (sym a)
        (inr (r.0, subst (λ j. get_elem? logits j ≡ some r.0) same g, c, n))

  chosen :
      (lowest : F) (logits : List F) (tok : ℕ)
      → Substituted lowest logits tok
          (elim (best_from above is_eos 0 logits lowest none).1 [ none ↦ tok | some alt ↦ alt ])
  chosen lowest logits tok =
      let t = best_from-Top 0 logits lowest none in
      let top : NoneAbove logits (best_from above is_eos 0 logits lowest none).0 =
        λ i x g e. let same : 0 + i ≡ i = omega arith in t.new i x g (ap is_eos same ∙ e) in
      let r =
        substituted lowest logits tok (best_from above is_eos 0 logits lowest none) t.from top in
      elim (Option-cases (best_from above is_eos 0 logits lowest none).1) [
        | inl o ↦ rw o (subst (λ z. Substituted lowest logits tok (given tok z)) o r)
        | inr (alt, o) ↦ rw o (subst (λ z. Substituted lowest logits tok (given tok z)) o r)
      ]

  abbrev pub Floored : F → ℤ → ℕ → ℤ → List F → ℕ → Type 0
  Floored lowest floor tok generated logits r =
      (((leb_ℤ floor (pos 0) || leb_ℤ floor generated || not (is_eos tok)) ≡ true) × (r ≡ tok))
      ⊎ (((leb_ℤ floor (pos 0) || leb_ℤ floor generated || not (is_eos tok)) ≡ false)
          × Substituted lowest logits tok r)

  -- For scores on which `>` is a strict order: where the floor is off, or reached, or the token does not
  -- end the text, the token stands. Else it is replaced by a token that does not end the text and whose
  -- score none of these tokens exceeds; it stands only if none of their scores is above the lowest.
  pub apply_min_tokens_floor-Floored :
      (lowest : F) (floor : ℤ) (tok : ℕ) (generated : ℤ) (logits : List F)
      → Floored lowest floor tok generated logits
          (apply_min_tokens_floor above is_eos lowest floor tok generated logits)
  unfolding apply_min_tokens_floor
  apply_min_tokens_floor-Floored lowest floor tok generated logits =
      elim (Bool-cases (leb_ℤ floor (pos 0) || leb_ℤ floor generated || not (is_eos tok))) [
        | inl e ↦ inl (e, rw e refl)
        | inr e ↦ inr (e, rw e (chosen lowest logits tok))
      ]
