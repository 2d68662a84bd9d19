-- ===== src/Backend/Floor.antt =====
-- The floor on the number of tokens (server/src/qwen35/qwen35_backend.cpp, 831-857). The scores are of a
-- type `F` with the test `>`, and `lowest` stands for -1e30f; is_eos is IS_EOS_TOK.
pub mod Best
use codex_local_qwen27b.Base.{
  ℕ, suc, Bool, true, false, not, ◌&&◌, ◌||◌, Option, none, some, List, [], ◌∷◌, if◌then◌else◌, ℤ,
  pos, leb_ℤ,
}

module _ {F : Type 0} (above : F → F → Bool) (is_eos : ℕ → Bool) where
  -- 846-849: the best score and its token, from the token `v` on.
  unfoldable pub best_from : ℕ → List F → F → Option ℕ → F × Option ℕ
  best_from v [] best alt = (best, alt)
  best_from v (x ∷ xs) best alt =
      let better = not (is_eos v) && above x best in
      best_from (suc v) xs (if better then x else best) (if better then some v else alt)

  -- 831-857, for the logits row of the token
  unfoldable pub apply_min_tokens_floor : F → ℤ → ℕ → ℤ → List F → ℕ
  unfolding best_from
  apply_min_tokens_floor lowest floor tok generated logits =
      if leb_ℤ floor (pos 0) || leb_ℤ floor generated || not (is_eos tok)
      then tok
      else elim (best_from 0 logits lowest none).1 [ none ↦ tok | some alt ↦ alt ]
