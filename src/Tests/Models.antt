-- ===== src/Tests/Models.antt =====
-- The models of the Qwen 3.5 backend (server/src/qwen35/qwen35_backend.cpp): parking, and the floor on the
-- number of tokens.
use codex_local_qwen27b.Base.{ℕ, ◌≡◌, refl, Bool, true, false, List, [], ◌∷◌, arith, ltb, ◌==◌, pos}
use codex_local_qwen27b.Backend.Residency.{
  ParkTarget, ModelConfig, Models, ModelRequest, parks, unparks, serve,
}
use codex_local_qwen27b.Backend.Residency.Balance.{Balanced, count, serve-Balanced}
use codex_local_qwen27b.Backend.Floor.{apply_min_tokens_floor}
use codex_local_qwen27b.Backend.Floor.Best.{IsStrict, Floored, apply_min_tokens_floor-Floored}

abbrev local_models : ModelConfig
local_models = record { use_remote_draft = false; has_draft_path = true; has_seq_engine = true }

abbrev resident : Models
resident = record {
  draft_parked = false;
  target_parked = false;
  kvflash_drafter_failed = false;
  calls = [];
}

abbrev both_models : ParkTarget
both_models = record { target_model = true; draft_model = true }

-- Both models are parked twice, and then only the target comes back.
abbrev requests : List ModelRequest
requests = parks both_models ∷ parks both_models ∷ unparks both_models true false ∷ []

resident-Balanced : Balanced resident
unfolding count
resident-Balanced = record { target = refl; draft = refl }

serve_example : Balanced (serve local_models requests resident)
serve_example = serve-Balanced local_models requests resident resident-Balanced

draft_stays_parked : (serve local_models requests resident).draft_parked ≡ true
unfolding serve
draft_stays_parked = refl

above : ℕ → ℕ → Bool
above x y = ltb y x

above-IsStrict : IsStrict above
unfolding above
above-IsStrict = record {
  irreflexive = λ x. ground arith;
  transitive = λ x y z h k. ground (arith, h, k);
}

ends : ℕ → Bool
ends v = v == 1

floor_example :
    Floored above ends above-IsStrict 0
      (pos 4)
      1
      (pos 2)
      (5 ∷ 9 ∷ 7 ∷ 6 ∷ [])
      (apply_min_tokens_floor above ends 0 (pos 4) 1 (pos 2) (5 ∷ 9 ∷ 7 ∷ 6 ∷ []))
floor_example =
    apply_min_tokens_floor-Floored above ends above-IsStrict 0 (pos 4) 1 (pos 2)
      (5 ∷ 9 ∷ 7 ∷ 6 ∷ [])

-- Token 1 ends the text and has the best score; token 2 has the best of the others.
floor_gives : apply_min_tokens_floor above ends 0 (pos 4) 1 (pos 2) (5 ∷ 9 ∷ 7 ∷ 6 ∷ []) ≡ 2
unfolding apply_min_tokens_floor above ends
floor_gives = refl
