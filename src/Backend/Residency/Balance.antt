-- ===== src/Backend/Residency/Balance.antt =====
-- Each model is released as often as it is loaded, and once more where it is parked.
use codex_local_qwen27b.Base.{ℕ, ◌+◌, ◌≡◌, Bool, true, false, List, [], ◌∷◌, arith, if_both}
use codex_local_qwen27b.Backend.Residency.{
  ParkTarget, ModelCall, close_remote_draft, free_draft_weights, free_target_weights,
  load_target_model, start_remote_draft, load_draft, ModelConfig, Models, park_draft, park_target,
  park, unpark_target, unpark_draft, unpark, ModelRequest, parks, unparks, serve,
}

-- How often calls of a kind were made.
unfoldable pub count : (ModelCall → ℕ) → List ModelCall → ℕ
count kind [] = 0
count kind (c ∷ cs) = kind c + count kind cs

abbrev pub once : Bool → ℕ
once true = 1
once false = 0

abbrev pub target_released : ModelCall → ℕ
target_released free_target_weights = 1
target_released _ = 0

abbrev pub target_loaded : ModelCall → ℕ
target_loaded (load_target_model ok) = once ok
target_loaded _ = 0

abbrev pub draft_released : ModelCall → ℕ
draft_released close_remote_draft = 1
draft_released free_draft_weights = 1
draft_released _ = 0

abbrev pub draft_loaded : ModelCall → ℕ
draft_loaded (start_remote_draft ok) = once ok
draft_loaded (load_draft ok) = once ok
draft_loaded _ = 0

-- Of both models, what was released and not loaded again is what the flags say.
pub record Balanced (s : Models) : Type 0 where
  pub target : count target_released s.calls ≡ count target_loaded s.calls + once s.target_parked
  pub draft : count draft_released s.calls ≡ count draft_loaded s.calls + once s.draft_parked

park_draft-Balanced :
    (c : ModelConfig) (t : ParkTarget) (s : Models) → Balanced s → Balanced (park_draft c t s)
unfolding park_draft count
park_draft-Balanced c t s b = ground arith

park_target-Balanced : (t : ParkTarget) (s : Models) → Balanced s → Balanced (park_target t s)
unfolding park_target count
park_target-Balanced t s b = ground arith

unpark_target-Balanced :
    (loads : Bool) (t : ParkTarget) (s : Models) → Balanced s → Balanced (unpark_target loads t s).1
unfolding unpark_target count
unpark_target-Balanced loads t s b = ground arith

unpark_draft-Balanced :
    (c : ModelConfig) (loads : Bool) (t : ParkTarget) (s : Models)
    → Balanced s
    → Balanced (unpark_draft c loads t s).1
unfolding unpark_draft count
unpark_draft-Balanced c loads t s b = ground arith

unpark-Balanced :
    (c : ModelConfig) (target_loads draft_loads : Bool) (t : ParkTarget) (s : Models)
    → Balanced s
    → Balanced (unpark c target_loads draft_loads t s).1
unfolding unpark
unpark-Balanced c target_loads draft_loads t s b =
    let s' = (unpark_target target_loads t s).1 in
    let b' = unpark_target-Balanced target_loads t s b in
    if_both (λ (r : Bool × Models). Balanced r.1) (unpark_target target_loads t s).0
      (unpark_draft-Balanced c draft_loads t s' b') b'

-- Whatever calls of park and unpark are served, in whatever order and however their loads end: if the
-- released weights of each model, target and drafter, are those that were loaded and one more where the
-- flag says parked, then it is so at the end.
pub serve-Balanced :
    (c : ModelConfig) (rs : List ModelRequest) (s : Models) → Balanced s → Balanced (serve c rs s)
unfolding serve
serve-Balanced c [] s b = b
serve-Balanced c (parks t ∷ rs) s b =
    serve-Balanced c rs (park c t s)
      (park_target-Balanced t (park_draft c t s) (park_draft-Balanced c t s b))
serve-Balanced c (unparks t target_loads draft_loads ∷ rs) s b =
    serve-Balanced c rs (unpark c target_loads draft_loads t s).1
      (unpark-Balanced c target_loads draft_loads t s b)
