-- ===== src/Backend/Residency.antt =====
-- Parking of the two models (server/src/qwen35/qwen35_backend.cpp, 873-970). What is released and loaded
-- is logged, the newest call first; whether a load succeeds is an argument. The settings that a
-- reloaded drafter gets (935-962) are left out.
pub mod Balance
use codex_local_qwen27b.Base.{
  ℕ, Bool, true, false, not, ◌&&◌, ◌||◌, List, [], ◌∷◌, ◌++◌, if◌then◌else◌,
}

-- ParkTarget, by what park_target_includes_target_model and park_target_includes_draft_model say.
pub record ParkTarget : Type 0 where
  pub target_model : Bool
  pub draft_model : Bool

pub data ModelCall : Type 0 where
  close_remote_draft : ModelCall
  destroy_draft_graph : ModelCall
  release_draft_graphs : ModelCall
  free_draft_cache : ModelCall
  free_draft_weights : ModelCall
  destroy_target_graphs : ModelCall
  invalidate_selector_graph : ModelCall
  free_target_weights : ModelCall
  load_target_model : (ok : Bool) → ModelCall
  start_remote_draft : (ok : Bool) → ModelCall
  load_draft : (ok : Bool) → ModelCall
  free_target_graph : ModelCall

-- What does not change: cfg_.remote_draft.enabled(), cfg_.draft_path, seq_engine_.
pub record ModelConfig : Type 0 where
  pub use_remote_draft : Bool
  pub has_draft_path : Bool
  pub has_seq_engine : Bool

pub record Models : Type 0 where
  pub draft_parked : Bool
  pub target_parked : Bool
  pub kvflash_drafter_failed : Bool
  pub calls : List ModelCall

-- 879-886
unfoldable pub release_draft : ModelConfig → List ModelCall → List ModelCall
release_draft c calls =
    if c.use_remote_draft
    then close_remote_draft ∷ calls
    else if c.has_seq_engine
    then free_draft_weights ∷ free_draft_cache ∷ release_draft_graphs ∷ destroy_draft_graph ∷ calls
    else free_draft_weights ∷ free_draft_cache ∷ destroy_draft_graph ∷ calls

-- 878-889
unfoldable pub park_draft : ModelConfig → ParkTarget → Models → Models
unfolding release_draft
park_draft c target s =
    if target.draft_model && not s.draft_parked
    then record s { draft_parked = true; calls = release_draft c s.calls }
    else s

-- 890-897
unfoldable pub park_target : ParkTarget → Models → Models
park_target target s =
    if target.target_model && not s.target_parked
    then record s {
      target_parked = true;
      calls =
          free_target_weights ∷ invalidate_selector_graph ∷ destroy_target_graphs
          ∷ destroy_target_graphs ∷ s.calls;
    }
    else s

-- 873-899
unfoldable pub park : ModelConfig → ParkTarget → Models → Models
unfolding park_draft park_target
park c target s = park_target target (park_draft c target s)

-- 906-914: whether the call goes on.
unfoldable pub unpark_target : Bool → ParkTarget → Models → Bool × Models
unpark_target loads target s =
    if not (target.target_model && s.target_parked)
    then (true, s)
    else if not loads
    then (false, record s { calls = load_target_model false ∷ s.calls })
    else (
      true,
      record s {
        target_parked = false;
        kvflash_drafter_failed = false;
        calls = load_target_model true ∷ s.calls;
      },
    )

-- 916-934: the call that brings the drafter back.
unfoldable pub restore_draft : ModelConfig → Bool → ModelCall
restore_draft c loads = if c.use_remote_draft then start_remote_draft loads else load_draft loads

-- 915-968
unfoldable pub unpark_draft : ModelConfig → Bool → ParkTarget → Models → Bool × Models
unfolding restore_draft
unpark_draft c loads target s =
    if not (target.draft_model && s.draft_parked && c.has_draft_path)
    then (true, s)
    else if not loads
    then (false, record s { calls = restore_draft c false ∷ s.calls })
    else (
      true,
      record s { draft_parked = false; calls = free_target_graph ∷ restore_draft c true ∷ s.calls },
    )

-- 901-970
unfoldable pub unpark : ModelConfig → Bool → Bool → ParkTarget → Models → Bool × Models
unfolding unpark_target unpark_draft
unpark c target_loads draft_loads target s =
    let (goes_on, s') = unpark_target target_loads target s in
    let rest = unpark_draft c draft_loads target s' in if goes_on then rest else (false, s')

-- A call from outside, with how its loads end.
pub data ModelRequest : Type 0 where
  parks : (target : ParkTarget) → ModelRequest
  unparks : (target : ParkTarget) (target_loads draft_loads : Bool) → ModelRequest

unfoldable pub serve : ModelConfig → List ModelRequest → Models → Models
unfolding park unpark
serve c [] s = s
serve c (parks target ∷ rs) s = serve c rs (park c target s)
serve c (unparks target target_loads draft_loads ∷ rs) s =
    serve c rs (unpark c target_loads draft_loads target s).1
