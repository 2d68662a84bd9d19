-- ===== src/Tests/Cache.antt =====
-- The caches of a request (server/src/server/http_server.cpp) over small stores: PrefixCache finds slot 3
-- at position 2 and reserves slot 4 for position 3, and the backend saved at position 2.
use codex_local_qwen27b.Base.{
  ℕ, ◌≡◌, refl, true, false, none, some, List, [], ◌∷◌, arith, ℤ, pos, minus_one, leb_ℤ,
}
use codex_local_qwen27b.Server.Cache.{
  Tokens, snapshot_free, prepared_inline, confirm_inline_snap, learn_layout, Stores, auto, Caches,
  GenerationCacheState, CacheRequest, Preparing,
}
use codex_local_qwen27b.Server.Cache.Lookup.{size}
use codex_local_qwen27b.Server.Cache.Disk.{choose_restore}
use codex_local_qwen27b.Server.Cache.Target.{choose_target, prepare_generation_cache}
use codex_local_qwen27b.Server.Cache.Finalize.{Ended, finalize_generation_cache}
use codex_local_qwen27b.Server.Cache.Balance.{at_slot, no_slot, Opened}
use codex_local_qwen27b.Server.Cache.Spared.{Targeted, choose_target-Targeted}
use codex_local_qwen27b.Server.Cache.Restored.{RestoreFits, choose_restore-RestoreFits}
use codex_local_qwen27b.Server.Cache.Settled.{
  keepable, Settles, finalize_generation_cache-Settles, request-Closed,
}
use codex_local_qwen27b.Server.Cache.Replay.{Turn, Source, replay_agent_turn, replay_from}
use codex_local_qwen27b.Server.Cache.Replayed.{Spares, misplaced, replay_from-Spares}
use codex_local_qwen27b.Server.Cache.Kept.{Kept}
use codex_local_qwen27b.Server.Cache.Kept.Request.{request-Kept}

abbrev small_stores : Stores ℕ
small_stores = record {
  perform = λ c s. s;
  snapshot_used = λ slot s. true;
  snapshot_cur_pos = λ slot s. pos 2;
  snapshot_save = λ slot s. (true, s);
  generate = λ p slot n s. (true, s);
  restore_and_generate = λ source p slot n s. (true, s);
  lookup_full = λ key s. (minus_one, pos 0, s);
  lookup = λ p s. (pos 3, pos 2, s);
  prepare_inline_snap = λ p n tools cut source s. (pos 4, pos 3, s);
  prepare_full_snap = λ p s. (minus_one, s);
  disk_disabled = false;
  disk_lookup = λ p slot s. (false, s);
  cold_prefix_boundary = λ p bs s. pos 0;
  continued_interval = pos 100;
  find_all_boundaries = λ p. [];
  fixed_boundary = λ n m k. pos 0;
  auto_boundary = λ p recent window bs m. pos 0;
  staging_slot = pos 63;
}

abbrev small_request : CacheRequest
small_request = record {
  prompt_tokens = 1 ∷ 2 ∷ 3 ∷ 4 ∷ [];
  compressed = false;
  flowkv = false;
  full_cache_hit_slot = minus_one;
  full_cache_hit_len = pos 0;
  ppp_rewrote = false;
  prefer_tools_boundary = false;
  prefer_inline_snap = false;
  forced_cut = pos 0;
  policy_mode = auto;
  policy_fixed_tokens = pos 0;
  policy_auto_window = pos 4;
  policy_compress = false;
  disk_cache_min_tokens = pos 2;
  disk_cache_cold_max_tokens = pos 50;
}

abbrev prompt : Tokens
prompt = 1 ∷ 2 ∷ 3 ∷ 4 ∷ []

abbrev empty : Caches ℕ
empty = record {
  outside = 0;
  calls = [];
  slot_tokens = λ i. none;
  agent_turn_cache_slots = λ i. false;
  recent_disk_prompts = [];
}

abbrev restoring : GenerationCacheState
restoring = record {
  cache_slot = pos 3;
  prefix_len = pos 2;
  using_restore = true;
  disk_hit = false;
  snap_slot = minus_one;
  snap_cut = pos 0;
  snap_prepared = false;
  full_snap_slot = minus_one;
  full_snap_pos = pos 0;
  full_snap_prepared = false;
  full_snap_key_effective = false;
  mode = auto;
  fixed_tokens = pos 0;
  auto_window = pos 4;
}

abbrev found : Preparing ℕ
found = record { effective_prompt = prompt; cache = restoring; request_snap = none; caches = empty }

-- The search for a restore point finds it.
choose_finds : (choose_restore small_stores small_request prompt empty).1 ≡ found
unfolding choose_restore
choose_finds = refl

cold_inside :
    (p : Tokens) (bs : List ℤ) (s : ℕ)
    → leb_ℤ (small_stores.cold_prefix_boundary p bs s) (size p) ≡ true
cold_inside p bs s = ground arith

restored_example :
    RestoreFits small_stores small_request refl
      (choose_restore small_stores small_request prompt empty).1
restored_example =
    choose_restore-RestoreFits small_stores small_request refl cold_inside prompt empty

target_example :
    Targeted small_stores small_request found
      (choose_target small_stores small_request (pos 2) found)
target_example =
    choose_target-Targeted small_stores small_request (pos 2) found
      (record { no_inline = refl; no_full = refl }) (λ t. refl)

target_gives :
    (choose_target small_stores small_request (pos 2) found).caches.calls
    ≡ snapshot_free (pos 4) ∷ prepared_inline (pos 4) (pos 3) ∷ []
unfolding choose_target
target_gives = refl

abbrev good_end : Ended
good_end = record {
  ok = true;
  tokens = 8 ∷ 9 ∷ [];
  completion_tokens = pos 2;
  visible_output_seen = true;
  client_disconnected = false;
}

abbrev prepared : GenerationCacheState
prepared = record restoring { snap_slot = pos 4; snap_cut = pos 3; snap_prepared = true }

finalize_example :
    Settles
      (at_slot true (pos 4))
      (at_slot true (pos 4))
      no_slot
      no_slot
      []
      (finalize_generation_cache small_stores small_request prompt prepared good_end empty).calls
unfolding keepable
finalize_example =
    finalize_generation_cache-Settles small_stores small_request prompt prepared good_end empty

finalize_gives :
    (finalize_generation_cache small_stores small_request prompt prepared good_end empty).calls
    ≡ learn_layout (pos 4) ∷ confirm_inline_snap (pos 4) (pos 3) prompt ∷ []
unfolding finalize_generation_cache
finalize_gives = refl

closed_example :
    Opened no_slot no_slot
      (choose_restore small_stores small_request prompt empty).1.caches.calls
      (finalize_generation_cache small_stores small_request
        (prepare_generation_cache small_stores small_request prompt empty).effective_prompt
        (prepare_generation_cache small_stores small_request prompt empty).cache
        good_end
        (record (prepare_generation_cache small_stores small_request prompt empty).caches {
          outside = 1;
        })).calls
closed_example = request-Closed small_stores small_request refl cold_inside prompt empty 1 good_end

abbrev source : Source
source = record { slot = pos 3; position = pos 1 }

-- The turn has three tokens, where the reservation is made.
replayed_example :
    Spares small_stores
      (1 ∷ 2 ∷ 3 ∷ [])
      source
      (misplaced small_stores (1 ∷ 2 ∷ 3 ∷ []) source empty)
      []
      (replay_from small_stores (1 ∷ 2 ∷ 3 ∷ []) source empty).calls
replayed_example = replay_from-Spares small_stores (1 ∷ 2 ∷ 3 ∷ []) source empty refl

-- At a turn of five tokens the reservation is neither used nor given up.
misplaced_gives :
    (replay_from small_stores (1 ∷ 2 ∷ 3 ∷ 4 ∷ 5 ∷ []) source empty).calls
    ≡ prepared_inline (pos 4) (pos 3) ∷ []
unfolding replay_from
misplaced_gives = refl

abbrev small_turn : Turn
small_turn = record {
  replay_cache = true;
  agent_turn_cache = true;
  prefix_cache_disabled = false;
  compressed = false;
  prompt_tokens = prompt;
  prepared_tokens = prompt;
  canonical = some (1 ∷ 2 ∷ 3 ∷ []);
  has_pending_jobs = false;
}

tables_example : Kept (
    replay_agent_turn small_stores small_turn
      (prepare_generation_cache small_stores small_request prompt empty).cache
      (finalize_generation_cache small_stores small_request
        (prepare_generation_cache small_stores small_request prompt empty).effective_prompt
        (prepare_generation_cache small_stores small_request prompt empty).cache
        good_end
        (record (prepare_generation_cache small_stores small_request prompt empty).caches {
          outside = 1;
        })))
tables_example =
    request-Kept small_stores small_request prompt 1 good_end small_turn empty
      (λ i a. absurd (cc), omega arith)
