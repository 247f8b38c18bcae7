-- ===== src/LongTask/Invariant.antt =====
-- What holds of every ledger that a journal rebuilds, and what a counted request adds to one.
pub mod Counts
pub mod Events
use danso.Prelude.{
  ℕ, suc, ◌+◌, ◌*◌, ◌≤◌, ◌<◌, ◌≡◌, ◌⊎◌, refl, String, leb, Bool, true, false, Option, none, some,
  List, [], ◌∷◌, arith, leb→le, str_eq, saturating_mul, u64_mod, is_some,
}
use danso.Prelude.Result.{Result, ok, err, >>=-eq-ok, ◌>>=◌}
use danso.Json.{Value}
use danso.LongTask.Ledger.{
  Limits, State, no_task, ready, pending_provider, pending_tools, final_pending, paused, completed,
  failed, Ledger, default, ensure_elapsed, add_request, total, TokenDelta, integer, string, tokens,
  exact_keys,
}
use danso.LongTask.Apply.{
  is_response_kind, settled_state, count_settled, count_interrupted, count_failed, apply,
  apply_created, apply_request_started, apply_request_settled, apply_provider_interrupted,
  apply_request_failed, apply_stage_checkpoint, apply_tool_batch, apply_paused, apply_failed,
  apply_completed, apply_event, replay, is_fingerprint, from_records,
}

-- The bounds of the five limits that the program allows.
pub record IsLegal (m : Limits) : Type 0 where
  pub wall_pos : 1 ≤ m.wall_seconds
  pub wall_le : m.wall_seconds ≤ 21600
  pub stage_pos : 1 ≤ m.stage_requests
  pub stage_le : m.stage_requests ≤ 1024
  pub requests_pos : 1 ≤ m.max_requests
  pub requests_le : m.max_requests ≤ 2048
  pub tokens_pos : 1 ≤ m.max_tokens
  pub tokens_le : m.max_tokens ≤ 25_000_000
  pub repeat_ge : 2 ≤ m.repeat_limit
  pub repeat_le : m.repeat_limit ≤ 8

pub record IsBounded (l : Ledger) (m : Limits) : Type 0 where
  pub legal : IsLegal m
  pub requests : l.requests ≤ m.max_requests
  pub stage_requests : l.stage_requests ≤ m.max_requests + l.requests
  pub elapsed : l.elapsed_ms ≤ m.wall_seconds * 1000
  pub repeat : l.repeat_count ≤ m.repeat_limit
  pub interrupted : l.interrupted_requests ≤ 3
  pub tokens : l.reported_tokens < u64_mod

-- Nothing has been counted before a creation record.
pub record IsFresh (l : Ledger) : Type 0 where
  pub state : l.state ≡ no_task
  pub requests : l.requests ≡ 0
  pub stage_requests : l.stage_requests ≡ 0
  pub elapsed : l.elapsed_ms ≡ 0
  pub repeat : l.repeat_count ≡ 0
  pub interrupted : l.interrupted_requests ≡ 0
  pub tokens : l.reported_tokens ≡ 0

abbrev pub Bounded : Ledger → Option Limits → Type 0
Bounded l none = IsFresh l
Bounded l (some m) = IsBounded l m × (l.state ≡ no_task → ⊥)

pub record IsWellFormed (l : Ledger) : Type 0 where
  pub bounded : Bounded l l.limits
  pub pending_state : l.state ≡ pending_provider → is_some l.pending_sequence ≡ true
  pub state_pending : is_some l.pending_sequence ≡ true → l.state ≡ pending_provider

-- What a counted request adds.
pub record IsCounted (l c : Ledger) (elapsed : ℕ) (m : Limits) : Type 0 where
  pub room : l.requests < m.max_requests
  pub requests : c.requests ≡ l.requests + 1
  pub stage_requests : c.stage_requests ≡ l.stage_requests + 1
  pub tokens_fit : c.reported_tokens < u64_mod
  pub tokens_grow : l.reported_tokens ≤ c.reported_tokens
  pub elapsed_is : c.elapsed_ms ≡ elapsed
  pub limits : c.limits ≡ l.limits
  pub repeat : c.repeat_count ≡ l.repeat_count
  pub interrupted : c.interrupted_requests ≡ l.interrupted_requests

pub add_request-IsCounted :
    (l : Ledger) (elapsed : ℕ) (delta : TokenDelta) (m : Limits) (c : Ledger)
    → add_request l elapsed delta m ≡ ok c
    → IsCounted l c elapsed m
unfolding add_request
add_request-IsCounted l elapsed delta m c h = ground arith
