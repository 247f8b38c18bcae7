-- ===== src/Usage.antt =====
-- src/usage.rs: the usage totals and the receipt of a run.
pub mod Totals
use danso.Prelude.{
  ℕ, String, ◌+◌, Bool, true, false, Option, some, none, List, [], ◌∷◌, ◌++◌, checked_add,
  saturating_add, saturating_add32, if◌then◌else◌,
}
use danso.Prelude.Result.{Result, ok, err, ◌>>=◌, ◌>>◌, context}
use danso.Json.{contains}

pub record CompactionStats : Type 0 where
  pub compactions : ℕ
  pub failures : ℕ
  pub summary_input_tokens : ℕ
  pub summary_output_tokens : ℕ
  pub evidence_bytes : ℕ
  pub elided_bytes : ℕ

pub record Timing : Type 0 where
  pub provider_ms : ℕ
  pub provider_requests : ℕ
  pub retry_wait_ms : ℕ
  pub tool_ms : ℕ
  pub tool_calls : ℕ
  pub journal_ms : ℕ
  pub startup_ms : ℕ

pub record UsageSnapshot : Type 0 where
  pub requests : ℕ
  pub input : ℕ
  pub output : ℕ
  pub cache_read : ℕ
  pub cache_write : ℕ
  pub total : ℕ

pub record TokenUsage : Type 0 where
  pub input : ℕ
  pub output : ℕ
  pub cache_read : ℕ
  pub cache_write : ℕ

pub record Usage : Type 0 where
  pub attempted : Bool
  pub requests : ℕ
  pub input : ℕ
  pub output : ℕ
  pub cache_read : ℕ
  pub cache_write : ℕ
  pub models : List String
  pub total : ℕ
  pub summary_requests : ℕ
  pub memory_requests : ℕ
  pub length_stops : ℕ
  pub continuations : ℕ
  pub timing : Timing
  pub compaction : CompactionStats

abbrev pub default : Usage
default = record {
  attempted = false;
  requests = 0;
  input = 0;
  output = 0;
  cache_read = 0;
  cache_write = 0;
  models = [];
  total = 0;
  summary_requests = 0;
  memory_requests = 0;
  length_stops = 0;
  continuations = 0;
  timing = record {
    provider_ms = 0;
    provider_requests = 0;
    retry_wait_ms = 0;
    tool_ms = 0;
    tool_calls = 0;
    journal_ms = 0;
    startup_ms = 0;
  };
  compaction = record {
    compactions = 0;
    failures = 0;
    summary_input_tokens = 0;
    summary_output_tokens = 0;
    evidence_bytes = 0;
    elided_bytes = 0;
  };
}

abbrev pub snapshot : Usage → UsageSnapshot
snapshot u = record {
  requests = u.requests;
  input = u.input;
  output = u.output;
  cache_read = u.cache_read;
  cache_write = u.cache_write;
  total = u.total;
}

abbrev pub add_u64 : ℕ → ℕ → Result ℕ
add_u64 a b = context (checked_add a b) "provider usage overflow"

abbrev pub with_model : List String → String → List String
with_model models pair = if contains models pair then models else models ++ (pair ∷ [])

-- The usage after the addition, where no total overflows; `pair` is `{provider}/{model}`.
unfoldable pub added : Usage → String → TokenUsage → Result Usage
added u pair tokens = do
  requests ← add_u64 u.requests 1
  input ← add_u64 u.input tokens.input
  output ← add_u64 u.output tokens.output
  cache_read ← add_u64 u.cache_read tokens.cache_read
  cache_write ← add_u64 u.cache_write tokens.cache_write
  input_output ← add_u64 input output
  with_read ← add_u64 input_output cache_read
  total ← add_u64 with_read cache_write
  ok (record u {
    requests = requests;
    input = input;
    output = output;
    cache_read = cache_read;
    cache_write = cache_write;
    total = total;
    models = with_model u.models pair;
  })

abbrev pub store : Usage → Result Usage → Result (Unit {0}) × Usage
store u (err e) = (err e, u)
store u (ok after) = (ok tt, after)

-- `Usage::add`
unfoldable pub add : Usage → String → TokenUsage → Result (Unit {0}) × Usage
add u pair tokens = store u (added u pair tokens)

abbrev pub record_summary_request : Usage → Usage
record_summary_request u = record u { summary_requests = saturating_add32 u.summary_requests 1 }

abbrev pub record_memory_request : Usage → Usage
record_memory_request u = record u { memory_requests = saturating_add32 u.memory_requests 1 }

abbrev pub record_provider_request : Usage → ℕ → Usage
record_provider_request u elapsed_ms = record u {
  timing = record u.timing {
    provider_requests = saturating_add u.timing.provider_requests 1;
    provider_ms = saturating_add u.timing.provider_ms elapsed_ms;
  };
}

abbrev pub record_retry_wait : Usage → ℕ → Usage
record_retry_wait u waited_ms = record u {
  timing = record u.timing { retry_wait_ms = saturating_add u.timing.retry_wait_ms waited_ms };
}

abbrev pub record_tool_execution : Usage → ℕ → Usage
record_tool_execution u elapsed_ms = record u {
  timing = record u.timing {
    tool_calls = saturating_add u.timing.tool_calls 1;
    tool_ms = saturating_add u.timing.tool_ms elapsed_ms;
  };
}

abbrev pub record_journal_append : Usage → ℕ → Usage
record_journal_append u elapsed_ms = record u {
  timing = record u.timing { journal_ms = saturating_add u.timing.journal_ms elapsed_ms };
}

abbrev pub record_startup : Usage → ℕ → Usage
record_startup u elapsed_ms = record u { timing = record u.timing { startup_ms = elapsed_ms } }

abbrev pub record_length_stop : Usage → Usage
record_length_stop u = record u { length_stops = saturating_add32 u.length_stops 1 }

abbrev pub record_continuation : Usage → Usage
record_continuation u = record u { continuations = saturating_add32 u.continuations 1 }

abbrev pub budget_counts : Usage → ℕ × ℕ × ℕ
budget_counts u = (u.summary_requests, u.length_stops, u.continuations)

abbrev pub record_compaction : Usage → Usage
record_compaction u = record u {
  compaction = record u.compaction { compactions = saturating_add32 u.compaction.compactions 1 };
}

abbrev pub record_compaction_failure : Usage → Usage
record_compaction_failure u = record u {
  compaction = record u.compaction { failures = saturating_add32 u.compaction.failures 1 };
}

abbrev pub record_summary_tokens : Usage → ℕ → ℕ → Usage
record_summary_tokens u input output = record u {
  compaction = record u.compaction {
    summary_input_tokens = saturating_add u.compaction.summary_input_tokens input;
    summary_output_tokens = saturating_add u.compaction.summary_output_tokens output;
  };
}

abbrev pub record_compaction_evidence : Usage → ℕ → ℕ → Usage
record_compaction_evidence u evidence_bytes elided_bytes = record u {
  compaction = record u.compaction {
    evidence_bytes = saturating_add u.compaction.evidence_bytes evidence_bytes;
    elided_bytes = saturating_add u.compaction.elided_bytes elided_bytes;
  };
}
