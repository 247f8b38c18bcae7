-- ===== src/Compaction/Elision.antt =====
-- src/compaction.rs: the elision of old tool results in what the summarizer reads.
use Prim.Native.String.{◌∷◌ as str_cons, [] as str_nil, ◌++◌ as str_append, len}
use Prim.Native.Char.{len_utf8}
use danso.Prelude.{
  ℕ, ◌+◌, ◌-◌, ◌≤◌, ◌≡◌, refl, ap, leb, le→leb, max, ◌==◌, Bool, true, not, Option, none, some,
  List, [], ◌∷◌, ◌++◌, String, if◌then◌else◌, arith, Bool-cases, inl, inr, subst,
}
use danso.Json.{Value, num, str, arr, index, get, is_str, insert, of_list, to_list}
use danso.Compaction.{Printer, floor_prefix}

pub record EvidencePolicy : Type 0 where
  pub keep_recent_tool_results : ℕ
  pub head_bytes : ℕ
  pub tail_bytes : ℕ

abbrev pub default_policy : EvidencePolicy
default_policy = record { keep_recent_tool_results = 4; head_bytes = 1536; tail_bytes = 1536 }

-- `text[ceil_boundary(text, index)..]`
unfoldable pub ceil_suffix : ℕ → String → String
ceil_suffix n str_nil = str_nil
ceil_suffix n (str_cons c s) =
    let rest = ceil_suffix (n - len_utf8 c) s in if n == 0 then str_cons c s else rest

-- The messages after the elision, how many tool results there are, and how many bytes are gone.
pub record Elided : Type 0 where
  pub evidence : List Value
  pub seen : ℕ
  pub removed_total : ℕ

abbrev pub is_result : Value → Bool
is_result m = is_str (index m "role") "toolResult"

module _ (printer : Printer) (policy : EvidencePolicy) where
  abbrev cut : String → String → String → Option (String × ℕ)
  cut text head tail =
      let removed : ℕ = len text - len tail - len head in
      some (
        str_append head (
            str_append "\n[... " (
              str_append (printer.to_string (num removed)) (
                str_append
                  " bytes of older tool output elided before checkpoint summarization; the session journal keeps the full text ...]\n"
                  tail))),
        removed,
      )

  unfoldable pub elide_text : String → Option (String × ℕ)
  elide_text text =
      let head : String = floor_prefix policy.head_bytes text in
      if leb (len text) (policy.head_bytes + policy.tail_bytes + 256)
      then none
      else cut text head (ceil_suffix (max (len text - policy.tail_bytes) (len head)) text)

  abbrev replaced : Value → Option (String × ℕ) → Value × ℕ
  replaced v none = (v, 0)
  replaced v (some (excerpt, removed)) = (str excerpt, removed)

  abbrev elide_string : Value → Value × ℕ
  elide_string (str text) = replaced (str text) (elide_text text)
  elide_string v = (v, 0)

  abbrev with_text : Value → Option Value → Value × ℕ
  with_text block none = (block, 0)
  with_text block (some text) =
      let (v, removed) = elide_string text in (insert block "text" v, removed)

  unfoldable pub elide_block : Value → Value × ℕ
  elide_block block =
      if is_str (index block "type") "text" then with_text block (get block "text") else (block, 0)

  unfoldable pub elide_blocks : List Value → List Value × ℕ
  elide_blocks [] = ([], 0)
  elide_blocks (block ∷ blocks) =
      let (b, removed) = elide_block block in
      let (bs, more) = elide_blocks blocks in (b ∷ bs, more + removed)

  unfoldable pub elide_content : Value → Value × ℕ
  elide_content (str text) = elide_string (str text)
  elide_content (arr blocks) =
      let (bs, removed) = elide_blocks (to_list blocks) in (arr (of_list bs), removed)
  elide_content content = (content, 0)

  -- One round of the loop, from the last message to the first.
  unfoldable pub elide_message : Value → Elided → Elided
  elide_message m e =
      if not (is_result m)
      then record e { evidence = m ∷ e.evidence }
      else if leb (e.seen + 1) policy.keep_recent_tool_results
      then record e { evidence = m ∷ e.evidence; seen = e.seen + 1 }
      else (let (content, removed) = elide_content (index m "content") in
          record {
            evidence = insert m "content" content ∷ e.evidence;
            seen = e.seen + 1;
            removed_total = e.removed_total + removed;
          })

  unfoldable pub elide_stale_tool_results : List Value → Elided
  elide_stale_tool_results [] = record { evidence = []; seen = 0; removed_total = 0 }
  elide_stale_tool_results (m ∷ ms) = elide_message m (elide_stale_tool_results ms)

  -- Each message is as it was, or a tool result with another content.
  pub data Edits : List Value → List Value → Type 0 where
    nothing : Edits [] []
    same : (m : Value) {ms ns : List Value} → Edits ms ns → Edits (m ∷ ms) (m ∷ ns)
    edited :
        (m content : Value) {ms ns : List Value}
        → is_result m ≡ true
        → Edits ms ns
        → Edits (m ∷ ms) (insert m "content" content ∷ ns)

  abbrev pub results_in : List Value → ℕ
  results_in [] = 0
  results_in (m ∷ ms) = if is_result m then results_in ms + 1 else results_in ms

  recent_verbatim :
      (ms : List Value)
      → results_in ms ≤ policy.keep_recent_tool_results
      → elide_stale_tool_results ms
        ≡ record { evidence = ms; seen = results_in ms; removed_total = 0 }
  unfolding elide_stale_tool_results elide_message
  recent_verbatim [] h = refl
  recent_verbatim (m ∷ ms) h = elim (Bool-cases (is_result m)) [
    | inl result ↦
        let counted : results_in ms + 1 ≤ policy.keep_recent_tool_results =
          subst
            (λ b.
              (if b then results_in ms + 1 else results_in ms) ≤ policy.keep_recent_tool_results)
            result h in
        rw (recent_verbatim ms (omega (arith, counted)), result, le→leb _ _ counted) refl
    | inr other ↦
        let counted : results_in ms ≤ policy.keep_recent_tool_results =
          subst
            (λ b.
              (if b then results_in ms + 1 else results_in ms) ≤ policy.keep_recent_tool_results)
            other h in
        rw (recent_verbatim ms counted, other) refl
  ]

  -- What the loop has made of the messages before some recent ones.
  Splits : List Value → List Value → Elided → Type 0
  Splits older recent e = (kept : List Value) × (e.evidence ≡ kept ++ recent) × Edits older kept

  elide_message-Splits :
      (m : Value) (older recent : List Value) (e : Elided)
      → Splits older recent e
      → Splits (m ∷ older) recent (elide_message m e)
  unfolding elide_message Splits
  elide_message-Splits m older recent e (kept, listed, edits) = elim (Bool-cases (is_result m)) [
    | inr other ↦ rw other (m ∷ kept, ap (λ xs. m ∷ xs) listed, same m edits)
    | inl result ↦ elim (Bool-cases (leb (e.seen + 1) policy.keep_recent_tool_results)) [
      | inl recent_one ↦ rw (result, recent_one) (m ∷ kept, ap (λ xs. m ∷ xs) listed, same m edits)
      | inr old ↦
          rw (result, old)
            (
              insert m "content" (elide_content (index m "content")).0 ∷ kept,
              ap (λ xs. insert m "content" (elide_content (index m "content")).0 ∷ xs) listed,
              edited m (elide_content (index m "content")).0 result edits,
            )
    ]
  ]

  -- The elision keeps the recent messages as they are, where they have no more tool results than the policy
  -- keeps; before them every message keeps its place, and only a tool result may get another content.
  pub elide_stale_tool_results-Edits :
      (older recent : List Value)
      → results_in recent ≤ policy.keep_recent_tool_results
      → (kept : List Value) × ((elide_stale_tool_results (older ++ recent)).evidence
          ≡ kept ++ recent)
        × Edits older kept
  unfolding elide_stale_tool_results Splits
  elide_stale_tool_results-Edits [] recent few =
      ([], ap (λ (e : Elided). e.evidence) (recent_verbatim recent few), nothing)
  elide_stale_tool_results-Edits (m ∷ older) recent few =
      elide_message-Splits m older recent (elide_stale_tool_results (older ++ recent))
        (elide_stale_tool_results-Edits older recent few)
