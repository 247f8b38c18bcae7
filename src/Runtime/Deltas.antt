-- ===== src/Runtime/Deltas.antt =====
-- src/runtime.rs with src/usage.rs: the tokens of a request.
use danso.Prelude.{ℕ, String, ◌≡◌, refl, false, List, ◌+◌, ◌-◌, ◌≤◌, ltb, arith}
use danso.Prelude.Result.{ok}
use danso.Usage.{Usage, TokenUsage, snapshot}
use danso.Usage.Totals.{add_all, add_all-Grows}
use danso.LongTask.Ledger.{TokenDelta}
use danso.Runtime.Gate.{token_delta}

le→ltb_false : {a b : ℕ} → a ≤ b → ltb b a ≡ false
le→ltb_false {a = a} {b = b} h = ground arith

-- The usage that a request reports never moves backwards: after any requests that are counted or refused,
-- token_delta is what each counter has grown by.
pub token_delta-grows :
    (u : Usage) (ts : List (String × TokenUsage))
    → (delta : TokenDelta) × (token_delta (snapshot u) (snapshot (add_all u ts)) ≡ ok delta)
      × (u.input + delta.input ≡ (add_all u ts).input)
      × (u.output + delta.output ≡ (add_all u ts).output)
      × (u.cache_read + delta.cache_read ≡ (add_all u ts).cache_read)
      × (u.cache_write + delta.cache_write ≡ (add_all u ts).cache_write)
unfolding token_delta
token_delta-grows u ts =
    let g = add_all-Grows u ts in
    (
      record {
        input = (add_all u ts).input - u.input;
        output = (add_all u ts).output - u.output;
        cache_read = (add_all u ts).cache_read - u.cache_read;
        cache_write = (add_all u ts).cache_write - u.cache_write;
      },
      rw
          (
            le→ltb_false g.input,
            le→ltb_false g.output,
            le→ltb_false g.cache_read,
            le→ltb_false g.cache_write,
          )
          refl,
      omega (arith, g.input),
      omega (arith, g.output),
      omega (arith, g.cache_read),
      omega (arith, g.cache_write),
    )
