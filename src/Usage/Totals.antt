-- ===== src/Usage/Totals.antt =====
-- src/usage.rs: the totals of `Usage` over the requests of a run.
use danso.Prelude.{
  ℕ, ◌≡◌, refl, ◌+◌, ◌≤◌, ◌<◌, String, Bool, true, false, none, some, List, [], ◌∷◌, u64_mod,
  if◌then◌else◌, ltb, arith, ltb→lt, ◌⊎◌, inl, inr,
}
use danso.Prelude.Result.{Result, ok, err, context, >>=-eq-ok, ok-eq}
use danso.Usage.{Usage, TokenUsage, add, added, store, add_u64, with_model}

within-eq-ok :
    (t : Bool) (x c : ℕ) (text : String)
    → context (if t then some x else none) text ≡ ok c
    → (t ≡ true) × (c ≡ x)
within-eq-ok true x c text h = (refl, cc)
within-eq-ok false x c text h = cc

add_u64-eq : (a b c : ℕ) → add_u64 a b ≡ ok c → (c ≡ a + b) × (a + b < u64_mod)
add_u64-eq a b c h =
    let (within, same) = within-eq-ok (ltb (a + b) u64_mod) (a + b) c _ h in
    (same, ltb→lt _ _ within)

-- The totals are those of the requests: the sum of the four counters is the total.
pub record IsSummed (u : Usage) : Type 0 where
  pub summed : u.total ≡ u.input + u.output + u.cache_read + u.cache_write

-- What one addition that does not overflow does to the totals.
pub record Counts (u u' : Usage) (t : TokenUsage) : Type 0 where
  pub requests : u'.requests ≡ u.requests + 1
  pub input : u'.input ≡ u.input + t.input
  pub output : u'.output ≡ u.output + t.output
  pub cache_read : u'.cache_read ≡ u.cache_read + t.cache_read
  pub cache_write : u'.cache_write ≡ u.cache_write + t.cache_write
  pub total : u'.total ≡ u'.input + u'.output + u'.cache_read + u'.cache_write
  pub within : u'.total < u64_mod

of_sums-Counts :
    (u u' : Usage) (t : TokenUsage)
    (requests input output cache_read cache_write input_output with_read total : ℕ)
    (models : List String)
    → add_u64 u.requests 1 ≡ ok requests
    → add_u64 u.input t.input ≡ ok input
    → add_u64 u.output t.output ≡ ok output
    → add_u64 u.cache_read t.cache_read ≡ ok cache_read
    → add_u64 u.cache_write t.cache_write ≡ ok cache_write
    → add_u64 input output ≡ ok input_output
    → add_u64 input_output cache_read ≡ ok with_read
    → add_u64 with_read cache_write ≡ ok total
    → u' ≡ record u {
      requests = requests;
      input = input;
      output = output;
      cache_read = cache_read;
      cache_write = cache_write;
      total = total;
      models = models;
    }
    → Counts u u' t
of_sums-Counts u u' t requests input output cache_read cache_write input_output with_read total
      models a b c d e f g i after =
    let io = (add_u64-eq input output input_output f).0 in
    let wr = (add_u64-eq input_output cache_read with_read g).0 in
    let (sum, small) = add_u64-eq with_read cache_write total i in
    rw after (record {
      requests = (add_u64-eq _ _ requests a).0;
      input = (add_u64-eq _ _ input b).0;
      output = (add_u64-eq _ _ output c).0;
      cache_read = (add_u64-eq _ _ cache_read d).0;
      cache_write = (add_u64-eq _ _ cache_write e).0;
      total = omega (arith, io, wr, sum);
      within = omega (arith, sum, small);
    })

added-Counts :
    (u u' : Usage) (pair : String) (t : TokenUsage) → added u pair t ≡ ok u' → Counts u u' t
unfolding added
added-Counts u u' pair t h =
    let (requests, a, h₁) = >>=-eq-ok (add_u64 u.requests 1) _ h in
    let (input, b, h₂) = >>=-eq-ok (add_u64 u.input t.input) _ h₁ in
    let (output, c, h₃) = >>=-eq-ok (add_u64 u.output t.output) _ h₂ in
    let (cache_read, d, h₄) = >>=-eq-ok (add_u64 u.cache_read t.cache_read) _ h₃ in
    let (cache_write, e, h₅) = >>=-eq-ok (add_u64 u.cache_write t.cache_write) _ h₄ in
    let (input_output, f, h₆) = >>=-eq-ok (add_u64 input output) _ h₅ in
    let (with_read, g, h₇) = >>=-eq-ok (add_u64 input_output cache_read) _ h₆ in
    let (total, i, h₈) = >>=-eq-ok (add_u64 with_read cache_write) _ h₇ in
    of_sums-Counts u u' t requests input output cache_read cache_write input_output with_read total
      (with_model u.models pair) a b c d e f g i (ok-eq _ _ h₈)

stored-cases :
    (u : Usage) (pair : String) (t : TokenUsage) (r : Result Usage)
    → added u pair t ≡ r
    → Counts u ((store u r).1) t ⊎ ((store u r).1 ≡ u)
stored-cases u pair t (err f) h = inr refl
stored-cases u pair t (ok after) h = inl (added-Counts u after pair t h)

add-cases :
    (u : Usage) (pair : String) (t : TokenUsage)
    → Counts u ((add u pair t).1) t ⊎ ((add u pair t).1 ≡ u)
unfolding add
add-cases u pair t = stored-cases u pair t (added u pair t) refl

-- The sum of the counters is the total after every request, whether it is counted or refused.
pub add-IsSummed :
    (u : Usage) (pair : String) (t : TokenUsage) → IsSummed u → IsSummed ((add u pair t).1)
add-IsSummed u pair t s = elim (add-cases u pair t) [
  | inl counted ↦ record { summed = counted.total }
  | inr refused ↦ rw refused s
]

-- The requests of a run, one after another.
abbrev pub add_all : Usage → List (String × TokenUsage) → Usage
add_all u [] = u
add_all u ((pair, t) ∷ ts) = add_all ((add u pair t).1) ts

-- The counters never fall.
pub record Grows (u u' : Usage) : Type 0 where
  pub input : u.input ≤ u'.input
  pub output : u.output ≤ u'.output
  pub cache_read : u.cache_read ≤ u'.cache_read
  pub cache_write : u.cache_write ≤ u'.cache_write

add-Grows : (u : Usage) (pair : String) (t : TokenUsage) → Grows u ((add u pair t).1)
add-Grows u pair t = elim (add-cases u pair t) [
  | inl counted ↦ record {
    input = omega (arith, counted.input);
    output = omega (arith, counted.output);
    cache_read = omega (arith, counted.cache_read);
    cache_write = omega (arith, counted.cache_write);
  }
  | inr refused ↦ rw refused (record {
    input = omega arith;
    output = omega arith;
    cache_read = omega arith;
    cache_write = omega arith;
  })
]

Grows-trans : (u v w : Usage) → Grows u v → Grows v w → Grows u w
Grows-trans u v w a b = record {
  input = omega (arith, a.input, b.input);
  output = omega (arith, a.output, b.output);
  cache_read = omega (arith, a.cache_read, b.cache_read);
  cache_write = omega (arith, a.cache_write, b.cache_write);
}

pub add_all-Grows : (u : Usage) (ts : List (String × TokenUsage)) → Grows u (add_all u ts)
add_all-Grows u [] = record {
  input = omega arith;
  output = omega arith;
  cache_read = omega arith;
  cache_write = omega arith;
}
add_all-Grows u ((pair, t) ∷ ts) =
    Grows-trans u _ _ (add-Grows u pair t) (add_all-Grows ((add u pair t).1) ts)

pub add_all-IsSummed :
    (u : Usage) (ts : List (String × TokenUsage)) → IsSummed u → IsSummed (add_all u ts)
add_all-IsSummed u [] s = s
add_all-IsSummed u ((pair, t) ∷ ts) s =
    add_all-IsSummed ((add u pair t).1) ts (add-IsSummed u pair t s)
