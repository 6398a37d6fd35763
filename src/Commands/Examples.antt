-- ===== src/Commands/Examples.antt =====
-- Concrete runs of the theorems on packages/core/src/commands.ts.
use careerscope.Commands.Laws.{doubled, parse_request-idempotent, IsSorted, retry_delay-doubled}
use careerscope.Commands.{as_input, sort_sources, retry_delay, parse_request, RequestInput}
use careerscope.Base.{◌/◌, none, some, [], ◌∷◌, refl, arith, ◌≡◌, ℕ, ◌≤◌}
use careerscope.Search.State.{lever, ashby, Request, Text, Origin}

abbrev equal_text : Text → Text
equal_text t = t

abbrev sample_input : RequestInput
sample_input = record {
  query = 100 ∷ 101 ∷ [];
  use_profile_titles = none;
  origin = none;
  sources = lever ∷ ashby ∷ [];
}

abbrev sample_request : Request
sample_request = record {
  query = 100 ∷ 101 ∷ [];
  use_profile_titles = none;
  origin = Origin.manual;
  sources = ashby ∷ lever ∷ [];
}

parse_request-idempotent_example :
    (parse_request equal_text (as_input sample_request) ≡ some sample_request)
    × IsSorted sample_request.sources
unfolding parse_request sort_sources
parse_request-idempotent_example =
    parse_request-idempotent equal_text sample_input sample_request (λ q. refl) refl

abbrev half : ℕ → ℕ
half n = n / 2

retry_delay-doubled_example :
    (retry_delay half 0 ≡ none)
    × (retry_delay half 4 ≡ some (half (doubled 3)))
    × (half (doubled 3) ≤ 300000)
retry_delay-doubled_example = retry_delay-doubled half 3 (λ n. omega arith)
