-- ===== src/Commands.antt =====
-- packages/core/src/commands.ts: the schema of a search request and the delay before a retry.
use careerscope.Base.{
  ℕ, zero, suc, ◌-◌, ◌*◌, ◌^◌, min, Bool, true, false, not, ◌&&◌, ◌||◌, Option, none, some, List,
  [], ◌∷◌, ltb, leb, ◌==◌, if◌then◌else◌, any, length, get_or,
}
use careerscope.Search.State.{Source, source_code, is_source, Origin, Text, Request}
pub mod Laws
mod Examples

-- What a caller hands in: the optional fields are optional here.
pub record RequestInput : Type 0 where
  pub query : Text
  pub use_profile_titles : Option Bool
  pub origin : Option Origin
  pub sources : List Source

abbrev pub distinct : List Source → Bool
distinct [] = true
distinct (s ∷ ss) = not (any (is_source s) ss) && distinct ss

-- `sources.sort()`: by name.
unfoldable pub insert_source : Source → List Source → List Source
insert_source s [] = s ∷ []
insert_source s (t ∷ ts) =
    if leb (source_code s) (source_code t) then s ∷ t ∷ ts else t ∷ insert_source s ts

unfoldable pub sort_sources : List Source → List Source
unfolding insert_source
sort_sources [] = []
sort_sources (s ∷ ss) = insert_source s (sort_sources ss)

-- `createSearchSchema.parse`; `trim` is JavaScript's. A query has 2 to 160 code units.
unfoldable pub parse_request : (Text → Text) → RequestInput → Option Request
unfolding sort_sources
parse_request trim input =
    let query = trim input.query in
    if ltb (length query) 2
      || ltb 160 (length query)
      || ltb (length input.sources) 1
      || ltb 6 (length input.sources)
      || not (distinct input.sources)
    then none
    else some (record {
      query = query;
      use_profile_titles = input.use_profile_titles;
      origin = get_or input.origin Origin.manual;
      sources = sort_sources input.sources;
    })

-- A parsed request, handed in once more.
abbrev pub as_input : Request → RequestInput
as_input r = record {
  query = r.query;
  use_profile_titles = r.use_profile_titles;
  origin = some r.origin;
  sources = r.sources;
}

-- The most that the attempt waits: one second, doubled for each attempt before, at most 5 minutes.
unfoldable pub delay_cap : ℕ → ℕ
delay_cap attempt = min 300000 (1000 * 2 ^ min (attempt - 1) 9)

-- `retryDelay`; `jitter n` is `Math.floor(n * random())`. `none` is the thrown error.
unfoldable pub retry_delay : (ℕ → ℕ) → ℕ → Option ℕ
unfolding delay_cap
retry_delay jitter attempt = if ltb attempt 1 then none else some (jitter (delay_cap attempt))
