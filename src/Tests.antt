-- ===== src/Tests.antt =====
-- The unit tests of the crates, run on the model: each test function is a Boolean, and the tests of a
-- file are one equation. What a test asserts of a text is asked of the text here.
pub mod Session
pub mod Registry
pub mod RateLimiter
pub mod Codec
pub mod Store
pub mod Config
pub mod Connection
pub mod Listener
pub mod Values
pub mod Cli
use liaozhai.Auth.RateLimiter.{is_some}
use liaozhai.Common.{Bool, List, Text, [], is_empty, true, ◌&&◌, ◌||◌, ◌∷◌}
use liaozhai.Text.Template.{strip_prefix}

-- `str::starts_with`
unfoldable pub starts_with : Text → Text → Bool
unfolding strip_prefix
starts_with s prefix_ = is_some (strip_prefix prefix_ s)

-- `str::contains`
unfoldable pub contains_text : Text → Text → Bool
unfolding starts_with
contains_text [] part = is_empty part
contains_text (c ∷ cs) part = starts_with (c ∷ cs) part || contains_text cs part

-- Every test passes.
unfoldable pub every : List Bool → Bool
every [] = true
every (b ∷ bs) = b && every bs
