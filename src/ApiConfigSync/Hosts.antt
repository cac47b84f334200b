-- ===== src/ApiConfigSync/Hosts.antt =====
-- examples/apiconfigsync/src/url_policy.rs: the tests of host names, as bytes.
pub mod Patterns
use koprs.Prelude.{
  ℕ, ◌+◌, ◌-◌, Bool, true, false, not, ◌&&◌, ◌||◌, Option, none, some, List, [], ◌∷◌, ltb, leb,
  ◌==◌, length, if◌then◌else◌,
}
use koprs.Prelude.Texts.{Text, codes, text_eq, ends_with, contains, trim_end_matches, byte_at}

-- `strip_prefix("*.")`.
abbrev pub strip_wildcard : Text → Option Text
strip_wildcard (x ∷ y ∷ rest) = if x == b'*' && y == b'.' then some rest else none
strip_wildcard _ = none

abbrev pub is_dot : Option ℕ → Bool
is_dot none = false
is_dot (some b) = b == b'.'

abbrev pub matches_as : Option Text → Text → Text → Bool
matches_as (some suffix) pattern host =
    ltb (length suffix + 1) (length host)
    && ends_with host suffix
    && is_dot (byte_at host (length host - length suffix - 1))
matches_as none pattern host = text_eq pattern host

unfoldable pub host_matches : Text → Text → Bool
unfolding ends_with
host_matches pattern host = matches_as (strip_wildcard pattern) pattern host

unfoldable pub is_internal_hostname : Text → Bool
unfolding ends_with trim_end_matches
is_internal_hostname name =
    let host = trim_end_matches b'.' name in
    text_eq host (codes "localhost")
    || ends_with host (codes ".localhost")
    || ends_with host (codes ".local")
    || ends_with host (codes ".internal")
    || ends_with host (codes ".svc")
    || ends_with host (codes ".cluster.local")
    || not (contains b'.' host)
