-- ===== src/Url.antt =====
-- lib/url.c: the parts of a URL.
pub mod RoundTrip
mod Examples
use bitl_steam.Common.{
  ℕ, Bool, false, ◌&&◌, Option, none, some, [], ◌∷◌, Bytes, codes, length, take, ltb, ◌==◌,
  if◌then◌else◌,
}
use bitl_steam.Common.Split.{in_front, split_at}
use bitl_steam.Common.Outcome.{Outcome, done, ◌>>=◌}
use bitl_steam.Stdio.{ℤ, pos, negsuc, scan_int}
use bitl_steam.Glib.{Glib}

-- `MAX_STRING`
abbrev pub max_string : ℕ
max_string = 511

pub data Proto : Type 0 where
  http https socks4 socks5 : Proto

-- `url_t`
pub record Url : Type 0 where
  pub proto : Proto
  pub port : ℤ
  pub host : Bytes
  pub file : Bytes
  pub user : Bytes
  pub pass : Bytes

-- `strstr(s, "://")`: what is in front of it and behind it.
unfoldable pub split_scheme : Bytes → Option (Bytes × Bytes)
split_scheme [] = none
split_scheme (a ∷ []) = none
split_scheme (a ∷ b ∷ []) = none
split_scheme (a ∷ b ∷ c ∷ s) =
    let rest = split_scheme (b ∷ c ∷ s) in
    if a == b':' && b == b'/' && c == b'/' then some ([], s) else in_front a rest

-- `strrchr(s, c)`: what is in front of the last one and behind it.
unfoldable pub or_here : ℕ → ℕ → Bytes → Option (Bytes × Bytes) → Option (Bytes × Bytes)
or_here c x s none = if x == c then some ([], s) else none
or_here c x s (some r) = some (x ∷ r.0, r.1)

unfoldable pub split_last : ℕ → Bytes → Option (Bytes × Bytes)
split_last c [] = none
split_last c (x ∷ s) = or_here c x s (split_last c s)

-- The host with the port, and the file from the slash on.
unfoldable pub split_file : Bytes → Option (Bytes × Bytes) → Bytes × Bytes
split_file s none = (s, codes "/")
split_file s (some r) = (r.0, b'/' ∷ r.1)

-- The user with the password, and the host with the port.
unfoldable pub split_user : Bytes → Option (Bytes × Bytes) → Bytes × Bytes
split_user s none = ([], s)
split_user s (some r) = r

-- A text, and what is behind its first colon, empty without one.
unfoldable pub or_all : Bytes → Option (Bytes × Bytes) → Bytes × Bytes
or_all s none = (s, [])
or_all s (some r) = r

unfoldable pub default_port : Proto → ℤ
default_port http = pos 80
default_port https = pos 443
default_port socks4 = pos 1080
default_port socks5 = pos 1080

-- `sscanf(i + 1, "%d", &url->port)` leaves the zero of `memset` without a number.
unfoldable pub scanned : Option (Outcome ℤ) → Outcome ℤ
scanned none = done (pos 0)
scanned (some n) = n

unfoldable pub split_port : Proto → Bytes → Option (Bytes × Bytes) → Outcome (Bytes × ℤ)
split_port proto s none = done (s, default_port proto)
split_port proto s (some r) = scanned (scan_int r.1) >>= λ port. done (r.0, port)

unfoldable pub is_port : ℤ → Bool
is_port (pos n) = ltb 0 n
is_port (negsuc n) = false

-- All behind the scheme, of which 511 characters are read.
unfoldable pub set_rest : Proto → Bytes → Outcome (Bool × Url)
set_rest proto s =
    let at = split_file s (split_at b'/' s) in
    let who = split_user at.0 (split_last b'@' at.0) in
    let secret = or_all who.0 (split_at b':' who.0) in
    split_port proto who.1 (split_at b':' who.1) >>= λ to. done (
      is_port to.1,
      record {
        proto = proto;
        port = to.1;
        host = to.0;
        file = at.1;
        user = secret.0;
        pass = secret.1;
      },
    )

module _ (g : Glib) where
  -- `g_strncasecmp(set_url, name, n) == 0` for each scheme, with the length of the given one.
  unfoldable pub scheme_of : Bytes → ℕ → Option Proto
  scheme_of s n =
      if g.strncasecmp s (codes "http") n
      then some http
      else if g.strncasecmp s (codes "https") n
      then some https
      else if g.strncasecmp s (codes "socks4") n
      then some socks4
      else if g.strncasecmp s (codes "socks5") n
      then some socks5
      else none

  -- `none` for a scheme that is not known: only zeros were written.
  unfoldable pub set_scheme : Bytes → Option Proto → Outcome (Option (Bool × Url))
  set_scheme rest none = done none
  set_scheme rest (some proto) = set_rest proto (take max_string rest) >>= λ r. done (some r)

  unfoldable pub url_set_split : Bytes → Option (Bytes × Bytes) → Outcome (Option (Bool × Url))
  url_set_split s none = set_scheme s (some http)
  url_set_split s (some r) = set_scheme r.1 (scheme_of s (length r.0))

  -- The result is 1 exactly for `some (true, url)`.
  unfoldable pub url_set : Bytes → Outcome (Option (Bool × Url))
  url_set s = url_set_split s (split_scheme s)
