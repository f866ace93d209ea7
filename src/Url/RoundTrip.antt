-- ===== src/Url/RoundTrip.antt =====
-- lib/url.c: `url_set` of a URL that was put together.
use bitl_steam.Common.{
  ℕ, zero, suc, ◌+◌, ◌<◌, ◌≤◌, ◌≡◌, ◌≢◌, ◌%◌, ◌/◌, ◌^◌, refl, true, false, Option, none, some, [],
  ◌∷◌, ◌++◌, Bytes, codes, length, take, take-eq_of_le, ltb, ◌==◌, ==_refl, strcmp_eq,
  strcmp_eq_iff, map, tolower, All-append, Bool-cases, inl, inr, arith, is_digit,
}
use bitl_steam.Common.Split.{in_front, Lacks, split_at, split_at-append, split_at-none}
use bitl_steam.Common.Outcome.{done}
use bitl_steam.Stdio.{pos, scan_int, print_int, print_nat, print_digits}
use bitl_steam.Stdio.RoundTrip.{scan-print}
use bitl_steam.Glib.{Glib}
use bitl_steam.Url.{
  Proto, http, https, socks4, socks5, Url, split_scheme, or_here, split_last, split_file,
  split_user, default_port, or_all, split_port, scanned, is_port, set_rest, scheme_of, set_scheme,
  url_set_split, url_set,
}

print_digits-Lacks :
    (f n : ℕ) (out : Bytes) (c : ℕ)
    → (is_digit c ≡ false)
    → Lacks c out
    → Lacks c (print_digits f n out)
unfolding print_digits
print_digits-Lacks zero n out c d h = h
print_digits-Lacks (suc f) n out c d h =
    let other : 48 + n % 10 ≢ c = ground arith in
    let rest = print_digits-Lacks f (n / 10) ((48 + n % 10) ∷ out) c d (other, h) in
    elim (Bool-cases (ltb n 10)) [
      | inl e ↦ rw e (let last : 48 + n ≢ c = ground arith in (last, h))
      | inr e ↦ rw e rest
    ]

Lacks-append : (c : ℕ) (s t : Bytes) → Lacks c s → Lacks c t → Lacks c (s ++ t)
Lacks-append c = All-append (λ x. x ≢ c)

print_nat-Lacks : (n c : ℕ) → is_digit c ≡ false → Lacks c (print_nat n)
unfolding print_nat
print_nat-Lacks n c d = print_digits-Lacks (suc n) n [] c d tt

scan_port : (n : ℕ) → n < 2 ^ 31 → scan_int (print_nat n) ≡ some (done (pos n))
unfolding print_int
scan_port n h = scan-print (pos n) h

split_last-none : (c : ℕ) (s : Bytes) → Lacks c s → split_last c s ≡ none
unfolding split_last or_here
split_last-none c [] h = refl
split_last-none c (x ∷ s) (ne, h) =
    let other : (x == c) ≡ false = ground arith in rw (split_last-none c s h, other) refl

split_last-append :
    (c : ℕ) (s rest : Bytes) → Lacks c rest → split_last c (s ++ c ∷ rest) ≡ some (s, rest)
unfolding split_last or_here
split_last-append c [] rest h = rw (split_last-none c rest h, ==_refl c) refl
split_last-append c (x ∷ s) rest h = rw (split_last-append c s rest h) refl

-- The text of a scheme.
abbrev pub scheme_text : Proto → Bytes
scheme_text http = codes "http"
scheme_text https = codes "https"
scheme_text socks4 = codes "socks4"
scheme_text socks5 = codes "socks5"

split_scheme_text :
    (p : Proto) (s : Bytes)
    → split_scheme (scheme_text p ++ codes "://" ++ s) ≡ some (scheme_text p, s)
unfolding split_scheme in_front
split_scheme_text http s = refl
split_scheme_text https s = refl
split_scheme_text socks4 s = refl
split_scheme_text socks5 s = refl

-- Who logs in, if anybody: a user without or with a password.
pub data Login : Type 0 where
  nobody : Login
  user_only : Bytes → Login
  user_pass : Bytes → Bytes → Login

-- The parts of a URL, which has a scheme: the port as a number, the file without its slash.
pub record Parts : Type 0 where
  pub proto : Proto
  pub login : Login
  pub host : Bytes
  pub port : Option ℕ
  pub path : Option Bytes

abbrev pub login_text : Login → Bytes
login_text nobody = []
login_text (user_only user) = user
login_text (user_pass user pass) = user ++ b':' ∷ pass

abbrev pub address_text : Bytes → Option ℕ → Bytes
address_text host none = host
address_text host (some n) = host ++ b':' ∷ print_nat n

abbrev pub front_text : Login → Bytes → Bytes
front_text nobody address = address
front_text (user_only user) address = login_text (user_only user) ++ b'@' ∷ address
front_text (user_pass user pass) address = login_text (user_pass user pass) ++ b'@' ∷ address

abbrev pub with_path : Bytes → Option Bytes → Bytes
with_path s none = s
with_path s (some path) = s ++ b'/' ∷ path

abbrev pub rest_text : Parts → Bytes
rest_text u = with_path (front_text u.login (address_text u.host u.port)) u.path

abbrev pub url_text : Parts → Bytes
url_text u = scheme_text u.proto ++ codes "://" ++ rest_text u

abbrev pub IsLogin : Login → Type 0
IsLogin nobody = Unit
IsLogin (user_only user) = Lacks b':' user × Lacks b'/' user
IsLogin (user_pass user pass) = Lacks b':' user × Lacks b'/' user × Lacks b'/' pass

abbrev pub IsPort : Option ℕ → Type 0
IsPort none = Unit
IsPort (some n) = (0 < n) × (n < 2 ^ 31)

-- No part has the character that ends it.
pub record IsParts (u : Parts) : Type 0 where
  pub login : IsLogin u.login
  pub host : Lacks b':' u.host × Lacks b'/' u.host × Lacks b'@' u.host
  pub port : IsPort u.port
  pub fits : length (rest_text u) ≤ 511

abbrev pub user_of : Login → Bytes
user_of nobody = []
user_of (user_only user) = user
user_of (user_pass user pass) = user

abbrev pub pass_of : Login → Bytes
pass_of (user_pass user pass) = pass
pass_of _ = []

-- The port that is given, or the usual one.
abbrev pub port_of : Proto → Option ℕ → ℕ
port_of proto (some n) = n
port_of http none = 80
port_of https none = 443
port_of socks4 none = 1080
port_of socks5 none = 1080

abbrev pub file_of : Option Bytes → Bytes
file_of none = codes "/"
file_of (some path) = b'/' ∷ path

abbrev pub parsed : Parts → Url
parsed u = record {
  proto = u.proto;
  port = pos (port_of u.proto u.port);
  host = u.host;
  file = file_of u.path;
  user = user_of u.login;
  pass = pass_of u.login;
}

file_split :
    (s : Bytes) (path : Option Bytes)
    → Lacks b'/' s
    → split_file (with_path s path) (split_at b'/' (with_path s path)) ≡ (s, file_of path)
unfolding split_file
file_split s none h = rw (split_at-none b'/' s h) refl
file_split s (some path) h = rw (split_at-append b'/' s path h) refl

user_split :
    (l : Login) (a : Bytes)
    → Lacks b'@' a
    → split_user (front_text l a) (split_last b'@' (front_text l a)) ≡ (login_text l, a)
unfolding split_user
user_split nobody a h = rw (split_last-none b'@' a h) refl
user_split (user_only user) a h = rw (split_last-append b'@' user a h) refl
user_split (user_pass user pass) a h = rw (split_last-append b'@' (user ++ b':' ∷ pass) a h) refl

secret_split :
    (l : Login)
    → IsLogin l
    → or_all (login_text l) (split_at b':' (login_text l)) ≡ (user_of l, pass_of l)
unfolding or_all
secret_split nobody h = rw (split_at-none b':' [] tt) refl
secret_split (user_only user) (colon, slash) = rw (split_at-none b':' user colon) refl
secret_split (user_pass user pass) (colon, slash, pass_slash) =
    rw (split_at-append b':' user pass colon) refl

usual_port : (proto : Proto) → default_port proto ≡ pos (port_of proto none)
unfolding default_port
usual_port http = refl
usual_port https = refl
usual_port socks4 = refl
usual_port socks5 = refl

port_split :
    (proto : Proto) (host : Bytes) (port : Option ℕ)
    → Lacks b':' host
    → IsPort port
    → split_port proto (address_text host port) (split_at b':' (address_text host port))
      ≡ done (host, pos (port_of proto port))
unfolding split_port scanned
port_split proto host none colon h = rw (split_at-none b':' host colon, usual_port proto) refl
port_split proto host (some n) colon (low, high) =
    rw (split_at-append b':' host (print_nat n) colon, scan_port n high) refl

port_of_positive : (proto : Proto) (port : Option ℕ) → IsPort port → 0 < port_of proto port
port_of_positive proto (some n) (low, high) = low
port_of_positive http none h = omega arith
port_of_positive https none h = omega arith
port_of_positive socks4 none h = omega arith
port_of_positive socks5 none h = omega arith

address-Lacks :
    (c : ℕ) (host : Bytes) (port : Option ℕ)
    → c ≢ b':'
    → is_digit c ≡ false
    → Lacks c host
    → Lacks c (address_text host port)
address-Lacks c host none ne d h = h
address-Lacks c host (some n) ne d h =
    Lacks-append c host (b':' ∷ print_nat n) h (omega arith, print_nat-Lacks n c d)

front-Lacks_slash : (l : Login) (a : Bytes) → IsLogin l → Lacks b'/' a → Lacks b'/' (front_text l a)
front-Lacks_slash nobody a h k = k
front-Lacks_slash (user_only user) a (colon, slash) k =
    Lacks-append b'/' user (b'@' ∷ a) slash (omega arith, k)
front-Lacks_slash (user_pass user pass) a (colon, slash, pass_slash) k =
    Lacks-append b'/' (user ++ b':' ∷ pass) (b'@' ∷ a)
      (Lacks-append b'/' user (b':' ∷ pass) slash (omega arith, pass_slash)) (omega arith, k)

set_rest_text : (u : Parts) → IsParts u → set_rest u.proto (rest_text u) ≡ done (true, parsed u)
unfolding set_rest is_port
set_rest_text u h =
    let address = address_text u.host u.port in
    let (host_colon, host_slash, host_at) = h.host in
    let no_slash =
      front-Lacks_slash u.login address h.login
        (address-Lacks b'/' u.host u.port (omega arith) refl host_slash) in
    let no_at = address-Lacks b'@' u.host u.port (omega arith) refl host_at in
    let positive : ltb 0 (port_of u.proto u.port) ≡ true =
      (let p = port_of_positive u.proto u.port h.port in ground arith) in
    rw
      (
        file_split (front_text u.login address) u.path no_slash,
        user_split u.login address no_at,
        secret_split u.login h.login,
        port_split u.proto u.host u.port host_colon h.port,
        positive,
      )
      refl

module _ (g : Glib) where
  strncasecmp_eq :
      (a b : Bytes) (n : ℕ)
      → g.strncasecmp a b n ≡ strcmp_eq (map tolower (take n a)) (map tolower (take n b))
  strncasecmp_eq a b n = ground (
    arith,
    g.strncasecmp_iff a b n,
    strcmp_eq_iff (map tolower (take n a)) (map tolower (take n b)),
  )

  scheme_of_text :
      (p : Proto) (s : Bytes)
      → scheme_of g (scheme_text p ++ codes "://" ++ s) (length (scheme_text p)) ≡ some p
  unfolding scheme_of
  scheme_of_text http s = rw (strncasecmp_eq (codes "http://" ++ s) (codes "http") 4) refl
  scheme_of_text https s =
      rw
        (
          strncasecmp_eq (codes "https://" ++ s) (codes "http") 5,
          strncasecmp_eq (codes "https://" ++ s) (codes "https") 5,
        )
        refl
  scheme_of_text socks4 s =
      rw
        (
          strncasecmp_eq (codes "socks4://" ++ s) (codes "http") 6,
          strncasecmp_eq (codes "socks4://" ++ s) (codes "https") 6,
          strncasecmp_eq (codes "socks4://" ++ s) (codes "socks4") 6,
        )
        refl
  scheme_of_text socks5 s =
      rw
        (
          strncasecmp_eq (codes "socks5://" ++ s) (codes "http") 6,
          strncasecmp_eq (codes "socks5://" ++ s) (codes "https") 6,
          strncasecmp_eq (codes "socks5://" ++ s) (codes "socks4") 6,
          strncasecmp_eq (codes "socks5://" ++ s) (codes "socks5") 6,
        )
        refl

  -- `url_set` finds the parts of a URL with a scheme that it knows, of which at most 511 characters
  -- stand behind the scheme. Login, port and file may be missing: then user and password are empty,
  -- the port is the usual one of the scheme, and the file is a slash. The user has no colon and no
  -- slash, the password no slash, the host none of colon, slash and "@"; a port is a positive
  -- number that an `int` can hold. A password may have an "@" or a colon in it.
  pub url_set-url_text :
      (u : Parts) → IsParts u → url_set g (url_text u) ≡ done (some (true, parsed u))
  unfolding url_set url_set_split set_scheme
  url_set-url_text u h =
      rw
        (
          split_scheme_text u.proto (rest_text u),
          scheme_of_text u.proto (rest_text u),
          take-eq_of_le 511 (rest_text u) h.fits,
          set_rest_text u h,
        )
        refl
