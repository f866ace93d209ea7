-- ===== src/Url/Examples.antt =====
-- lib/url.c: a URL with a login and a port, and one that is cut short.
use bitl_steam.Common.{◌≡◌, refl, true, some, codes, arith, ◌≤◌, length}
use bitl_steam.Common.Outcome.{done}
use bitl_steam.Stdio.{print_nat, print_digits}
use bitl_steam.Glib.Ascii.{ascii}
use bitl_steam.Url.{socks4, socks5, url_set, scheme_of}
use bitl_steam.Url.RoundTrip.{
  user_pass, Parts, IsParts, parsed, rest_text, url_text, url_set-url_text,
}

abbrev proxy : Parts
proxy = record {
  proto = socks5;
  login = user_pass (codes "me") (codes "a@b");
  host = codes "h";
  port = some 99;
  path = some (codes "x");
}

text : url_text proxy ≡ codes "socks5://me:a@b@h:99/x"
unfolding print_nat print_digits
text = refl

-- A scheme is compared up to its length only.
prefix : scheme_of ascii (codes "socks://h") 5 ≡ some socks4
unfolding scheme_of
prefix = refl

proxy_fits : length (rest_text proxy) ≤ 511
unfolding print_nat print_digits
proxy_fits = omega arith

proxy-IsParts : IsParts proxy
proxy-IsParts = record {
  login = (
    (omega arith, (omega arith, tt)),
    (omega arith, (omega arith, tt)),
    (omega arith, (omega arith, (omega arith, tt))),
  );
  host = ((omega arith, tt), (omega arith, tt), (omega arith, tt));
  port = (omega arith, omega arith);
  fits = proxy_fits;
}

url_set-url_text_example : url_set ascii (url_text proxy) ≡ done (some (true, parsed proxy))
url_set-url_text_example = url_set-url_text ascii proxy proxy-IsParts
