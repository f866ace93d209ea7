-- ===== src/Misc/Html/Examples.antt =====
-- lib/misc.c: runs of the HTML functions, and the theorems at concrete texts.
use bitl_steam.Common.{◌≡◌, refl, some, ◌∷◌, ◌++◌, Bytes, codes}
use bitl_steam.Glib.Ascii.{ascii}
use bitl_steam.Misc.Html.{
  ent, put, tag, name_size, tag_code, entity, round_tag, round_entity, round, strip_from,
  strip_html, escape_char, escaped, escape_html,
}
use bitl_steam.Misc.Html.RoundTrip.{strip_html-escape_html}

strip_tags :
    strip_html ascii (codes "<b>a</B><font x>b<br>1<2 & &gt;&")
    ≡ 2 ∷ codes "a" ++ 2 ∷ codes "b" ++ 10 ∷ codes "1<2 & >&"
unfolding ent put tag name_size tag_code entity round_tag round_entity round strip_from strip_html
strip_tags = refl

-- The row for "iacute" has the letter of "eacute".
strip_iacute : strip_html ascii (codes "&iacute;") ≡ strip_html ascii (codes "&eacute;")
unfolding ent put tag name_size tag_code entity round_tag round_entity round strip_from strip_html
strip_iacute = refl

escape_tags : escape_html (some (codes "a<b>&")) ≡ some (codes "a&lt;b&gt;&amp;")
unfolding escape_html escaped escape_char
escape_tags = refl

strip_html-escape_html_example :
    (t : Bytes) × (escape_html (some (codes "a<b>&")) ≡ some t)
    × (strip_html ascii t ≡ codes "a<b>&")
strip_html-escape_html_example = strip_html-escape_html ascii (codes "a<b>&")
