-- ===== src/Misc/Wrap/Examples.antt =====
-- lib/misc.c: wrapped texts, and the theorem at one of them.
use bitl_steam.Common.{◌≡◌, refl, some, ◌∷◌, ◌++◌, Bytes, codes, arith}
use bitl_steam.Misc.Wrap.{back, cut_at_break, cut, after, wrap, word_wrap}
use bitl_steam.Misc.Wrap.Lines.{IsWrapped, word_wrap-IsWrapped}

wrap_words :
    word_wrap (codes "Line with-hyphen unbreakable") 8
    ≡ some (
        codes "Line"
        ++ 10 ∷ codes "with-"
        ++ 10 ∷ codes "hyphen"
        ++ 10 ∷ codes "unbreaka"
        ++ 10 ∷ codes "ble")
unfolding back cut_at_break cut after wrap word_wrap
wrap_words = refl

wrap_suite :
    word_wrap (codes "Line-wrapping is not as easy as it seems?") 8
    ≡ some (
        codes "Line-"
        ++ 10 ∷ codes "wrapping"
        ++ 10 ∷ codes "is not"
        ++ 10 ∷ codes "as easy"
        ++ 10 ∷ codes "as it"
        ++ 10 ∷ codes "seems?")
unfolding back cut_at_break cut after wrap word_wrap
wrap_suite = refl

-- The hyphen stands behind the room of the line.
wrap_hyphen : word_wrap (codes "12345678-9") 8 ≡ some (codes "12345678-" ++ 10 ∷ codes "9")
unfolding back cut_at_break cut after wrap word_wrap
wrap_hyphen = refl

word_wrap-IsWrapped_example :
    (out : Bytes) × (word_wrap (codes "12345678-9") 8 ≡ some out)
    × IsWrapped (codes "12345678-9") 8 out
word_wrap-IsWrapped_example = word_wrap-IsWrapped (codes "12345678-9") 8 (omega arith)
