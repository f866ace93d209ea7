-- ===== src/Nick/Compare.antt =====
-- nick.c: `nick_cmp`.
use bitl_steam.Common.{
  ◌≤◌, ◌≡◌, ◌↔◌, refl, ap, true, [], ◌∷◌, Bytes, arith, map, length, take-eq_of_le,
}
use bitl_steam.Common.Outcome.{done, ◌>>=◌}
use bitl_steam.Nick.{lower, nick_lc, Sign, minus, equal, plus, strcmp, nick_cmp}
use bitl_steam.Nick.Chars.{IsNickText}
use bitl_steam.Nick.Case.{nick_lc-map}

abbrev pub flip : Sign → Sign
flip minus = plus
flip equal = equal
flip plus = minus

pub strcmp_eq_equal : (a b : Bytes) → strcmp a b ≡ equal → a ≡ b
unfolding strcmp
strcmp_eq_equal [] [] h = refl
strcmp_eq_equal [] (y ∷ b) h = cc
strcmp_eq_equal (x ∷ a) [] h = cc
strcmp_eq_equal (x ∷ a) (y ∷ b) h = ground (arith, strcmp_eq_equal a b)

pub strcmp_self : (a : Bytes) → strcmp a a ≡ equal
unfolding strcmp
strcmp_self [] = refl
strcmp_self (x ∷ a) = ground (arith, strcmp_self a)

pub strcmp-flip : (a b : Bytes) → strcmp b a ≡ flip (strcmp a b)
unfolding strcmp
strcmp-flip [] [] = refl
strcmp-flip [] (y ∷ b) = refl
strcmp-flip (x ∷ a) [] = refl
strcmp-flip (x ∷ a) (y ∷ b) = ground (arith, strcmp-flip a b)

strcmp_trans : (a b c : Bytes) → strcmp a b ≡ minus → strcmp b c ≡ minus → strcmp a c ≡ minus
unfolding strcmp
strcmp_trans [] [] c h k = cc
strcmp_trans [] (y ∷ b) [] h k = cc
strcmp_trans [] (y ∷ b) (z ∷ c) h k = refl
strcmp_trans (x ∷ a) [] c h k = cc
strcmp_trans (x ∷ a) (y ∷ b) [] h k = cc
strcmp_trans (x ∷ a) (y ∷ b) (z ∷ c) h k = ground (arith, strcmp_trans a b c)

-- A nick that `nick_cmp` does not cut.
abbrev pub IsComparable : Bytes → Type 0
IsComparable s = IsNickText s × (length s ≤ 1023)

nick_cmp-strcmp :
    (a b : Bytes)
    → IsComparable a
    → IsComparable b
    → nick_cmp a b ≡ done (strcmp (map lower a) (map lower b))
unfolding nick_cmp
nick_cmp-strcmp a b (ha, la) (hb, lb) =
    rw (take-eq_of_le 1023 a la, take-eq_of_le 1023 b lb, nick_lc-map a ha, nick_lc-map b hb) refl

-- On nicks of allowed characters `nick_cmp` is an order of their lower cases: 0 exactly on nicks that
-- differ in case alone, the opposite sign when swapped, and transitive.
pub nick_cmp_order :
    (a b c : Bytes)
    → IsComparable a
    → IsComparable b
    → IsComparable c
    → ((nick_cmp a b ≡ done equal) ↔ (nick_lc a ≡ nick_lc b))
      × (nick_cmp b a ≡ (nick_cmp a b >>= λ s. done (flip s)))
      × (nick_cmp a b ≡ done minus → nick_cmp b c ≡ done minus → nick_cmp a c ≡ done minus)
nick_cmp_order a b c ha hb hc =
    let x = map lower a in
    let y = map lower b in
    let z = map lower c in
    rw
      (
        nick_cmp-strcmp a b ha hb,
        nick_cmp-strcmp b a hb ha,
        nick_cmp-strcmp b c hb hc,
        nick_cmp-strcmp a c ha hc,
        nick_lc-map a ha.0,
        nick_lc-map b hb.0,
      )
      (
        (
          λ e. ap (λ r. done (true, r)) (strcmp_eq_equal x y (cc)),
          λ e. ground (arith, strcmp_self x),
        ),
        ap done (strcmp-flip x y),
        λ h k. ap done (strcmp_trans x y z (cc) (cc)),
      )
