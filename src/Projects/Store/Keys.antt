-- ===== src/Projects/Store/Keys.antt =====
-- A member's key joins two identifiers by a NUL: it tells members apart if the project's
-- identifier holds no NUL.
use Prim.Native.Char.{Char, code}
use Prim.Native.String.{String, [], ◌∷◌, ◌++◌}
use mathlib.Core.Path.{◌≡◌, refl, sym, ap, ◌∙◌}
use mathlib.Core.Logic.{◌≢◌}
use text.Mathlib.TextLemmas.{
  nil-append, cons-append, append_cancel_left, head-eq_of_cons-eq, tail-eq_of_cons-eq,
}
use cqut_auth.Projects.Store.{member_key}

abbrev pub HasNoNul : String → Type 0
HasNoNul [] = Unit
HasNoNul (c ∷ s) = (code c ≢ 0) × HasNoNul s

abbrev joined : String → String → String
joined p s = p ++ ("\0" ++ s)

joined-nil : (s : String) → joined "" s ≡ "\0" ++ s
joined-nil s = nil-append ("\0" ++ s)

joined-ne : (c : Char) (p s t : String) → code c ≢ 0 → joined "" s ≡ joined (c ∷ p) t → ⊥
joined-ne c p s t h e = h (
    ap code (
      sym (
        head-eq_of_cons-eq
          (sym (cons-append _ "" s) ∙ sym (joined-nil s) ∙ e ∙ cons-append c p ("\0" ++ t)))))

joined-injective :
    (p q s t : String) → HasNoNul p → HasNoNul q → joined p s ≡ joined q t → (p ≡ q) × (s ≡ t)
joined-injective [] [] s t hp hq e =
    (refl, append_cancel_left "\0" s t (sym (joined-nil s) ∙ e ∙ joined-nil t))
joined-injective [] (d ∷ q) s t hp (hd, hq) e = absurd (joined-ne d q s t hd e)
joined-injective (c ∷ p) [] s t (hc, hp) hq e = absurd (joined-ne c p t s hc (sym e))
joined-injective (c ∷ p) (d ∷ q) s t (hc, hp) (hd, hq) e =
    let f = sym (cons-append c p ("\0" ++ s)) ∙ e ∙ cons-append d q ("\0" ++ t) in
    let (same, rest) = joined-injective p q s t hp hq (tail-eq_of_cons-eq f) in
    (λ i. head-eq_of_cons-eq f i ∷ same i, rest)

-- Keys of projects whose identifiers hold no NUL are equal only for one project and one subject.
pub member_key-injective :
    (p q s t : String)
    → HasNoNul p
    → HasNoNul q
    → member_key p s ≡ member_key q t
    → (p ≡ q) × (s ≡ t)
unfolding member_key
member_key-injective p q s t hp hq e = joined-injective p q s t hp hq e
