-- ===== src/Prelude/Joined.antt =====
-- Keys of two texts with a colon in between: which texts a key comes from.
use Prim.Native.Char.{Char, code}
use Prim.Native.String.{String, [], ◌∷◌, ◌++◌}
use Prim.Native.String.append
use text.Mathlib.TextLemmas.{tail-eq_of_cons-eq, head-eq_of_cons-eq}
use mathlib.Core.Path.{◌≡◌, refl, sym, ap, ◌∙◌, subst}
use mathlib.Core.Bool.{Bool, true, false, ◌&&◌, false≢true}
use mathlib.Core.Logic.{inl, inr}
use native.Mathlib.Omega.{arith}
use nevr_anticheat.Prelude.Tests.{◌==◌, if◌then◌else◌, Bool-cases}
use nevr_anticheat.Prelude.Dict.{text_eq, text_eq_refl, text_eq_sound}
use nevr_anticheat.Prelude.Text.{joined}

-- No letter of the text is a colon.
abbrev pub is_colonless : String → Bool
is_colonless [] = true
is_colonless (c ∷ s) = if code c == b':' then false else is_colonless s

joined_nil : (t : String) → joined [] t ≡ ":" ∷ t
unfolding joined
joined_nil t = append.nil (":" ++ t) ∙ append.cons ":" [] t ∙ ap (λ r. ":" ∷ r) (append.nil t)

joined_cons : (c : Char) (s t : String) → joined (c ∷ s) t ≡ c ∷ joined s t
unfolding joined
joined_cons c s t = append.cons c s (":" ++ t)

joined-has_colon : (s t : String) → is_colonless (joined s t) ≡ true → ⊥
joined-has_colon [] t h = false≢true (subst (λ r. is_colonless r ≡ true) (joined_nil t) h)
joined-has_colon (c ∷ s) t h = elim (Bool-cases (code c == b':')) [
  | inl e ↦ absurd (false≢true (rw e at here))
  | inr e ↦ joined-has_colon s t (rw e at here)
]
  where
    here : is_colonless (c ∷ joined s t) ≡ true
    here = subst (λ r. is_colonless r ≡ true) (joined_cons c s t) h

-- Where what follows the colon has none itself, the last colon of the key is where it was joined.
pub joined_inj :
    (s s' t t' : String)
    → is_colonless t ≡ true
    → is_colonless t' ≡ true
    → joined s t ≡ joined s' t'
    → (s ≡ s') × (t ≡ t')
joined_inj [] [] t t' h k e = (refl, tail-eq_of_cons-eq (sym (joined_nil t) ∙ e ∙ joined_nil t'))
joined_inj [] (c ∷ s') t t' h k e =
    let same = tail-eq_of_cons-eq (sym (joined_nil t) ∙ e ∙ joined_cons c s' t') in
    absurd (joined-has_colon s' t' (subst (λ r. is_colonless r ≡ true) same h))
joined_inj (c ∷ s) [] t t' h k e =
    let same = tail-eq_of_cons-eq (sym (joined_nil t') ∙ sym e ∙ joined_cons c s t) in
    absurd (joined-has_colon s t (subst (λ r. is_colonless r ≡ true) same k))
joined_inj (c ∷ s) (d ∷ s') t t' h k e =
    let both = sym (joined_cons c s t) ∙ e ∙ joined_cons d s' t' in
    let (front, back) = joined_inj s s' t t' h k (tail-eq_of_cons-eq both) in
    (ap (λ x. x ∷ s) (head-eq_of_cons-eq both) ∙ ap (λ r. d ∷ r) front, back)

pub text_eq-joined :
    (s s' t t' : String)
    → is_colonless t ≡ true
    → is_colonless t' ≡ true
    → text_eq (joined s t) (joined s' t') ≡ (text_eq s s' && text_eq t t')
text_eq-joined s s' t t' h k = elim (Bool-cases (text_eq (joined s t) (joined s' t'))) [
  | inl e ↦
      let (front, back) = joined_inj s s' t t' h k (text_eq_sound _ _ e) in
      rw (e, front, back, text_eq_refl s', text_eq_refl t') refl
  | inr e ↦ elim (Bool-cases (text_eq s s' && text_eq t t')) [
    | inl both ↦
        let front = text_eq_sound s s' (ground (arith, both)) in
        let back = text_eq_sound t t' (ground (arith, both)) in
        let clash : text_eq (joined s' t') (joined s' t') ≡ false =
          subst (λ p. text_eq (joined p t') (joined s' t') ≡ false) front
            (subst (λ q. text_eq (joined s q) (joined s' t') ≡ false) back e) in
        absurd (false≢true (sym clash ∙ text_eq_refl (joined s' t')))
    | inr neither ↦ e ∙ sym neither
  ]
]
