-- ===== src/Prelude/Dict.antt =====
-- Go maps with text keys, as association lists.
use Prim.Native.Nat.{ℕ}
use Prim.Native.String.{String}
use mathlib.Core.Path.{◌≡◌, refl, subst, ◌∙◌}
use mathlib.Core.Bool.{Bool, true, false}
use mathlib.Core.Option.{Option, none, some}
use mathlib.Core.Logic.{inl, inr}
use mathlib.Core.List.{List, [], ◌∷◌}
use native.Mathlib.Omega.{arith}
use text.Mathlib.Text.{◌==◌}
use text.Mathlib.TextEquality.{eq_iff}
use text.Mathlib.TextPositions.{eq_refl}
use nevr_anticheat.Prelude.Tests.{if◌then◌else◌, Bool-cases}

-- The comparison of two texts, under a name of its own beside that of numbers.
abbrev pub text_eq : String → String → Bool
text_eq s t = s == t

pub text_eq_refl : (s : String) → text_eq s s ≡ true
text_eq_refl s = eq_refl s

pub text_eq_sound : (s t : String) → text_eq s t ≡ true → s ≡ t
text_eq_sound s t = (eq_iff s t).0

module _ {ℓ} {V : Type ℓ} where
  -- `v, ok := m[k]`
  unfoldable pub lookup : String → List (String × V) → Option V
  lookup key [] = none
  lookup key ((at, value) ∷ rest) = if text_eq at key then some value else lookup key rest

  -- `m[k] = v`
  unfoldable pub insert : String → V → List (String × V) → List (String × V)
  insert key new [] = (key, new) ∷ []
  insert key new ((at, old) ∷ rest) =
      if text_eq at key then (key, new) ∷ rest else (at, old) ∷ insert key new rest

  -- `delete(m, k)`
  unfoldable pub delete : String → List (String × V) → List (String × V)
  delete k [] = []
  delete k ((j, w) ∷ m) = if text_eq j k then delete k m else (j, w) ∷ delete k m

  -- `for k, v := range m { if !keep(v) { delete(m, k) } }`
  unfoldable pub retain : (V → Bool) → List (String × V) → List (String × V)
  retain keep [] = []
  retain keep ((j, w) ∷ m) = if keep w then (j, w) ∷ retain keep m else retain keep m

  pub lookup-insert :
      (key q : String) (new : V) (m : List (String × V))
      → lookup q (insert key new m) ≡ (if text_eq key q then some new else lookup q m)
  unfolding insert lookup
  lookup-insert key q new [] = refl
  lookup-insert key q new ((at, old) ∷ rest) =
      let deeper = lookup-insert key q new rest in
      ground (arith, eq_iff at q, deeper, eq_iff at key, eq_iff key q)

  pub lookup-delete :
      (key q : String) (m : List (String × V))
      → lookup q (delete key m) ≡ (if text_eq key q then none else lookup q m)
  unfolding delete lookup
  lookup-delete key q [] = ground arith
  lookup-delete key q ((at, old) ∷ rest) =
      let deeper = lookup-delete key q rest in
      ground (arith, eq_iff at q, deeper, eq_iff at key, eq_iff key q)

  pub lookup-insert_self :
      (k : String) (v : V) (m : List (String × V)) → lookup k (insert k v m) ≡ some v
  lookup-insert_self k v m = simp (lookup-insert, eq_refl)

-- `m[k]` of a map of integers: 0 where the key is missing.
abbrev pub count_or_zero : Option ℕ → ℕ
count_or_zero none = 0
count_or_zero (some n) = n

unfoldable pub count_at : String → List (String × ℕ) → ℕ
count_at k m = count_or_zero (lookup k m)

-- A property of every value of a map.
abbrev pub AllValues {ℓ κ} : {V : Type ℓ} → (V → Type κ) → List (String × V) → Type κ
AllValues P [] = Unit
AllValues P ((k, v) ∷ m) = P v × AllValues P m

pub none-ne-some {ℓ} : {V : Type ℓ} {v : V} → none ≡ some v → ⊥
none-ne-some e = cc

some-eq {ℓ} : {V : Type ℓ} {v w : V} → some v ≡ some w → v ≡ w
some-eq e = cc

module _ {ℓ κ} {V : Type ℓ} (P : V → Type κ) where
  pub AllValues-insert :
      (k : String) (v : V) (m : List (String × V))
      → P v
      → AllValues P m
      → AllValues P (insert k v m)
  unfolding insert
  AllValues-insert k v [] p h = (p, tt)
  AllValues-insert k v ((j, w) ∷ m) p h = elim (Bool-cases (text_eq j k)) [
    | inl e ↦ rw e (p, h.1)
    | inr e ↦ rw e (h.0, AllValues-insert k v m p h.1)
  ]

  pub AllValues-lookup :
      (k : String) (m : List (String × V)) {v : V} → AllValues P m → lookup k m ≡ some v → P v
  unfolding lookup
  AllValues-lookup k [] h e = absurd (none-ne-some e)
  AllValues-lookup k ((j, w) ∷ m) {v} h e = elim (Bool-cases (text_eq j k)) [
    | inl hit ↦ let same : some w ≡ some v = rw hit at e in subst P (some-eq same) h.0
    | inr miss ↦ let rest : lookup k m ≡ some v = rw miss at e in AllValues-lookup k m h.1 rest
  ]

module _ {ℓ} {V : Type ℓ} where
  unfoldable pub has_key : String → List (String × V) → Bool
  has_key k [] = false
  has_key k ((j, w) ∷ m) = if text_eq j k then true else has_key k m

  -- Each key stands in the map once.
  abbrev pub Distinct : List (String × V) → Type 0
  Distinct [] = Unit
  Distinct ((j, w) ∷ m) = (has_key j m ≡ false) × Distinct m

  pub has_key-insert :
      (k j : String) (v : V) (m : List (String × V))
      → has_key j (insert k v m) ≡ (if text_eq k j then true else has_key j m)
  unfolding has_key insert
  has_key-insert k j v [] = refl
  has_key-insert k j v ((i, w) ∷ m) =
      ground (arith, eq_iff k j, eq_iff i k, eq_iff i j, has_key-insert k j v m)

  pub insert-Distinct :
      (k : String) (v : V) (m : List (String × V)) → Distinct m → Distinct (insert k v m)
  unfolding insert has_key
  insert-Distinct k v [] d = (refl, tt)
  insert-Distinct k v ((j, w) ∷ m) d = elim (Bool-cases (text_eq j k)) [
    | inl e ↦ rw e (subst (λ i. has_key i m ≡ false) (text_eq_sound j k e) d.0, d.1)
    | inr e ↦ rw e (
      has_key-insert k j v m ∙ ground (arith, eq_iff k j, eq_iff j k, d.0),
      insert-Distinct k v m d.1,
    )
  ]

  -- A kept value stays where it was.
  pub lookup-retain :
      (keep : V → Bool) (k : String) (v : V) (m : List (String × V))
      → lookup k m ≡ some v
      → keep v ≡ true
      → lookup k (retain keep m) ≡ some v
  unfolding lookup retain
  lookup-retain keep k v [] h p = h
  lookup-retain keep k v ((j, w) ∷ m) h p =
      ground (arith, h, p, eq_iff j k, lookup-retain keep k v m)
