-- ===== src/Session/MuxRouter/Slots.antt =====
-- Finding, changing and counting in an array.
use zet.Prelude.{
  ℕ, ◌≡◌, refl, sym, ap, ap₂, ◌∙◌, inl, inr, Bool, true, false, List, [], ◌∷◌, Option, none, some,
  map, arith, if◌then◌else◌, Bool-cases,
}
use zet.Wire.Hello.{same_bytes}
use zet.Session.MuxRouter.{first_if, change_first}

pub same_bytes_eq : (xs ys : List ℕ) → same_bytes xs ys ≡ true → xs ≡ ys
same_bytes_eq [] [] h = refl
same_bytes_eq [] (y ∷ ys) h = absurd (cc h)
same_bytes_eq (x ∷ xs) [] h = absurd (cc h)
same_bytes_eq (x ∷ xs) (y ∷ ys) h =
    let first : x ≡ y = ground (arith, h) in
    let rest : same_bytes xs ys ≡ true = ground (arith, h) in
    ap₂ (◌∷◌) first (same_bytes_eq xs ys rest)

pub same_bytes_refl : (xs : List ℕ) → same_bytes xs xs ≡ true
same_bytes_refl [] = refl
same_bytes_refl (x ∷ xs) = ground (arith, same_bytes_refl xs)

abbrev pub map_found : {A B : Type 0} → (A → B) → Option A → Option B
map_found f none = none
map_found f (some a) = some (f a)

module _ {A : Type 0} where
  -- What one test finds after a change of what it found first, and what another test finds then.
  pub first_if-change_first :
      (test : A → Bool) (change : A → A) (xs : List A)
      → ((x : A) → test x ≡ true → test (change x) ≡ true)
      → first_if test (change_first test change xs) ≡ map_found change (first_if test xs)
  unfolding first_if change_first
  first_if-change_first test change [] h = refl
  first_if-change_first test change (x ∷ xs) h = elim (Bool-cases (test x)) [
    | inl e ↦ ground (arith, e, h x e)
    | inr e ↦ ground (arith, e, first_if-change_first test change xs h)
  ]

  pub first_if-change_other :
      (test find : A → Bool) (change : A → A) (xs : List A)
      → ((x : A) → find x ≡ true → (test x ≡ false) × (test (change x) ≡ false))
      → first_if test (change_first find change xs) ≡ first_if test xs
  unfolding first_if change_first
  first_if-change_other test find change [] h = refl
  first_if-change_other test find change (x ∷ xs) h = elim (Bool-cases (find x)) [
    | inl e ↦ let (before, afterwards) = h x e in ground (arith, e, before, afterwards)
    | inr e ↦ ground (arith, e, first_if-change_other test find change xs h)
  ]

  -- A new element in the first place that is free.
  pub first_if-new :
      (test free : A → Bool) (new a : A) (xs : List A)
      → first_if test xs ≡ none
      → first_if free xs ≡ some a
      → test new ≡ true
      → first_if test (change_first free (λ x. new) xs) ≡ some new
  unfolding first_if change_first
  first_if-new test free new a [] h k t = absurd (cc k)
  first_if-new test free new a (x ∷ xs) h k t = elim (Bool-cases (free x)) [
    | inl e ↦ ground (arith, e, t)
    | inr e ↦
        let missed : test x ≡ false = elim (Bool-cases (test x)) [
          | inl e' ↦ absurd (cc (h, ap (λ b. if b then some x else first_if test xs) e'))
          | inr e' ↦ e'
        ] in
        let h' : first_if test xs ≡ none =
          sym (ap (λ b. if b then some x else first_if test xs) missed) ∙ h in
        let k' : first_if free xs ≡ some a =
          sym (ap (λ b. if b then some x else first_if free xs) e) ∙ k in
        ground (arith, e, missed, first_if-new test free new a xs h' k' t)
  ]

  -- What was found passes the test.
  pub first_if-test :
      (test : A → Bool) (xs : List A) {a : A} → first_if test xs ≡ some a → test a ≡ true
  unfolding first_if
  first_if-test test [] {a} h = absurd (cc h)
  first_if-test test (x ∷ xs) {a} h = elim (Bool-cases (test x)) [
    | inl e ↦ cc (e, h, ap (λ b. if b then some x else first_if test xs) e)
    | inr e ↦ first_if-test test xs (sym (ap (λ b. if b then some x else first_if test xs) e) ∙ h)
  ]

  -- Clearing some elements keeps what was found, if it is none of them.
  pub first_if-map-some :
      (test : A → Bool) (change : A → A) (xs : List A) {a : A}
      → ((x : A) → test x ≡ false → test (change x) ≡ false)
      → first_if test xs ≡ some a
      → change a ≡ a
      → first_if test (map change xs) ≡ some a
  unfolding first_if
  first_if-map-some test change [] {a} h k e = absurd (cc k)
  first_if-map-some test change (x ∷ xs) {a} h k e = elim (Bool-cases (test x)) [
    | inl t ↦
        let same : x ≡ a = cc (k, ap (λ b. if b then some x else first_if test xs) t) in
        let kept : change x ≡ x = ap change same ∙ e ∙ sym same in
        ap (λ y. if test y then some y else first_if test (map change xs)) kept
        ∙ ap (λ b. if b then some x else first_if test (map change xs)) t
        ∙ ap some same
    | inr f ↦
        ap (λ b. if b then some (change x) else first_if test (map change xs)) (h x f)
        ∙ first_if-map-some test change xs h
            (sym (ap (λ b. if b then some x else first_if test xs) f) ∙ k) e
  ]

  -- Clearing brings nothing to be found.
  pub first_if-map-none :
      (test : A → Bool) (change : A → A) (xs : List A)
      → ((x : A) → test x ≡ false → test (change x) ≡ false)
      → first_if test xs ≡ none
      → first_if test (map change xs) ≡ none
  unfolding first_if
  first_if-map-none test change [] h k = refl
  first_if-map-none test change (x ∷ xs) h k = elim (Bool-cases (test x)) [
    | inl t ↦ absurd (cc (k, ap (λ b. if b then some x else first_if test xs) t))
    | inr f ↦
        ap (λ b. if b then some (change x) else first_if test (map change xs)) (h x f)
        ∙ first_if-map-none test change xs h
            (sym (ap (λ b. if b then some x else first_if test xs) f) ∙ k)
  ]

  -- What is found after a change has what every changed element has.
  pub first_if-map-false :
      (test other : A → Bool) (change : A → A) (xs : List A) {a : A}
      → ((x : A) → other (change x) ≡ false)
      → first_if test (map change xs) ≡ some a
      → other a ≡ false
  unfolding first_if
  first_if-map-false test other change [] {a} h k = absurd (cc k)
  first_if-map-false test other change (x ∷ xs) {a} h k = elim (Bool-cases (test (change x))) [
    | inl t ↦ cc (h x, k, ap (λ b. if b then some (change x) else first_if test (map change xs)) t)
    | inr f ↦
        first_if-map-false test other change xs h
          (sym (ap (λ b. if b then some (change x) else first_if test (map change xs)) f) ∙ k)
  ]
