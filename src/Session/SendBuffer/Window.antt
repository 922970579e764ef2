-- ===== src/Session/SendBuffer/Window.antt =====
-- The bytes that a ring holds from an absolute offset on, and what a wrapping copy does to them.
use native.Mathlib.Nat.{mod-add-mod, mod-eq_of_lt, mod-eq-sub-mod, mod-lt}
use zet.Prelude.{
  ℕ, zero, suc, dec_lt, ◌⊎◌, ◌+◌, ◌-◌, ◌%◌, ◌≤◌, ◌<◌, min, ◌≡◌, refl, sym, ap, ap₂, ◌∙◌, List, [],
  ◌∷◌, ◌++◌, arith, length, take, drop, get_or, overwrite, length-take, length-drop, get_or-take,
  get_or-drop, get_or-append_left, get_or-append_right, get_or-overwrite_before,
  get_or-overwrite_after, get_or-overwrite_in, length-overwrite, inl, inr, get_or_ext,
  length-append,
}
use zet.Session.SendBuffer.{copy_in, copy_from}

-- The `n` bytes from offset `o` on; offset `o` lives at `o % length storage`.
abbrev pub window : List ℕ → ℕ → ℕ → List ℕ
window s o zero = []
window s o (suc n) = get_or s (o % length s) 0 ∷ window s (suc o) n

pub length-window : (s : List ℕ) (o n : ℕ) → length (window s o n) ≡ n
length-window s o zero = refl
length-window s o (suc n) = ap suc (length-window s (suc o) n)

pub window-add : (s : List ℕ) (o m n : ℕ) → window s o (m + n) ≡ window s o m ++ window s (o + m) n
window-add s o zero n = ap₂ (window s) {x = o} {y = o + zero} (omega arith) (omega arith)
window-add s o (suc m) n =
    ap (window s o) {y = suc (m + n)} (omega arith)
    ∙ ap (◌∷◌ (get_or s (o % length s) 0))
        (window-add s (suc o) m n ∙ ap (λ k. window s (suc o) m ++ window s k n) (omega arith))

pub get_or-window :
    (s : List ℕ) (o n i : ℕ) → i < n → get_or (window s o n) i 0 ≡ get_or s ((o + i) % length s) 0
get_or-window s o zero i h = absurd (omega arith)
get_or-window s o (suc n) zero h = ap (λ k. get_or s (k % length s) 0) (omega arith)
get_or-window s o (suc n) (suc i) h =
    get_or-window s (suc o) n i (omega arith)
    ∙ ap (λ k. get_or s (k % length s) 0) {x = suc o + i} (omega arith)

pub take-window : (s : List ℕ) (o n k : ℕ) → take k (window s o n) ≡ window s o (min k n)
take-window s o n zero = ap (window s o) {x = zero} (omega arith)
take-window s o zero (suc k) = ap (window s o) {x = zero} (omega arith)
take-window s o (suc n) (suc k) =
    ap (◌∷◌ (get_or s (o % length s) 0)) (take-window s (suc o) n k)
    ∙ ap (window s o) {x = suc (min k n)} (omega arith)

pub drop-window : (s : List ℕ) (o n k : ℕ) → drop k (window s o n) ≡ window s (o + k) (n - k)
drop-window s o n zero = ap₂ (window s) (omega arith) (omega arith)
drop-window s o zero (suc k) = ap (window s (o + suc k)) {x = zero} (omega arith)
drop-window s o (suc n) (suc k) =
    drop-window s (suc o) n k ∙ ap₂ (window s) (omega arith) (omega arith)

-- A window and a list are one when they agree at each place.
pub window_ext :
    (s : List ℕ) (o n : ℕ) (xs : List ℕ)
    → length xs ≡ n
    → ((i : ℕ) → i < n → get_or s ((o + i) % length s) 0 ≡ get_or xs i 0)
    → window s o n ≡ xs
window_ext s o n xs e h = get_or_ext (window s o n) xs 0 (length-window s o n ∙ sym e) (λ i l.
    get_or-window s o n i (omega (arith, length-window s o n))
    ∙ h i (omega (arith, length-window s o n)))

-- `k` steps on from `o`, at less than a whole turn.
pub mod_step :
    (o k c : ℕ)
    → k < c
    → ((o % c + k < c) × ((o + k) % c ≡ o % c + k))
      ⊎ ((c ≤ o % c + k) × ((o + k) % c ≡ o % c + k - c))
mod_step o k c h = elim (dec_lt (o % c + k) c) [
  | yes p ↦ inl (p, sym (mod-add-mod o c k) ∙ mod-eq_of_lt p)
  | no p ↦ inr (
    omega arith,
    sym (mod-add-mod o c k)
        ∙ mod-eq-sub-mod {n = o % c + k} {m = c} (omega arith)
        ∙ mod-eq_of_lt {n = o % c + k - c} {m = c} (omega (arith, mod-lt o {m = c} (omega arith))),
  )
]

module _ (s : List ℕ) (p count i : ℕ) (inside : i < count) where
  -- What `CopyOut` reads before the end of the storage, and what it reads past it.
  get_or-copy_from_before : p + i < length s → get_or (copy_from s p count) i 0 ≡ get_or s (p + i) 0
  unfolding copy_from
  get_or-copy_from_before h = ground (
    arith,
    get_or-append_left (take f (drop p s)) (take (count - f) s) i 0,
    get_or-take f (drop p s) i 0,
    get_or-drop p s i 0,
    length-take f (drop p s),
    length-drop p s,
  )
    where
      f : ℕ
      f = min count (length s - p)

  get_or-copy_from_after :
      p < length s
      → length s ≤ p + i
      → get_or (copy_from s p count) i 0 ≡ get_or s (p + i - length s) 0
  unfolding copy_from
  get_or-copy_from_after l h = ground (
    arith,
    get_or-append_right (take f (drop p s)) (take (count - f) s) i 0,
    get_or-take (count - f) s (i - f) 0,
    length-take f (drop p s),
    length-drop p s,
  )
    where
      f : ℕ
      f = min count (length s - p)

length-copy_from :
    (s : List ℕ) (p count : ℕ)
    → p < length s
    → count ≤ length s
    → length (copy_from s p count) ≡ count
unfolding copy_from
length-copy_from s p count l h = ground (
  arith,
  length-append (take f (drop p s)) (take (count - f) s),
  length-take f (drop p s),
  length-take (count - f) s,
  length-drop p s,
)
  where
    f : ℕ
    f = min count (length s - p)

-- The two copies of `CopyOut` read one window.
pub copy_from-window :
    (s : List ℕ) (o count : ℕ)
    → 0 < length s
    → count ≤ length s
    → copy_from s (o % length s) count ≡ window s o count
copy_from-window s o count l h =
    sym (window_ext s o count _ (length-copy_from s p count in_range h) at)
  where
    p : ℕ
    p = o % length s

    in_range : p < length s
    in_range = mod-lt o l

    at : (i : ℕ) → i < count → get_or s ((o + i) % length s) 0 ≡ get_or (copy_from s p count) i 0
    at i k = elim (mod_step o i (length s) (omega arith)) [
      | inl (r, e) ↦ ap (λ j. get_or s j 0) e ∙ sym (get_or-copy_from_before s p count i k r)
      | inr (r, e) ↦
          ap (λ j. get_or s j 0) e ∙ sym (get_or-copy_from_after s p count i k in_range r)
    ]

pub length-copy_in :
    (s : List ℕ) (p : ℕ) (bytes : List ℕ) (count : ℕ) → length (copy_in s p bytes count) ≡ length s
unfolding copy_in
length-copy_in s p bytes count = ground (
  arith,
  length-overwrite s p (take f bytes),
  length-overwrite (overwrite s p (take f bytes)) 0 (take (count - f) (drop f bytes)),
)
  where
    f : ℕ
    f = min count (length s - p)

-- What `Append` writes, by the place that it writes to: before the end of the storage, past it,
-- and nowhere else.
module _ (s : List ℕ) (p : ℕ) (bytes : List ℕ) (count : ℕ) (in_range : p < length s)
    (fits : count ≤ length s) (enough : count ≤ length bytes) where
  abbrev piece : ℕ
  piece = min count (length s - p)

  abbrev once : List ℕ
  once = overwrite s p (take piece bytes)

  abbrev rest : List ℕ
  rest = take (count - piece) (drop piece bytes)

  length-rest : length rest ≡ count - piece
  length-rest =
      omega (arith, length-take (count - piece) (drop piece bytes), length-drop piece bytes)

  length-first : length (take piece bytes) ≡ piece
  length-first = omega (arith, length-take piece bytes)

  pub get_or-copy_in_before :
      (i : ℕ)
      → i < count
      → p + i < length s
      → get_or (copy_in s p bytes count) (p + i) 0 ≡ get_or bytes i 0
  unfolding copy_in
  get_or-copy_in_before i h l = ground (
    arith,
    length-rest,
    length-first,
    get_or-overwrite_after once 0 rest (p + i) 0,
    get_or-overwrite_in s p (take piece bytes) i 0,
    get_or-take piece bytes i 0,
  )

  pub get_or-copy_in_after :
      (i : ℕ)
      → i < count
      → length s ≤ p + i
      → get_or (copy_in s p bytes count) (p + i - length s) 0 ≡ get_or bytes i 0
  unfolding copy_in
  get_or-copy_in_after i h l = ground (
    arith,
    length-rest,
    length-overwrite s p (take piece bytes),
    get_or-overwrite_in once 0 rest (p + i - length s) 0,
    get_or-take (count - piece) (drop piece bytes) (p + i - length s) 0,
    get_or-drop piece bytes (p + i - length s) 0,
  )

  pub get_or-copy_in_outside :
      (j : ℕ)
      → (j < p) ⊎ (p + count ≤ j)
      → p + count ≤ j + length s
      → get_or (copy_in s p bytes count) j 0 ≡ get_or s j 0
  unfolding copy_in
  get_or-copy_in_outside j (inl h) l = ground (
    arith,
    length-rest,
    length-first,
    get_or-overwrite_after once 0 rest j 0,
    get_or-overwrite_before s p (take piece bytes) j 0,
  )
  get_or-copy_in_outside j (inr h) l = ground (
    arith,
    length-rest,
    length-first,
    get_or-overwrite_after once 0 rest j 0,
    get_or-overwrite_after s p (take piece bytes) j 0,
  )
