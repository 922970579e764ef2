-- ===== src/Session/SendBuffer/Ring.antt =====
-- `Append` on the ring of src/session/send_buffer.cpp: the window grows by the bytes written.
use native.Mathlib.Nat.{mod-lt}
use zet.Prelude.{
  ℕ, ◌+◌, ◌-◌, ◌%◌, ◌≤◌, ◌<◌, ◌≡◌, sym, ap, ap₂, ◌∙◌, inl, inr, List, ◌++◌, arith, length, take,
  get_or, length-take, get_or-take,
}
use zet.Session.SendBuffer.{copy_in}
use zet.Session.SendBuffer.Window.{
  window, window-add, window_ext, get_or-window, length-window, mod_step, length-copy_in,
  get_or-copy_in_before, get_or-copy_in_after, get_or-copy_in_outside,
}

module _ (s : List ℕ) (o : ℕ) (bytes : List ℕ) (count : ℕ) (some_bytes : 0 < count)
    (fits : count ≤ length s) (enough : count ≤ length bytes) where
  abbrev written : List ℕ
  written = copy_in s (o % length s) bytes count

  same_length : length written ≡ length s
  same_length = length-copy_in s (o % length s) bytes count

  in_range : o % length s < length s
  in_range = mod-lt o (omega arith)

  window_new : window written o count ≡ take count bytes
  window_new =
      window_ext written o count (take count bytes) (omega (arith, length-take count bytes)) at
    where
      at :
          (i : ℕ)
          → i < count
          → get_or written ((o + i) % length written) 0 ≡ get_or (take count bytes) i 0
      at i h = elim (mod_step o i (length s) (omega arith)) [
        | inl (r, e) ↦
            ap (λ n. get_or written ((o + i) % n) 0) same_length
            ∙ ap (λ n. get_or written n 0) e
            ∙ get_or-copy_in_before s (o % length s) bytes count in_range fits enough i h r
            ∙ sym (get_or-take count bytes i 0 h)
        | inr (r, e) ↦
            ap (λ n. get_or written ((o + i) % n) 0) same_length
            ∙ ap (λ n. get_or written n 0) e
            ∙ get_or-copy_in_after s (o % length s) bytes count in_range fits enough i h r
            ∙ sym (get_or-take count bytes i 0 h)
      ]

  -- A byte at an offset below `o`, less than a turn behind what is written, stays.
  kept :
      (q : ℕ)
      → q < o
      → o + count ≤ q + length s
      → get_or written (q % length s) 0 ≡ get_or s (q % length s) 0
  kept q h l = elim (mod_step q (o - q) (length s) (omega arith)) [
    | inl (r, e) ↦
        get_or-copy_in_outside s (o % length s) bytes count in_range fits enough (q % length s)
          (inl (omega (arith, ap (λ n. n % length s) back, e)))
          (omega (arith, ap (λ n. n % length s) back, e))
    | inr (r, e) ↦
        get_or-copy_in_outside s (o % length s) bytes count in_range fits enough (q % length s)
          (inr (omega (arith, ap (λ n. n % length s) back, e)))
          (omega (arith, ap (λ n. n % length s) back, e))
  ]
    where
      back : q + (o - q) ≡ o
      back = omega arith

  pub window-copy_in :
      (base n : ℕ)
      → base + n ≡ o
      → n + count ≤ length s
      → window written base (n + count) ≡ window s base n ++ take count bytes
  window-copy_in base n e h =
      window-add written base n count
      ∙ ap₂ ◌++◌ old (ap (λ k. window written k count) e ∙ window_new)
    where
      at :
          (i : ℕ)
          → i < n
          → get_or written ((base + i) % length written) 0 ≡ get_or (window s base n) i 0
      at i l =
          ap (λ k. get_or written ((base + i) % k) 0) same_length
          ∙ kept (base + i) (omega arith) (omega arith)
          ∙ sym (get_or-window s base n i l)

      old : window written base n ≡ window s base n
      old = window_ext written base n (window s base n) (length-window s base n) at
