-- ===== src/Session/MuxRouter/Limits.antt =====
-- How many registrations there are, and how many a user may have.
use zet.Prelude.{
  ℕ, zero, suc, ◌+◌, ◌≤◌, ◌<◌, ◌≡◌, refl, sym, ap, ◌∙◌, inl, inr, Bool, true, false, not, List, [],
  ◌∷◌, Option, none, some, arith, length, if◌then◌else◌, leb, ◌==◌, if_cases, Bool-cases,
  Option-cases, subst, map, replicate, length-replicate,
}
use zet.Crypto.{Sodium}
use zet.Wire.KeySchedule.{session_id_of}
use zet.Session.MuxRouter.{
  MuxRouter, Registration, Registered, init, register, register_id, put_new, unregister, first_if,
  change_first, count_if, has_id, is_owned, is_free, is_of, no_registration,
  max_registrations_per_uid, max_mux_registrations,
}

module _ {A : Type 0} (test : A → Bool) where
  count_if_le : (xs : List A) → count_if test xs ≤ length xs
  unfolding count_if
  count_if_le [] = omega arith
  count_if_le (x ∷ xs) = ground (arith, count_if_le xs)

  count_if-change_same :
      (find : A → Bool) (change : A → A) (xs : List A)
      → ((x : A) → test (change x) ≡ test x)
      → count_if test (change_first find change xs) ≡ count_if test xs
  unfolding count_if change_first
  count_if-change_same find change [] h = refl
  count_if-change_same find change (x ∷ xs) h = elim (Bool-cases (find x)) [
    | inl e ↦ ground (arith, e, h x)
    | inr e ↦ ground (arith, e, count_if-change_same find change xs h)
  ]

  count_if-new :
      (free : A → Bool) (new a : A) (xs : List A)
      → first_if free xs ≡ some a
      → ((x : A) → free x ≡ true → test x ≡ false)
      → count_if test (change_first free (λ x. new) xs)
        ≡ count_if test xs + (if test new then 1 else 0)
  unfolding count_if change_first first_if
  count_if-new free new a [] k h = absurd (cc k)
  count_if-new free new a (x ∷ xs) k h = elim (Bool-cases (free x)) [
    | inl e ↦ ground (arith, e, h x e)
    | inr e ↦ ground (
      arith,
      e,
      count_if-new free new a xs (sym (ap (λ b. if b then some x else first_if free xs) e) ∙ k) h,
    )
  ]

  count_if-cleared :
      (find : A → Bool) (blank : A) (xs : List A)
      → test blank ≡ false
      → ((x : A) → find x ≡ true → test x ≡ true)
      → count_if test (map (λ x. if find x then blank else x) xs) + count_if find xs
        ≡ count_if test xs
  unfolding count_if
  count_if-cleared find blank [] h k = omega arith
  count_if-cleared find blank (x ∷ xs) h k = elim (Bool-cases (find x)) [
    | inl e ↦ ground (arith, e, h, k x e, count_if-cleared find blank xs h k)
    | inr e ↦ ground (arith, e, count_if-cleared find blank xs h k)
  ]

  count_if-cleared_le :
      (find : A → Bool) (blank : A) (xs : List A)
      → test blank ≡ false
      → count_if test (map (λ x. if find x then blank else x) xs) ≤ count_if test xs
  unfolding count_if
  count_if-cleared_le find blank [] h = omega arith
  count_if-cleared_le find blank (x ∷ xs) h = elim (Bool-cases (find x)) [
    | inl e ↦ ground (arith, e, h, count_if-cleared_le find blank xs h)
    | inr e ↦ ground (arith, e, count_if-cleared_le find blank xs h)
  ]

  count_if-replicate : (n : ℕ) (a : A) → test a ≡ false → count_if test (replicate n a) ≡ 0
  unfolding count_if
  count_if-replicate zero a h = refl
  count_if-replicate (suc n) a h = ground (arith, h, count_if-replicate n a h)

length-change_first :
    {A : Type 0} (find : A → Bool) (change : A → A) (xs : List A)
    → length (change_first find change xs) ≡ length xs
unfolding change_first
length-change_first find change [] = refl
length-change_first find change (x ∷ xs) = ground (arith, length-change_first find change xs)

pub record IsValid (m : MuxRouter) : Type 0 where
  pub counted : m.registration_count ≡ count_if (λ r. r.live) m.registrations
  pub limited : (uid : ℕ) → count_if (is_owned uid) m.registrations ≤ max_registrations_per_uid
  pub all_slots : length m.registrations ≡ max_mux_registrations

pub init-IsValid : (storage : List ℕ) → IsValid (init storage)
unfolding init
init-IsValid storage = record {
  counted = sym (count_if-replicate (λ r. r.live) max_mux_registrations no_registration refl);
  limited = λ uid.
      omega (arith, count_if-replicate (is_owned uid) max_mux_registrations no_registration refl);
  all_slots = length-replicate {A = Registration} max_mux_registrations no_registration;
}

length-map : {A B : Type 0} (f : A → B) (xs : List A) → length (map f xs) ≡ length xs
length-map f [] = refl
length-map f (x ∷ xs) = ap suc (length-map f xs)

abbrev Valid : Registered → Type 0
Valid s = IsValid s.0

put_new-IsValid :
    (m : MuxRouter) (agent uid : ℕ) (id : List ℕ)
    → IsValid m
    → count_if (is_owned uid) m.registrations < max_registrations_per_uid
    → Valid (
        put_new m
          (record { id = id; agent = agent; owner = uid; live = true })
          (first_if is_free m.registrations))
put_new-IsValid m agent uid id v below = elim (Option-cases (first_if is_free m.registrations)) [
  | inl e ↦
      subst (λ o. Valid (put_new m (record { id = id; agent = agent; owner = uid; live = true }) o))
        (sym e) v
  | inr (r, e) ↦
      let new : Registration = record { id = id; agent = agent; owner = uid; live = true } in
      let live =
        count_if-new (λ r. r.live) is_free new r m.registrations e
          (λ x free. ground (arith, free)) in
      let owned = λ (uid' : ℕ).
        count_if-new (is_owned uid') is_free new r m.registrations e
          (λ x free. ground (arith, free)) in
      subst (λ o. Valid (put_new m new o)) (sym e)
        (record {
          counted =
              omega
                (arith, live, v.counted, count_if_le (λ r. r.live) m.registrations, v.all_slots);
          limited = λ uid'. ground (arith, owned uid', v.limited uid', below);
          all_slots = length-change_first is_free (λ x. new) m.registrations ∙ v.all_slots;
        })
]

register_id-IsValid :
    (m : MuxRouter) (agent uid : ℕ) (id : List ℕ) (held : Option Registration)
    → IsValid m
    → Valid (register_id m agent uid id held)
register_id-IsValid m agent uid id none v =
    if_cases Valid (leb max_registrations_per_uid (count_if (is_owned uid) m.registrations)) _ _
      (λ _. v) (λ e. put_new-IsValid m agent uid id v (ground (arith, e)))
register_id-IsValid m agent uid id (some held) v =
    if_cases Valid (not (held.owner == uid)) _ _ (λ _. v)
      (λ _. record {
        counted =
            v.counted
            ∙ sym (
                count_if-change_same (λ r. r.live) (has_id id) (λ r. record r { agent = agent })
                  m.registrations (λ x. refl));
        limited = λ uid'. omega (
          arith,
          v.limited uid',
          count_if-change_same (is_owned uid') (has_id id) (λ r. record r { agent = agent })
              m.registrations (λ x. refl),
        );
        all_slots =
            length-change_first (has_id id) (λ r. record r { agent = agent }) m.registrations
            ∙ v.all_slots;
      })

unregister-IsValid : (m : MuxRouter) (agent : ℕ) → IsValid m → IsValid (unregister m agent)
unfolding unregister
unregister-IsValid m agent v =
    let cleared =
      count_if-cleared (λ r. r.live) (is_of agent) no_registration m.registrations refl
        (λ x e. ground (arith, e)) in
    record {
      counted =
          omega (arith, cleared, v.counted, count_if_le (λ r. r.live) m.registrations, v.all_slots);
      limited = λ uid. omega (
        arith,
        v.limited uid,
        count_if-cleared_le (is_owned uid) (is_of agent) no_registration m.registrations refl,
      );
      all_slots =
          length-map (λ r. if is_of agent r then no_registration else r) m.registrations
          ∙ v.all_slots;
    }

-- What agents ask of a router.
pub data RegistryCall : Type 0 where
  registers : ℕ → ℕ → List ℕ → RegistryCall
  leaves : ℕ → RegistryCall

pub run : Sodium → MuxRouter → List RegistryCall → MuxRouter
run c m [] = m
run c m (registers agent uid registration ∷ calls) =
    run c (register c m agent uid registration).0 calls
run c m (leaves agent ∷ calls) = run c (unregister m agent) calls

-- Whatever agents register and leave, in a valid router the count of registrations stays the
-- number of live ones, no user has more than 32 and the array keeps its length.
pub run-IsValid :
    (c : Sodium) (m : MuxRouter) (calls : List RegistryCall) → IsValid m → IsValid (run c m calls)
unfolding run register
run-IsValid c m [] v = v
run-IsValid c m (registers agent uid registration ∷ calls) v =
    let id = session_id_of c registration in
    run-IsValid c (register c m agent uid registration).0 calls
      (register_id-IsValid m agent uid id (first_if (has_id id) m.registrations) v)
run-IsValid c m (leaves agent ∷ calls) v =
    run-IsValid c (unregister m agent) calls (unregister-IsValid m agent v)
