-- ===== src/Session/MuxRouter/Registry.antt =====
-- Which agent an id leads to, after agents register and leave.
use zet.Prelude.{
  ℕ, ◌≡◌, ◌≢◌, refl, sym, ap, ◌∙◌, ◌⊎◌, inl, inr, true, false, not, List, Option, none, some, ok,
  err, arith, if◌then◌else◌, ◌==◌, leb, if_cases, Bool-cases, Option-cases, subst, map,
}
use zet.Crypto.{Sodium}
use zet.Wire.KeySchedule.{session_id_of}
use zet.Wire.Hello.{same_bytes}
use zet.Session.MuxRouter.{
  MuxRouter, Registration, Registered, register, register_id, put_new, unregister, find, first_if,
  has_id, is_owned, is_free, is_of, agent_of, count_if, no_registration, max_registrations_per_uid,
}
use zet.Session.MuxRouter.Slots.{
  same_bytes_eq, same_bytes_refl, first_if-change_first, first_if-change_other, first_if-new,
  first_if-test, first_if-map-some, first_if-map-none, first_if-map-false, map_found,
}

-- An accepted registration of `id`: it leads to the agent, and another id leads where it led. A refused
-- one changes nothing.
abbrev pub Leads : MuxRouter → ℕ → List ℕ → List ℕ → Registered → Type 0
Leads m agent id other (m', ok tt) = (find m' id ≡ some agent) × (find m' other ≡ find m other)
Leads m agent id other (m', err e) = m' ≡ m

-- An entry of `id` is none of another.
apart :
    (id other : List ℕ)
    → other ≢ id
    → (r : Registration) → has_id id r ≡ true
    → has_id other r ≡ false
apart id other ne r h = elim (Bool-cases (has_id other r)) [
  | inl e ↦
      let a : same_bytes r.id id ≡ true = ground (arith, h) in
      let b : same_bytes r.id other ≡ true = ground (arith, e) in
      absurd (ne (sym (same_bytes_eq r.id other b) ∙ same_bytes_eq r.id id a))
  | inr e ↦ e
]

held-Leads :
    (m : MuxRouter) (agent uid : ℕ) (id other : List ℕ) (held : Registration)
    → other ≢ id
    → first_if (has_id id) m.registrations ≡ some held
    → Leads m agent id other (register_id m agent uid id (some held))
unfolding find
held-Leads m agent uid id other held ne h =
    if_cases (Leads m agent id other) (not (held.owner == uid)) _ _ (λ _. refl)
      (λ _. (
        ap agent_of (
            first_if-change_first (has_id id) (λ r. record r { agent = agent }) m.registrations
              (λ r e. e)
            ∙ ap (map_found {A = Registration} {B = Registration} (λ r. record r { agent = agent }))
                h),
        ap agent_of (
            first_if-change_other (has_id other) (has_id id) (λ r. record r { agent = agent })
              m.registrations (λ r e. (apart id other ne r e, apart id other ne r e))),
      ))

free-Leads :
    (m : MuxRouter) (agent uid : ℕ) (id other : List ℕ)
    → other ≢ id
    → first_if (has_id id) m.registrations ≡ none
    → Leads m agent id other (
        put_new m
          (record { id = id; agent = agent; owner = uid; live = true })
          (first_if is_free m.registrations))
unfolding find
free-Leads m agent uid id other ne h = elim (Option-cases (first_if is_free m.registrations)) [
  | inl e ↦
      subst
        (λ o.
          Leads m agent id other
            (put_new m (record { id = id; agent = agent; owner = uid; live = true }) o))
        (sym e) refl
  | inr (r, e) ↦
      let new : Registration = record { id = id; agent = agent; owner = uid; live = true } in
      let found : has_id id new ≡ true = same_bytes_refl id in
      subst (λ o. Leads m agent id other (put_new m new o)) (sym e)
        (
          ap agent_of (first_if-new (has_id id) is_free new r m.registrations h e found),
          ap agent_of (
              first_if-change_other (has_id other) is_free (λ x. new) m.registrations
                (λ x free. (ground (arith, free), apart id other ne new found))),
        )
]

-- A registration that is accepted leads its id, the hash of what was registered, to the agent, and
-- every other id leads where it led before, none or an agent; one that is refused changes nothing.
pub register-Leads :
    (c : Sodium) (m : MuxRouter) (agent uid : ℕ) (registration other : List ℕ)
    → other ≢ session_id_of c registration
    → Leads m agent (session_id_of c registration) other (register c m agent uid registration)
unfolding register
register-Leads c m agent uid registration other ne =
    let id = session_id_of c registration in
    elim (Option-cases (first_if (has_id id) m.registrations)) [
      | inl h ↦
          subst (λ o. Leads m agent id other (register_id m agent uid id o)) (sym h)
            (if_cases (Leads m agent id other)
              (leb max_registrations_per_uid (count_if (is_owned uid) m.registrations)) _ _
              (λ _. refl) (λ _. free-Leads m agent uid id other ne h))
      | inr (held, h) ↦
          subst (λ o. Leads m agent id other (register_id m agent uid id o)) (sym h)
            (held-Leads m agent uid id other held ne h)
    ]

abbrev without : ℕ → Registration → Registration
without agent r = if is_of agent r then no_registration else r

without_lem : (agent : ℕ) (r : Registration) → is_of agent (without agent r) ≡ false
without_lem agent r = if_cases (λ x. is_of agent x ≡ false) (is_of agent r) _ _ (λ _. refl) (λ e. e)

found_agent :
    (o : Option Registration) {agent : ℕ}
    → agent_of o ≡ some agent
    → (r : Registration) × (o ≡ some r) × (r.agent ≡ agent)
found_agent none h = absurd (cc h)
found_agent (some r) h = (r, refl, cc h)

kept_lem : (agent : ℕ) (r : Registration) → r.agent ≢ agent → without agent r ≡ r
kept_lem agent r ne =
    if_cases (λ x. x ≡ r) (is_of agent r) _ _ (λ e. absurd (ne (ground (arith, e)))) (λ _. refl)

none_left : (m : MuxRouter) (agent : ℕ) (id : List ℕ) → find (unregister m agent) id ≢ some agent
unfolding find unregister
none_left m agent id h =
    let (r, found, e) =
      found_agent (first_if (has_id id) (map (without agent) m.registrations)) h in
    let not_of =
      first_if-map-false (has_id id) (is_of agent) (without agent) m.registrations
        (without_lem agent) found in
    let passes = first_if-test (has_id id) (map (without agent) m.registrations) found in
    absurd (ground (arith, not_of, passes, e))

cleared :
    (agent : ℕ) (id : List ℕ) (r : Registration)
    → has_id id r ≡ false
    → has_id id (without agent r) ≡ false
cleared agent id r f = if_cases (λ y. has_id id y ≡ false) (is_of agent r) _ _ (λ _. refl) (λ _. f)

kept_found :
    (m : MuxRouter) (agent : ℕ) (id : List ℕ) (r : Registration)
    → first_if (has_id id) m.registrations ≡ some r
    → (find (unregister m agent) id ≡ find m id) ⊎ (find m id ≡ some agent)
unfolding find unregister
kept_found m agent id r found = elim (Bool-cases (r.agent == agent)) [
  | inl e ↦ inr (ap agent_of found ∙ ap some (ground (arith, e)))
  | inr e ↦ inl (
      ap agent_of (
        first_if-map-some (has_id id) (without agent) m.registrations (cleared agent id) found
          (kept_lem agent r (λ e'. absurd (ground (arith, e, e'))))
        ∙ sym found))
]

kept_missing :
    (m : MuxRouter) (agent : ℕ) (id : List ℕ)
    → first_if (has_id id) m.registrations ≡ none
    → find (unregister m agent) id ≡ find m id
unfolding find unregister
kept_missing m agent id e =
    ap agent_of
      (first_if-map-none (has_id id) (without agent) m.registrations (cleared agent id) e ∙ sym e)

-- When an agent has left, no id leads to it, and an id leads where it led before, none or an
-- agent, unless it led to the one that left.
pub unregister_leads :
    (m : MuxRouter) (agent : ℕ) (id : List ℕ)
    → (find (unregister m agent) id ≢ some agent)
      × ((find (unregister m agent) id ≡ find m id) ⊎ (find m id ≡ some agent))
unregister_leads m agent id = (
  none_left m agent id,
  elim (Option-cases (first_if (has_id id) m.registrations)) [
    | inl e ↦ inl (kept_missing m agent id e)
    | inr (r, e) ↦ kept_found m agent id r e
  ],
)
