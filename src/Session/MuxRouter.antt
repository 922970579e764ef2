-- ===== src/Session/MuxRouter.antt =====
-- src/session/mux_router.cpp: which agent a connection belongs to. The arrays are lists of their
-- fixed lengths, and a pointer into one is the first element that a test finds.
pub mod Slots
pub mod Registry
pub mod Limits
use zet.Prelude.{
  ℕ, zero, suc, ◌+◌, ◌-◌, ◌*◌, ◌/◌, ◌≤◌, ◌<◌, min, Bool, true, false, ◌&&◌, ◌||◌, not, List, [],
  ◌∷◌, ◌++◌, Option, none, some, Expected, ok, err, if◌then◌else◌, ltb, leb, ◌==◌, length, take,
  drop, replicate, overwrite, map, add64, sub64,
}
use zet.Core.Time.{Timestamp, Deadline, earliest}
use zet.Core.Error.{EProtoError, ProtoResult, truncated}
use zet.Crypto.{Sodium}
use zet.Wire.Limits.{max_handoff_prefix}
use zet.Wire.KeySchedule.{session_id_of}
use zet.Wire.Hello.{HelloPeek, peek_hello, same_bytes}
use zet.Wire.Messages
use zet.Wire.Messages.{EMuxRefusal}

abbrev pub max_mux_registrations : ℕ
max_mux_registrations = 1024

abbrev pub max_registrations_per_uid : ℕ
max_registrations_per_uid = 32

abbrev pub max_pending_connections : ℕ
max_pending_connections = 256

abbrev pub max_pending_per_address : ℕ
max_pending_per_address = 16

abbrev pub handshake_timeout : ℕ
handshake_timeout = 5_000_000_000

pub data EMuxClose : Type 0 where
  malformed expired limit unknown : EMuxClose

pub record MuxClose : Type 0 where
  pub connection : ℕ
  pub reason : EMuxClose

pub data MuxDecision : Type 0 where
  need_more : MuxDecision
  -- The connection, the agent and the bytes so far.
  handoff : ℕ → ℕ → List ℕ → MuxDecision
  decoy : ℕ → List ℕ → MuxDecision
  closes : MuxClose → MuxDecision

pub record Registration : Type 0 where
  pub id : List ℕ
  pub agent : ℕ
  pub owner : ℕ
  pub live : Bool

pub record Waiting : Type 0 where
  pub connection : ℕ
  pub from : List ℕ
  pub until : Timestamp
  pub size : ℕ
  pub live : Bool

pub record MuxRouter : Type 0 where
  pub storage : List ℕ
  pub slots : ℕ
  pub registrations : List Registration
  pub registration_count : ℕ
  pub waiting : List Waiting
  pub pending_count : ℕ

abbrev pub no_registration : Registration
no_registration = record { id = replicate 16 0; agent = 0; owner = 0; live = false }

abbrev pub no_waiting : Waiting
no_waiting = record { connection = 0; from = replicate 16 0; until = 0; size = 0; live = false }

-- `std::ranges::find_if`, `count_if`, and the change of what the first found.
unfoldable pub first_if {ℓ} : {A : Type ℓ} → (A → Bool) → List A → Option A
first_if test [] = none
first_if test (x ∷ xs) = let rest = first_if test xs in if test x then some x else rest

unfoldable pub count_if {ℓ} : {A : Type ℓ} → (A → Bool) → List A → ℕ
count_if test [] = 0
count_if test (x ∷ xs) = (if test x then 1 else 0) + count_if test xs

unfoldable pub change_first {ℓ} : {A : Type ℓ} → (A → Bool) → (A → A) → List A → List A
change_first test change [] = []
change_first test change (x ∷ xs) =
    let rest = change_first test change xs in if test x then change x ∷ xs else x ∷ rest

-- The index of the first found.
unfoldable pub index_if {ℓ} : {A : Type ℓ} → (A → Bool) → List A → ℕ
index_if test [] = 0
index_if test (x ∷ xs) = let rest = index_if test xs in if test x then 0 else suc rest

unfoldable pub init : List ℕ → MuxRouter
init storage = record {
  storage = storage;
  slots = min max_pending_connections (length storage / max_handoff_prefix);
  registrations = replicate max_mux_registrations no_registration;
  registration_count = 0;
  waiting = replicate max_pending_connections no_waiting;
  pending_count = 0;
}

abbrev pub has_id : List ℕ → Registration → Bool
has_id id r = r.live && same_bytes r.id id

abbrev pub is_owned : ℕ → Registration → Bool
is_owned uid r = r.live && r.owner == uid

abbrev pub is_free : Registration → Bool
is_free r = not r.live

abbrev pub agent_of : Option Registration → Option ℕ
agent_of none = none
agent_of (some r) = some r.agent

unfoldable pub find : MuxRouter → List ℕ → Option ℕ
find m id = agent_of (first_if (has_id id) m.registrations)

abbrev pub Registered : Type 0
Registered = MuxRouter × Expected EMuxRefusal (Unit {0})

abbrev pub put_new : MuxRouter → Registration → Option Registration → Registered
put_new m new none = (m, err Messages.limit)
put_new m new (some free) = (
  record m {
    registrations = change_first is_free (λ r. new) m.registrations;
    registration_count = add64 m.registration_count 1;
  },
  ok tt,
)

abbrev pub register_id : MuxRouter → ℕ → ℕ → List ℕ → Option Registration → Registered
register_id m agent uid id (some held) =
    if not (held.owner == uid) then (m, err Messages.taken) else (
      record m {
        registrations = change_first (has_id id) (λ r. record r { agent = agent }) m.registrations;
      },
      ok tt,
    )
register_id m agent uid id none =
    if leb max_registrations_per_uid (count_if (is_owned uid) m.registrations)
    then (m, err Messages.limit)
    else put_new m (record { id = id; agent = agent; owner = uid; live = true })
        (first_if is_free m.registrations)

unfoldable pub register : Sodium → MuxRouter → ℕ → ℕ → List ℕ → Registered
register c m agent uid registration =
    let id = session_id_of c registration in
    register_id m agent uid id (first_if (has_id id) m.registrations)

abbrev pub is_of : ℕ → Registration → Bool
is_of agent r = r.live && r.agent == agent

unfoldable pub unregister : MuxRouter → ℕ → MuxRouter
unregister m agent = record m {
  registrations = map (λ r. if is_of agent r then no_registration else r) m.registrations;
  registration_count = sub64 m.registration_count (count_if (is_of agent) m.registrations);
}

abbrev pub is_waiting : ℕ → Waiting → Bool
is_waiting connection w = w.live && w.connection == connection

unfoldable pub find_waiting : MuxRouter → ℕ → Option Waiting
find_waiting m connection = first_if (is_waiting connection) m.waiting

abbrev pub Accepted : Type 0
Accepted = MuxRouter × Expected EMuxClose (Unit {0})

-- The first free slot of those that the storage has room for.
abbrev pub accept_in : MuxRouter → Waiting → Option Waiting → Accepted
accept_in m new none = (m, err limit)
accept_in m new (some free) = (
  record m {
    waiting = change_first (λ w. not w.live) (λ w. new) m.waiting;
    pending_count = add64 m.pending_count 1;
  },
  ok tt,
)

abbrev pub accept_new : MuxRouter → ℕ → List ℕ → Timestamp → Option Waiting → Accepted
accept_new m connection from now (some held) = (m, err unknown)
accept_new m connection from now none =
    if leb max_pending_per_address (count_if (λ w. w.live && same_bytes w.from from) m.waiting)
    then (m, err limit)
    else accept_in m
        (record {
          connection = connection;
          from = from;
          until = now + handshake_timeout;
          size = 0;
          live = true;
        })
        (first_if (λ w. not w.live) (take m.slots m.waiting))

unfoldable pub accept : MuxRouter → ℕ → List ℕ → Timestamp → Accepted
unfolding find_waiting
accept m connection from now = accept_new m connection from now (find_waiting m connection)

abbrev pub room_of : Option Waiting → ℕ
room_of none = 0
room_of (some w) = sub64 max_handoff_prefix w.size

unfoldable pub room : MuxRouter → ℕ → ℕ
unfolding find_waiting
room m connection = room_of (find_waiting m connection)

-- `Release`, of what a test finds first.
unfoldable pub release : MuxRouter → (Waiting → Bool) → MuxRouter
release m test = record m {
  waiting = change_first test (λ w. record w { live = false }) m.waiting;
  pending_count = sub64 m.pending_count 1;
}

unfoldable pub slot_start : MuxRouter → ℕ → ℕ
slot_start m connection = index_if (is_waiting connection) m.waiting * max_handoff_prefix

abbrev pub routed : MuxRouter → ℕ → List ℕ → Option ℕ → MuxRouter × MuxDecision
routed m connection held (some agent) = (m, handoff connection agent held)
routed m connection held none = (m, decoy connection held)

abbrev pub is_truncated : EProtoError → Bool
is_truncated truncated = true
is_truncated other = false

-- The end of `Feed`: the router with the bytes taken in, and what was peeked.
abbrev pub decide : MuxRouter → ℕ → List ℕ → Bool → ProtoResult HelloPeek → MuxRouter × MuxDecision
decide m connection held took_all (err e) = if is_truncated e && took_all then (m, need_more) else (
  release m (is_waiting connection),
  closes (record { connection = connection; reason = malformed }),
)
decide m connection held took_all (ok peek) =
    routed (release m (is_waiting connection)) connection held (find m peek.id)

abbrev pub feed_to : MuxRouter → ℕ → List ℕ → Option Waiting → MuxRouter × MuxDecision
feed_to m connection bytes none = (m, closes (record { connection = connection; reason = unknown }))
feed_to m connection bytes (some w) =
    let start = slot_start m connection in
    let taken = min (sub64 max_handoff_prefix w.size) (length bytes) in
    let storage = overwrite m.storage (start + w.size) (take taken bytes) in
    let held = take (w.size + taken) (drop start storage) in
    decide
      (record m {
        storage = storage;
        waiting =
            change_first (is_waiting connection) (λ v. record v { size = w.size + taken })
              m.waiting;
      })
      connection held (taken == length bytes) (peek_hello held)

unfoldable pub feed : MuxRouter → ℕ → List ℕ → MuxRouter × MuxDecision
unfolding find_waiting
feed m connection bytes = feed_to m connection bytes (find_waiting m connection)

abbrev pub close_found : MuxRouter → ℕ → Option Waiting → MuxRouter
close_found m connection none = m
close_found m connection (some w) = release m (is_waiting connection)

unfoldable pub closed : MuxRouter → ℕ → MuxRouter
unfolding find_waiting
closed m connection = close_found m connection (find_waiting m connection)

unfoldable pub earliest_of : Deadline → List Waiting → Deadline
unfolding earliest
earliest_of deadline [] = deadline
earliest_of deadline (w ∷ ws) =
    earliest_of (if w.live then earliest deadline (some w.until) else deadline) ws

unfoldable pub next_deadline : MuxRouter → Deadline
unfolding earliest_of
next_deadline m = earliest_of none m.waiting

abbrev pub is_due : Timestamp → Waiting → Bool
is_due now w = w.live && leb w.until now

abbrev pub expire_found : MuxRouter → Timestamp → Option Waiting → MuxRouter × Option MuxClose
expire_found m now none = (m, none)
expire_found m now (some w) =
    (release m (is_due now), some (record { connection = w.connection; reason = expired }))

unfoldable pub expire : MuxRouter → Timestamp → MuxRouter × Option MuxClose
expire m now = expire_found m now (first_if (is_due now) m.waiting)
