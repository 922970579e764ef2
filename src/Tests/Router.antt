-- ===== src/Tests/Router.antt =====
-- src/session/mux_router.cpp with one agent.
use zet.Prelude.{true, ap, ℕ, ◌≡◌, ◌≢◌, ◌⊎◌, List, [], ◌∷◌, none, some, replicate, arith}
use zet.Crypto.{Sodium, hash}
use zet.Wire.KeySchedule.{session_id_of}
use zet.Session.MuxRouter.{MuxRouter, register, unregister, find, no_registration, init}
use zet.Session.MuxRouter.Registry.{Leads, register-Leads, unregister_leads}
use zet.Session.MuxRouter.Limits.{IsValid, registers, leaves, run, run-IsValid, init-IsValid}

-- A hash that repeats the first byte.
abbrev first_byte : List ℕ → ℕ
first_byte [] = 0
first_byte (b ∷ bs) = b

abbrev repeating : Sodium
repeating = record {
  encrypt = λ plaintext associated nonce key. none;
  decrypt = λ sealed associated nonce key. none;
  kdf = λ width subkey_id context master. replicate width subkey_id;
  hash = λ width message key. replicate width (first_byte message);
  auth = λ message key. replicate 32 0;
  verify = λ mac message key. true;
}

abbrev two_slots : MuxRouter
two_slots = record {
  storage = [];
  slots = 0;
  registrations =
      record { id = replicate 16 1; agent = 7; owner = 1000; live = true }
      ∷ record { id = replicate 16 2; agent = 9; owner = 1000; live = true }
      ∷ no_registration
      ∷ [];
  registration_count = 2;
  waiting = [];
  pending_count = 0;
}

differs : replicate 16 1 ≢ session_id_of repeating (3 ∷ [])
unfolding session_id_of hash
differs e = absurd (omega (arith, ap first_byte e))

register-Leads_example :
    Leads two_slots 8
      (session_id_of repeating (3 ∷ []))
      (replicate 16 1)
      (register repeating two_slots 8 1000 (3 ∷ []))
register-Leads_example = register-Leads repeating two_slots 8 1000 (3 ∷ []) (replicate 16 1) differs

unregister_leads_example :
    (find (unregister two_slots 9) (replicate 16 1) ≢ some 9)
    × ((find (unregister two_slots 9) (replicate 16 1) ≡ find two_slots (replicate 16 1))
        ⊎ (find two_slots (replicate 16 1) ≡ some 9))
unregister_leads_example = unregister_leads two_slots 9 (replicate 16 1)

run-IsValid_example : IsValid (
    run repeating (init []) (registers 7 1000 (1 ∷ []) ∷ registers 9 1000 (2 ∷ []) ∷ leaves 7 ∷ []))
run-IsValid_example =
    run-IsValid repeating (init [])
      (registers 7 1000 (1 ∷ []) ∷ registers 9 1000 (2 ∷ []) ∷ leaves 7 ∷ []) (init-IsValid [])
