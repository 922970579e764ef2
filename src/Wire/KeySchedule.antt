-- ===== src/Wire/KeySchedule.antt =====
-- src/wire/key_schedule.cpp: the tree of keys of a session, and those of one connection of it.
use zet.Prelude.{ℕ, List, [], ◌∷◌, ◌++◌}
use zet.Core.Writer.{encode_be}
use zet.Crypto.{Sodium, derive_subkey, derive_bytes, derive_from_info, hash}
use zet.Wire.SealedFrame.{salt_size}

-- The characters of "zet-sess", "zet-conn" and "zet-rtch", with the zero at their end.
abbrev pub session_context : List ℕ
session_context = 122 ∷ 101 ∷ 116 ∷ 45 ∷ 115 ∷ 101 ∷ 115 ∷ 115 ∷ 0 ∷ []

abbrev pub connection_context : List ℕ
connection_context = 122 ∷ 101 ∷ 116 ∷ 45 ∷ 99 ∷ 111 ∷ 110 ∷ 110 ∷ 0 ∷ []

abbrev pub seed_ratchet_context : List ℕ
seed_ratchet_context = 122 ∷ 101 ∷ 116 ∷ 45 ∷ 114 ∷ 116 ∷ 99 ∷ 104 ∷ 0 ∷ []

-- The characters of "zet-boot".
abbrev pub bootstrap_label : List ℕ
bootstrap_label = 122 ∷ 101 ∷ 116 ∷ 45 ∷ 98 ∷ 111 ∷ 111 ∷ 116 ∷ []

abbrev pub handshake_nonce_size : ℕ
handshake_nonce_size = 16

abbrev pub session_id_size : ℕ
session_id_size = 16

pub record SessionSecrets : Type 0 where
  pub id : List ℕ
  pub registration : List ℕ
  pub auth : List ℕ
  pub connection_seed : List ℕ

pub record ConnectionKeys : Type 0 where
  pub client_to_server : List ℕ
  pub server_to_client : List ℕ
  pub salt_client_to_server : List ℕ
  pub salt_server_to_client : List ℕ

unfoldable pub session_id_of : Sodium → List ℕ → List ℕ
session_id_of c registration = hash c session_id_size registration

unfoldable pub derive_session_secrets : Sodium → List ℕ → SessionSecrets
unfolding session_id_of
derive_session_secrets c master =
    let registration = derive_subkey c master 1 session_context in
    record {
      id = session_id_of c registration;
      registration = registration;
      auth = derive_subkey c master 2 session_context;
      connection_seed = derive_subkey c master 3 session_context;
    }

unfoldable pub derive_decoy_secrets : Sodium → List ℕ → List ℕ → SessionSecrets
unfolding derive_session_secrets
derive_decoy_secrets c local_secret id =
    record (derive_session_secrets c (derive_from_info c local_secret id)) { id = id }

unfoldable pub derive_connection_keys : Sodium → List ℕ → List ℕ → List ℕ → ConnectionKeys
derive_connection_keys c connection_seed client_nonce server_nonce =
    let connection = derive_from_info c connection_seed (client_nonce ++ server_nonce) in
    record {
      client_to_server = derive_subkey c connection 1 connection_context;
      server_to_client = derive_subkey c connection 2 connection_context;
      salt_client_to_server = derive_bytes c salt_size connection 3 connection_context;
      salt_server_to_client = derive_bytes c salt_size connection 4 connection_context;
    }

unfoldable pub derive_bootstrap_master : Sodium → List ℕ → ℕ → List ℕ → List ℕ → List ℕ
derive_bootstrap_master c exchanged version client_nonce agent_nonce =
    derive_from_info c exchanged
      (bootstrap_label ++ (encode_be 2 version ++ (client_nonce ++ agent_nonce)))

unfoldable pub advance_connection_seed : Sodium → List ℕ → List ℕ
advance_connection_seed c connection_seed = derive_subkey c connection_seed 1 seed_ratchet_context
