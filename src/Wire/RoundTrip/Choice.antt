-- ===== src/Wire/RoundTrip/Choice.antt =====
-- The messages with a choice in them: of the negotiated version, of a kind, or of a length.
use zet.Prelude.{
  ℕ, ◌+◌, ◌≤◌, ◌<◌, ◌^◌, ◌%◌, ◌≡◌, refl, sym, ap, List, [], ◌++◌, ok, arith, length, length-append,
  append-nil, false, if◌then◌else◌, ltb, leb, le→leb, ◌==◌, not, ◌&&◌, ◌||◌, dec_lt, subst, ◌⊎◌,
}
use zet.Core.Error.{malformed_field}
use zet.Core.Reader.{Read, pure, reject_if, read_be, read_bytes, ◌>>=◌, ◌>>◌}
use zet.Core.Reader.Laws.{
  Reads, Parses, Reads-bytes, Parses-bind, Reads-u8, Reads-u16, Reads-u32, Reads-u64,
  length-encode_be,
}
use zet.Core.Writer
use zet.Core.Writer.{Write, done, written, encode_be, write_be, write_bytes}
use zet.Core.Writer.Laws.{Writes, Writes-bytes, Writes-be, Writes-then}
use zet.Wire.Limits.{protocol_version_grid, max_handoff_prefix}
use zet.Wire.Types.{resume, session_end, mux_refused, mux_handoff, code_of, write_message_type}
use zet.Wire.Messages.{
  ResumeMessage, SessionEndMessage, ESessionEndKind, exited, signaled, overflow, kind_of, kind_code,
  MuxRefusedMessage, EMuxRefusal, taken, limit, malformed, refusal_of, refusal_code,
  MuxHandoffMessage,
}
use zet.Wire.Parse.{
  ending, read_gen, ending_kind, ending_refusal, parse_resume, parse_session_end, parse_mux_refused,
  parse_mux_handoff,
}
use zet.Wire.Write.{
  write_gen, is_overflow, write_resume, write_session_end, write_mux_refused, write_mux_handoff,
}
use zet.Wire.RoundTrip.{
  received, round-trip_lem, Reads-check, Writes-check, Parses-ending, Parses-last,
}

Writes-done : Writes done []
Writes-done w v h = (w, refl, sym (append-nil (written w)), omega arith, v)

leb-false : (a b : ℕ) → b < a → leb a b ≡ false
leb-false a b h = ground arith

-- The stream generation is there from the version of the grid on.
Writes-gen :
    (version gen : ℕ)
    → protocol_version_grid ≤ version
    → Writes (write_gen version gen) (encode_be 4 gen)
Writes-gen version gen h =
    subst (λ b. Writes (if b then write_be 4 gen else done) (encode_be 4 gen))
      (sym (le→leb 2 version h)) (Writes-be 4 gen)

Writes-gen_old :
    (version gen : ℕ) → version < protocol_version_grid → Writes (write_gen version gen) []
Writes-gen_old version gen h =
    subst (λ b. Writes (if b then write_be 4 gen else done) []) (sym (leb-false 2 version h))
      Writes-done

Reads-gen :
    (version gen : ℕ)
    → protocol_version_grid ≤ version
    → gen < 2 ^ 32
    → Reads (read_gen version) (encode_be 4 gen) gen
Reads-gen version gen h k =
    subst (λ b. Reads (if b then read_be 4 else pure 0) (encode_be 4 gen) gen)
      (sym (le→leb 2 version h)) (Reads-u32 gen k)

Reads-gen_old :
    (version gen : ℕ) → version < protocol_version_grid → gen ≡ 0 → Reads (read_gen version) [] gen
Reads-gen_old version gen h z =
    subst (λ b. Reads (if b then read_be 4 else pure 0) [] gen) (sym (leb-false 2 version h))
      (λ r ys v e. (r, ap (λ g. (r, ok g)) (sym z), e, v))

-- A Resume is received as it was sent, under the version of the grid or a later one, or under an
-- earlier one if its stream generation is 0, if its fields fit their widths and the buffer has
-- room for it.
pub resume_round_trip :
    (m : ResumeMessage) (version : ℕ) (out : List ℕ)
    → m.stream_gen < 2 ^ 32
    → m.client_receive_offset < 2 ^ 64
    → (protocol_version_grid ≤ version) ⊎ (m.stream_gen ≡ 0)
    → 13 ≤ length out
    → let (w, x) = write_resume m version (Writer.make out) in
      (x ≡ ok tt) × (received (parse_resume version) (written w) ≡ ok (resume, m))
unfolding write_resume write_message_type parse_resume
resume_round_trip m version out h0 h1 h2 room =
    let tail : ℕ → Read ResumeMessage = λ gen. read_be 8 >>= λ offset.
    ending (record { stream_gen = gen; client_receive_offset = offset }) in
    let body = encode_be 8 m.client_receive_offset in
    let head =
      Writes-check {b = ltb version protocol_version_grid && not (m.stream_gen == 0)}
        malformed_field (ground arith) in
    let last : Parses (tail m.stream_gen) body m =
      Parses-last (read_be 8)
        (λ offset. ending (record { stream_gen = m.stream_gen; client_receive_offset = offset }))
        body (Reads-u64 _ h1) (Parses-ending _) in
    elim (dec_lt version protocol_version_grid) [
      | yes p ↦
          round-trip_lem (write_resume m version) resume (parse_resume version) body
            (Writes-then _ _ [] _ head (
              Writes-then _ _ (encode_be 1 (code_of resume)) body (Writes-be 1 _)
                (Writes-then _ _ [] body (Writes-gen_old version m.stream_gen p) (Writes-be 8 _))))
            (Parses-bind (read_gen version) tail [] body
              (Reads-gen_old version m.stream_gen p (ground arith)) last)
            out (omega (arith, length-encode_be 8 m.client_receive_offset))
      | no p ↦
          round-trip_lem (write_resume m version) resume (parse_resume version)
            (encode_be 4 m.stream_gen ++ body)
            (Writes-then _ _ [] _ head (
              Writes-then _ _ (encode_be 1 (code_of resume)) (encode_be 4 m.stream_gen ++ body)
                (Writes-be 1 _)
                (Writes-then _ _ (encode_be 4 m.stream_gen) body
                  (Writes-gen version m.stream_gen (omega arith)) (Writes-be 8 _))))
            (Parses-bind (read_gen version) tail (encode_be 4 m.stream_gen) body
              (Reads-gen version m.stream_gen (omega arith) h0) last)
            out
            (omega (
              arith,
              length-encode_be 8 m.client_receive_offset,
              length-encode_be 4 m.stream_gen,
              length-append (encode_be 4 m.stream_gen) body,
            ))
    ]

kind_lt : (k : ESessionEndKind) → kind_code k < 256
unfolding kind_code
kind_lt k = grind arith

Parses-kind :
    (version value : ℕ) (k : ESessionEndKind)
    → (k ≡ overflow → (protocol_version_grid ≤ version) × (value ≡ 0))
    → Parses
        (ending_kind version value (kind_of (kind_code k)))
        []
        (record { kind = k; value = value })
unfolding ending_kind kind_of kind_code
Parses-kind version value exited h = Parses-ending _
Parses-kind version value signaled h = Parses-ending _
Parses-kind version value overflow h =
    Parses-bind (reject_if (ltb version protocol_version_grid) malformed_field)
      (λ _. (reject_if (not (value == 0)) malformed_field >> ending _)) [] []
      (Reads-check malformed_field (ground (arith, h refl)))
      (Parses-bind (reject_if (not (value == 0)) malformed_field)
        (λ _. ending (record { kind = overflow; value = value })) [] []
        (Reads-check malformed_field (ground (arith, h refl))) (Parses-ending _))

Writes-kind :
    (version value : ℕ) (k : ESessionEndKind)
    → (k ≡ overflow → (protocol_version_grid ≤ version) × (value ≡ 0))
    → ((is_overflow k && ltb version protocol_version_grid) ≡ false)
      × ((is_overflow k && not (value == 0)) ≡ false)
Writes-kind version value exited h = (refl, refl)
Writes-kind version value signaled h = (refl, refl)
Writes-kind version value overflow h = (ground (arith, h refl), ground (arith, h refl))

-- A SessionEnd is received as it was sent, if one that reports an overflow has the value 0 and
-- goes out under the version of the grid or a later one, if its value is a byte, and the buffer
-- has room for it.
pub session_end_round_trip :
    (m : SessionEndMessage) (version : ℕ) (out : List ℕ)
    → m.value < 256
    → (m.kind ≡ overflow → (protocol_version_grid ≤ version) × (m.value ≡ 0))
    → 3 ≤ length out
    → let (w, x) = write_session_end m version (Writer.make out) in
      (x ≡ ok tt) × (received (parse_session_end version) (written w) ≡ ok (session_end, m))
unfolding write_session_end write_message_type parse_session_end
session_end_round_trip m version out h0 h1 room =
    let checks = Writes-kind version m.value m.kind h1 in
    round-trip_lem (write_session_end m version) session_end (parse_session_end version)
      (encode_be 1 (kind_code m.kind) ++ encode_be 1 m.value)
      (Writes-then _ _ [] _ (Writes-check malformed_field checks.0) (
        Writes-then _ _ [] _ (Writes-check malformed_field checks.1) (
          Writes-then _ _ (encode_be 1 (code_of session_end)) _ (Writes-be 1 _)
            (Writes-then _ _ (encode_be 1 (kind_code m.kind)) _ (Writes-be 1 _) (Writes-be 1 _)))))
      (Parses-bind (read_be 1)
        (λ kind. (read_be 1 >>= λ value. ending_kind version value (kind_of kind)))
        (encode_be 1 (kind_code m.kind)) _ (Reads-u8 _ (kind_lt m.kind))
        (Parses-last (read_be 1) (λ value. ending_kind version value (kind_of (kind_code m.kind)))
          (encode_be 1 m.value) (Reads-u8 _ h0) (Parses-kind version m.value m.kind h1)))
      out
      (omega (
        arith,
        length-append (encode_be 1 (kind_code m.kind)) (encode_be 1 m.value),
        length-encode_be 1 m.value,
        length-encode_be 1 (kind_code m.kind),
      ))

refusal_lt : (k : EMuxRefusal) → refusal_code k < 256
unfolding refusal_code
refusal_lt k = grind arith

Parses-refusal :
    (k : EMuxRefusal)
    → Parses (ending_refusal (refusal_of (refusal_code k))) [] (record { reason = k })
unfolding ending_refusal refusal_of refusal_code
Parses-refusal taken = Parses-ending _
Parses-refusal limit = Parses-ending _
Parses-refusal malformed = Parses-ending _

-- A MuxRefused is received as it was sent.
pub mux_refused_round_trip :
    (m : MuxRefusedMessage) (out : List ℕ)
    → 2 ≤ length out
    → let (w, x) = write_mux_refused m (Writer.make out) in
      (x ≡ ok tt) × (received parse_mux_refused (written w) ≡ ok (mux_refused, m))
unfolding write_mux_refused write_message_type parse_mux_refused
mux_refused_round_trip m out room =
    round-trip_lem (write_mux_refused m) mux_refused parse_mux_refused
      (encode_be 1 (refusal_code m.reason))
      (Writes-then _ _ (encode_be 1 (code_of mux_refused)) _ (Writes-be 1 _) (Writes-be 1 _))
      (Parses-last (read_be 1) (λ reason. ending_refusal (refusal_of reason)) _
        (Reads-u8 _ (refusal_lt m.reason)) (Parses-refusal m.reason))
      out (omega (arith, length-encode_be 1 (refusal_code m.reason)))

-- A MuxHandoff is received as it was sent, if its prefix is not empty and no longer than the
-- largest handshake frame, and the buffer has room for it.
pub mux_handoff_round_trip :
    (m : MuxHandoffMessage) (out : List ℕ)
    → 0 < length m.prefix
    → length m.prefix ≤ max_handoff_prefix
    → 3 + length m.prefix ≤ length out
    → let (w, x) = write_mux_handoff m (Writer.make out) in
      (x ≡ ok tt) × (received parse_mux_handoff (written w) ≡ ok (mux_handoff, m))
unfolding write_mux_handoff write_message_type parse_mux_handoff
mux_handoff_round_trip m out h0 h1 room =
    let n = length m.prefix % 2 ^ 16 in
    round-trip_lem (write_mux_handoff m) mux_handoff parse_mux_handoff (encode_be 2 n ++ m.prefix)
      (Writes-then _ _ [] _
        (Writes-check {b = length m.prefix == 0 || ltb max_handoff_prefix (length m.prefix)}
          malformed_field (ground arith))
        (Writes-then _ _ (encode_be 1 (code_of mux_handoff)) _ (Writes-be 1 _)
          (Writes-then _ _ (encode_be 2 n) _ (Writes-be 2 n) (Writes-bytes m.prefix))))
      (Parses-bind (read_be 2)
        (λ size.
          (reject_if (size == 0 || ltb max_handoff_prefix size) malformed_field
            >> (read_bytes size >>= λ prefix. ending (record { prefix = prefix }))))
        (encode_be 2 n) m.prefix (Reads-u16 n (omega arith))
        (Parses-bind (reject_if (n == 0 || ltb max_handoff_prefix n) malformed_field)
          (λ _. (read_bytes n >>= λ prefix. ending (record { prefix = prefix }))) [] m.prefix
          (Reads-check malformed_field (ground arith))
          (Parses-last (read_bytes n) (λ prefix. ending (record { prefix = prefix })) m.prefix
            (Reads-bytes n m.prefix (omega arith)) (Parses-ending _))))
      out (omega (arith, length-encode_be 2 n, length-append (encode_be 2 n) m.prefix))
