-- ===== src/Session/Channel/Transfer/Steps.antt =====
-- A snapshot that is started at the sender's channel is delivered by the receiver's.
use zet.Prelude.{
  ℕ, zero, suc, subst, dec_lt, append-nil, ◌+◌, ◌-◌, ◌*◌, ◌≤◌, ◌<◌, ◌≡◌, refl, sym, ap, ◌∙◌, true,
  [], ◌++◌, Option, none, some, arith, length, take, overwrite, u32_mod, take-add, take-all,
  length-overwrite,
}
use zet.Core.Time.{Timestamp}
use zet.Core.Reader.{pure}
use zet.Core.Reader.Laws.{length-encode_be}
use zet.Core.Writer.Laws.{take-overwrite}
use zet.Crypto.{Sodium, IsSodium}
use zet.Wire.Limits.{max_frame, header_size, protocol_version_grid, snapshot_max_bytes}
use zet.Wire.Types.{grid_begin, grid_chunk, grid_end, code_of}
use zet.Wire.Parse.{parse_grid_begin, parse_grid_chunk}
use zet.Wire.RoundTrip.{received, received-message}
use zet.Wire.RoundTrip.Grid.{Parses-grid_begin, grid_begin_body, Parses-grid_chunk, grid_chunk_body}
use zet.Session.Channel.{Channel, start_grid, is_client}
use zet.Session.Channel.Receive.{delivered_nothing, delivered_grid_snapshot}
use zet.Session.Channel.Poll.{poll, chunk_header, begin_of}
use zet.Session.Channel.Poll.Grid.{Undisturbed, poll-grid}
use zet.Session.Channel.Exchange.{Exchanged, Linked, carry, kept, crosses}
use zet.Session.Channel.Transfer.{
  Snapshot, emission_at, reception_at, starting, size_at, chunk_at, length-chunk, begin_plaintext,
  length-begin, chunk_plaintext, length-chunk_plaintext, end_plaintext, begun, chunk_sent, end_done,
  on_exchanged, transfer,
}
use zet.Session.Channel.Transfer.Sends.{poll-begin, poll-chunk, poll-end}
use zet.Session.Channel.Transfer.Arrivals.{arrive-begin, arrive-chunk, arrive-end}

module _ (c : Sodium) (law : IsSodium c) (out scratch room : ℕ) (now : Timestamp) (p : Snapshot)
    (wide : chunk_header + 1 ≤ scratch) (narrow : length p.bytes < u32_mod)
    (outward : header_size + max_frame ≤ out) (inward : max_frame ≤ room) where
  -- `at` bytes have crossed, and there are `spare` frames left before the limit.
  record Underway (sender receiver : Channel) (at spare : ℕ) : Type 0 where
    client : is_client receiver.role ≡ true
    version : protocol_version_grid ≤ receiver.version
    emission : sender.grid_emitting ≡ some (emission_at p at)
    reception : receiver.grid_receiving ≡ some (reception_at p at)
    within : at ≤ length p.bytes
    space : length p.bytes ≤ length receiver.snapshot_buf
    contents : take at receiver.snapshot_buf ≡ take at p.bytes
    linked : Linked c spare sender.sealer receiver.opener
    undisturbed : Undisturbed now (6 * (length p.bytes - at)) sender

  abbrev hop : Channel → Channel → Option Exchanged
  hop sender receiver = carry c room now receiver (poll c out scratch now sender)

  chunk_step :
      {sender receiver : Channel} (k spare : ℕ)
      → Underway sender receiver k (suc spare)
      → k < length p.bytes
      → (sender' : Channel) × (receiver' : Channel) × (hop sender receiver
          ≡ some (sender', receiver', delivered_nothing))
        × Underway sender' receiver' (k + size_at p scratch k) spare
  chunk_step {sender} {receiver} k spare u below =
      let size = length-chunk p scratch k below wide in
      let d = u.undisturbed in
      let len = length-chunk_plaintext p scratch k below wide in
      let (s, o, reader, linked, read, sealed, limit, crossed) =
        crosses parse_grid_chunk c out room now (chunk_sent p scratch k) sender receiver
          (chunk_plaintext p scratch k) law u.linked (omega (arith, len)) (omega (arith, len))
          (omega (arith, len))
          (received-message grid_chunk parse_grid_chunk (grid_chunk_body (chunk_at p scratch k)) (
            Parses-grid_chunk (chunk_at p scratch k) (omega arith) (omega (arith, size))
              (omega (arith, size)))) in
      let sent : (chunk_sent p scratch k (record sender { sealer = s })).grid_emitting
          ≡ some (emission_at p (k + size_at p scratch k)) =
        ground arith in
      let arrived =
        arrive-chunk scratch p (record receiver { opener = o; last_heard = now }) reader k u.client
          u.version u.reception below wide narrow read in
      (
        record (chunk_sent p scratch k (record sender { sealer = s })) { last_sent = now },
        _,
        ap (carry c room now receiver) (
              poll-grid c out scratch now d (chunk_plaintext p scratch k) (chunk_sent p scratch k)
                (omega (arith, u.linked.left)) (omega arith)
                (poll-chunk c out scratch p sender k d.agent u.emission below wide narrow))
            ∙ crossed
            ∙ ap
                (kept (record (chunk_sent p scratch k (record sender { sealer = s })) {
                  last_sent = now;
                }))
                arrived,
        record {
          client = u.client;
          version = u.version;
          emission = sent;
          reception = refl;
          within = omega arith;
          space = omega (
            arith,
            u.space,
            length-overwrite receiver.snapshot_buf k (chunk_at p scratch k).chunk,
          );
          contents =
              ap
                (λ n. take (k + n) (overwrite receiver.snapshot_buf k (chunk_at p scratch k).chunk))
                (sym size)
              ∙ take-overwrite receiver.snapshot_buf k (chunk_at p scratch k).chunk
                  (omega (arith, size, u.space))
              ∙ ap (λ xs. xs ++ (chunk_at p scratch k).chunk) u.contents
              ∙ sym (take-add k (size_at p scratch k) p.bytes);
          linked = linked;
          undisturbed = record {
            agent = d.agent;
            gate = d.gate;
            heard = d.heard;
            no_pong = d.no_pong;
            fresh = d.fresh;
            bytes = omega (arith, d.bytes, d.byte_width, sealed, limit, len, size);
            byte_width = omega (arith, limit, d.byte_width);
          };
        },
      )

  end_step :
      {sender receiver : Channel} (spare : ℕ)
      → Underway sender receiver (length p.bytes) (suc spare)
      → (sender' : Channel) × (receiver' : Channel) × (hop sender receiver
          ≡ some (sender', receiver', delivered_grid_snapshot p.bytes p.gen p.scrollback p.flags))
        × (sender'.grid_emitting ≡ none)
        × (receiver'.grid_receiving ≡ none)
        × (receiver'.agent_stream_gen ≡ p.gen)
  end_step {sender} {receiver} spare u =
      let (s, o, reader, linked, read, sealed, limit, crossed) =
        crosses (pure tt) c out room now end_done sender receiver end_plaintext {t = grid_end} law
          u.linked (omega (arith, length-encode_be 1 (code_of grid_end)))
          (omega (arith, length-encode_be 1 (code_of grid_end)))
          (omega (arith, length-encode_be 1 (code_of grid_end)))
          (ap (received (pure tt)) (sym (append-nil end_plaintext))
            ∙ received-message grid_end (pure tt) [] (λ r v e. refl)) in
      let arrived =
        arrive-end scratch p (record receiver { opener = o; last_heard = now }) reader u.client
          u.version u.reception (u.contents ∙ take-all (length p.bytes) p.bytes (omega arith)) in
      (
        record (end_done (record sender { sealer = s })) { last_sent = now },
        _,
        ap (carry c room now receiver) (
              poll-grid c out scratch now u.undisturbed end_plaintext end_done
                (omega (arith, u.linked.left)) (omega arith)
                (poll-end c out scratch p sender u.undisturbed.agent u.emission))
            ∙ crossed
            ∙ ap (kept (record (end_done (record sender { sealer = s })) { last_sent = now }))
                arrived,
        refl,
        refl,
        refl,
      )

  begin_step :
      (sender receiver : Channel) (spare : ℕ)
      → Undisturbed now (14 + 6 * length p.bytes) sender
      → sender.grid_emitting ≡ some (starting p)
      → is_client receiver.role ≡ true
      → protocol_version_grid ≤ receiver.version
      → receiver.grid_receiving ≡ none
      → length p.bytes ≤ length receiver.snapshot_buf
      → receiver.agent_stream_gen < p.gen
      → Linked c (suc spare) sender.sealer receiver.opener
      → 0 < length p.bytes
      → length p.bytes ≤ snapshot_max_bytes
      → p.scrollback ≤ length p.bytes
      → p.flags < 2
      → p.gen < u32_mod
      → (sender' : Channel) × (receiver' : Channel) × (hop sender receiver
          ≡ some (sender', receiver', delivered_nothing))
        × Underway sender' receiver' 0 spare
  begin_step sender receiver spare d emission client version idle space newer v some_bytes most
        scrolled flagged width =
      let m = begin_of (starting p) in
      let len = length-begin p in
      let (s, o, reader, linked, read, sealed, limit, crossed) =
        crosses parse_grid_begin c out room now (begun p) sender receiver (begin_plaintext p) law v
          (omega (arith, len)) (omega (arith, len)) (omega (arith, len))
          (received-message grid_begin parse_grid_begin (grid_begin_body m) (
            Parses-grid_begin m (omega arith) width (omega arith) (omega arith) flagged some_bytes
              most scrolled)) in
      let arrived =
        arrive-begin scratch p (record receiver { opener = o; last_heard = now }) reader client
          version idle most space scrolled newer read in
      (
        record (begun p (record sender { sealer = s })) { last_sent = now },
        _,
        ap (carry c room now receiver) (
              poll-grid c out scratch now d (begin_plaintext p) (begun p) (omega (arith, v.left))
                (omega arith)
                (poll-begin c out scratch p sender d.agent emission some_bytes most scrolled flagged
                  width))
            ∙ crossed
            ∙ ap (kept (record (begun p (record sender { sealer = s })) { last_sent = now }))
                arrived,
        record {
          client = client;
          version = version;
          emission = refl;
          reception = refl;
          within = omega arith;
          space = space;
          contents = refl;
          linked = linked;
          undisturbed = record {
            agent = d.agent;
            gate = d.gate;
            heard = d.heard;
            no_pong = d.no_pong;
            fresh = d.fresh;
            bytes = omega (arith, d.bytes, d.byte_width, sealed, limit, len);
            byte_width = omega (arith, limit, d.byte_width);
          };
        },
      )

  abbrev pub Arrives : ℕ → Channel → Channel → Type 0
  Arrives fuel sender receiver =
      (sender' : Channel) × (receiver' : Channel) × (transfer c out scratch room now fuel sender
          receiver
        ≡ some (sender', receiver', delivered_grid_snapshot p.bytes p.gen p.scrollback p.flags))
      × (sender'.grid_emitting ≡ none)
      × (receiver'.grid_receiving ≡ none)
      × (receiver'.agent_stream_gen ≡ p.gen)

  last_arrives :
      (fuel : ℕ) {sender receiver : Channel} (k : ℕ)
      → Underway sender receiver k (suc fuel)
      → k ≡ length p.bytes
      → Arrives (suc fuel) sender receiver
  unfolding transfer
  last_arrives fuel {sender} {receiver} k u e =
      let (sender', receiver', hopped, sent, idle, known) =
        end_step fuel (subst (λ n. Underway sender receiver n (suc fuel)) e u) in
      (
        sender',
        receiver',
        ap (on_exchanged (transfer c out scratch room now fuel)) hopped,
        sent,
        idle,
        known,
      )

  chunks_arrive :
      (fuel : ℕ) {sender receiver : Channel} (k : ℕ)
      → Underway sender receiver k (suc fuel)
      → length p.bytes - k ≤ fuel
      → Arrives (suc fuel) sender receiver
  unfolding transfer
  chunks_arrive zero k u enough = last_arrives zero k u (omega (arith, u.within))
  chunks_arrive (suc fuel) {sender} {receiver} k u enough = elim (dec_lt k (length p.bytes)) [
    | yes below ↦
        let (sender1, receiver1, hopped, u1) = chunk_step k (suc fuel) u below in
        let (sender2, receiver2, run, sent, idle, known) =
          chunks_arrive fuel (k + size_at p scratch k) u1 (omega arith) in
        (
          sender2,
          receiver2,
          ap (on_exchanged (transfer c out scratch room now (suc fuel))) hopped ∙ run,
          sent,
          idle,
          known,
        )
    | no over ↦ last_arrives (suc fuel) k u (omega (arith, u.within))
  ]

  arrival :
      (sender receiver : Channel)
      → Undisturbed now (14 + 6 * length p.bytes) sender
      → sender.grid_emitting ≡ some (starting p)
      → is_client receiver.role ≡ true
      → protocol_version_grid ≤ receiver.version
      → receiver.grid_receiving ≡ none
      → length p.bytes ≤ length receiver.snapshot_buf
      → receiver.agent_stream_gen < p.gen
      → Linked c (2 + length p.bytes) sender.sealer receiver.opener
      → 0 < length p.bytes
      → length p.bytes ≤ snapshot_max_bytes
      → p.scrollback ≤ length p.bytes
      → p.flags < 2
      → p.gen < u32_mod
      → Arrives (2 + length p.bytes) sender receiver
  unfolding transfer
  arrival sender receiver d emission client version idle space newer v some_bytes most scrolled
        flagged width =
      let again : 2 + length p.bytes ≡ suc (suc (length p.bytes)) = omega arith in
      let linked : Linked c (suc (suc (length p.bytes))) sender.sealer receiver.opener =
        subst (λ n. Linked c n sender.sealer receiver.opener) again v in
      let (sender1, receiver1, hopped, u) =
        begin_step sender receiver (suc (length p.bytes)) d emission client version idle space newer
          linked some_bytes most scrolled flagged width in
      let (sender2, receiver2, run, sent, idle', known) =
        chunks_arrive (length p.bytes) 0 u (omega arith) in
      (
        sender2,
        receiver2,
        ap (λ n. transfer c out scratch room now n sender receiver) again
            ∙ ap (on_exchanged (transfer c out scratch room now (suc (length p.bytes)))) hopped
            ∙ run,
        sent,
        idle',
        known,
      )

start_grid_started :
    (p : Snapshot) (now : Timestamp) (spent : ℕ) (sender : Channel)
    → (start_grid sender p.bytes p.flags p.gen p.scrollback).1 ≡ true
    → Undisturbed now spent sender
    → let sender' = (start_grid sender p.bytes p.flags p.gen p.scrollback).0 in
      Undisturbed now spent sender'
      × (sender'.grid_emitting ≡ some (starting p))
      × (sender'.sealer ≡ sender.sealer)
      × (0 < length p.bytes)
      × (length p.bytes ≤ snapshot_max_bytes)
unfolding start_grid
start_grid_started p now spent sender h d =
    (ground (arith, d), ground arith, ground arith, ground arith, ground arith)

-- A snapshot whose `StartGrid` is accepted is delivered whole, with its generation, scrollback and
-- flags, by a client's channel that what `Poll` gives is carried to frame by frame, within two
-- polls more than it has bytes; the agent has then nothing of it left to send, and the client has
-- its generation. The agent's channel has its gate open, owes no pong and does not take its peer
-- for silent, and neither its time nor its bytes call for the next key before the snapshot is
-- sent. The client speaks the grid's version, is receiving no snapshot, has room for this one and
-- knows an older generation; the generation fits 32 bits, the scrollback is no longer than the
-- snapshot and the flags are known ones; the sealer and the opener are at one key with enough
-- frames left before the limit, the encryption does what its documentation says, and the buffers
-- hold the largest frame.
pub start_grid_arrives :
    (c : Sodium) (out scratch room : ℕ) (now : Timestamp) (p : Snapshot) (sender receiver : Channel)
    → IsSodium c
    → (start_grid sender p.bytes p.flags p.gen p.scrollback).1 ≡ true
    → Undisturbed now (14 + 6 * length p.bytes) sender
    → is_client receiver.role ≡ true
    → protocol_version_grid ≤ receiver.version
    → receiver.grid_receiving ≡ none
    → length p.bytes ≤ length receiver.snapshot_buf
    → receiver.agent_stream_gen < p.gen
    → p.gen < u32_mod
    → p.scrollback ≤ length p.bytes
    → p.flags < 2
    → Linked c (2 + length p.bytes) sender.sealer receiver.opener
    → chunk_header + 1 ≤ scratch
    → header_size + max_frame ≤ out
    → max_frame ≤ room
    → (sender' : Channel) × (receiver' : Channel) × (transfer c out scratch room now
          (2 + length p.bytes)
          (start_grid sender p.bytes p.flags p.gen p.scrollback).0
          receiver
        ≡ some (sender', receiver', delivered_grid_snapshot p.bytes p.gen p.scrollback p.flags))
      × (sender'.grid_emitting ≡ none)
      × (receiver'.grid_receiving ≡ none)
      × (receiver'.agent_stream_gen ≡ p.gen)
start_grid_arrives c out scratch room now p sender receiver law started d client version idle space
      newer width scrolled flagged v wide outward inward =
    let (d', emission, sealer, some_bytes, most) =
      start_grid_started p now (14 + 6 * length p.bytes) sender started d in
    arrival c law out scratch room now p wide (omega arith) outward inward
      (start_grid sender p.bytes p.flags p.gen p.scrollback).0 receiver d' emission client version
      idle space newer (subst (λ s. Linked c (2 + length p.bytes) s receiver.opener) (sym sealer) v)
      some_bytes most scrolled flagged width
