-- ===== src/Lib.antt =====
-- Models of Wave's protocol cores, modules/common/*.rs and the HTTP wire formats of
-- modules/foundation/http/wire, and theorems on them. The cores are pure functions and small state
-- machines without input or output; the modules under modules/foundation mount them and supply
-- sockets, timers and channels.
--
-- The parts:
--   * H3: modules/common/h3_datagram.rs. H3/Datagram has `H3Datagram`, `write` and `parse`;
--     H3/QuicPayload has `parse_quic_payload` and `write_quic_payload`.
--   * Jitter: modules/common/jitter_core.rs, the reorder window between the RTP receiver and the
--     playout. Jitter has the operations, Jitter/Invariant and Jitter/Advance what they keep,
--     Jitter/Window the view by distance from the next sequence number, Jitter/Insert and Jitter/Skip
--     `insert` and `skip_hole` on that view.
--   * Sframe: modules/common/sframe_core.rs. Sframe/Replay has `SframeReplayWindow`, its children
--     Spec the policy over the history of accepted counters and Stream whole sequences of counters;
--     Sframe/Header has the header codec, the split of a frame and the nonce.
--   * Ws: Ws/Mask and Ws/Header model modules/common/ws_frame_core.rs (`ws_mask_apply`,
--     `ws_decode_header`), which the client of modules/common/ws_core.rs uses: Ws/Frame has `ws_frame`
--     and `ws_parse_frame_checked`, Ws/Phase has `ws_transition`.
--   * Sip: modules/common/sip_dialog.rs, `SipDialogFsm`. Sip/Dialog/Calls has whole calls, with the
--     media flow that the commands switch.
--   * Stun: modules/common/stun_txn.rs, `StunTxn`, `stun_txn_id` and the result record, in Stun/Txn;
--     Stun/Message has the header and the attributes of modules/common/stun_core.rs, its
--     children RoundTrip a message as its sender builds it and Address the values of its attributes.
--   * Turn: the ChannelData framing of modules/common/turn_core.rs, which shares a socket with the messages
--     of Stun/Message; Turn/Attributes has its attributes.
--   * Http: modules/foundation/http/wire. Http/Frame has the frame header and the writers of h2.rs,
--     Http/Extent the extents of padded payloads; Http/Integer has the integers and strings of hpack.rs,
--     Http/Block its header blocks, which use Http/Huffman, modules/common/huffman_core.rs.
--   * Smtp: modules/common/smtp_core.rs. Smtp/Body has the message bodies, its child Receiver the
--     server's side of RFC 5321; Smtp/Session has the reply lines and `smtp_on_reply`, its child Delivery
--     whole conversations.
--   * Rtp: Rtp/Header models modules/common/rtp_core.rs, `rtp_parse` and `rtp_mid`; Rtp/Records the
--     records of modules/common/rtp_wire.rs between the RTP receiver, the jitter buffer and RTCP;
--     Rtp/Congestion modules/common/rtp_congestion.rs, `RtpCongestion`; Rtp/Pacer
--     modules/common/rtp_pacer.rs, `RtpPacer`.
--     Rtp/Routes modules/common/rtp_route.rs, `RtpRouteTable`.
--   * Srtp: modules/common/srtp_core.rs. Srtp has the replay window and the packet indices, Srtp/Window
--     the window against a policy, Srtp/Rollover the index that the receiver of
--     modules/foundation/rtp/mod.rs assumes, Srtp/Gcm and Srtp/Cm the two profiles, and Srtp/Keys the
--     derivation of session keys. AES, AES-GCM and SHA-1, which the SDK provides, are parameters.
--   * Route: modules/common/http_route_key.rs. Route/Path has the normalisation of paths, Route/Host
--     `norm_host`, Route/Target the forms of a request target, Route/Key `route_key` and its digest.
--     Route/Path/Resolved and Route/Path/Segments have paths as lists of segments.
--   * Utf8: modules/common/utf8_core.rs, `valid_utf8`.
--   * Hex: modules/common/hex_core.rs, `hex_decode` and `hex_encode`.
--   * Common: Boolean tests, lists, bits, bytes and big-endian digits over the native numbers.
--
-- A `&mut self` method returns the new state, a function that fills a buffer returns the buffer
-- beside its answer, and a byte string is a list of numbers, below 256 where a theorem says so.
-- Words are numbers, with their wrap-around written out where the code can reach it.
--
-- Loops and their bounds: the loops of `sframe_width` and `skip_hole` stop by their own second
-- test after 7 and 16 rounds, and the model counts these rounds. `rtp_mid` scans the extension
-- with one round for each of its bytes, which is enough since every round consumes one.
-- `hex_decode`, `hex_encode`, `ws_mask_apply` and `StunTxn::matches` are recursions on the list
-- they walk; `valid_utf8` has one round for each byte of its input, which is enough since every
-- round takes one. The byte order of the target and its largest `usize` are parameters.
--
-- `decode_block` and the attribute walks take a number of rounds: `decode_block` is used with as many as
-- the block has bytes, every round consumes one or more, and its outcome tells want of rounds apart from
-- the end of the block and from an error; the walks have one for every byte of the
-- section, and an attribute has four or more. The loops of the HPACK integers are recursions on the
-- bytes that are left, since both stop at the end of their buffer.
--
-- `remove_dot_segments` has one round for each byte and one more, and `ipv6_ok` one for each byte, which is
-- enough since every round consumes one or more. The loops of `aes_cm_xor` and of the key derivation
-- have as many rounds as bytes, and each round takes one or more.
--
-- A raw pointer with a length is the list of the bytes that it may touch. What a writer that fails has left
-- in its buffer is not modelled.
--
-- Not modelled: the modules under modules/foundation but what is named above, which are channel and
-- timer plumbing and the HTTP and S3 servers; QPACK and the framing of HTTP/1 and HTTP/3; the cores for
-- RTCP, payload formats, SIP and SDP text, mail messages, RTP clock mapping and S3; of the route keys,
-- the scan of an HTTP/1 head and `canonical_authority`; the integrity and the fingerprint of STUN
-- messages, and what needs them; the long-term key of TURN; AES, SHA-1, SHA-256 and Base64, which the
-- SDK provides; fixtures, tools and packaging.
pub mod Common
pub mod H3
pub mod Hex
pub mod Http
pub mod Jitter
pub mod Route
pub mod Rtp
pub mod Sframe
pub mod Sip
pub mod Smtp
pub mod Srtp
pub mod Stun
pub mod Turn
pub mod Utf8
pub mod Ws
