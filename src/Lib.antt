-- ===== src/Lib.antt =====
-- ntex-mqtt, an MQTT 3.1.1 and MQTT 5 framework: the codecs of both versions, its topic filters,
-- its flow control and the order of its responses.
--
-- The program. A connection reads bytes into a buffer; the version of the protocol is found in its
-- first packet (src/version.rs), the codec of that version (src/v3/codec, src/v5/codec) cuts frames
-- out of the buffer and decodes packets, a dispatcher hands them to the application's services
-- behind a limit on concurrent calls (src/inflight.rs), and the answers are encoded into the
-- outgoing buffer. A sink (src/v3/sink.rs over src/v3/shared.rs) sends the application's own packets
-- and waits for their acknowledgements. Topic filters (src/topic.rs) say which topics a subscription
-- covers.
--
-- The files, and what they model.
--   Base        library names passed on; lists over native numbers, Boolean tests, `Result` with a
--               constructor for a panic, bit masks.
--   Topic       src/topic.rs. `is_valid` is the automaton on bytes, `parse` is
--               `TopicFilter::try_from(ByteString)`, `display` is `Display`, `matches_topic` and
--               `matches_filter` are `match_topic` at its two instances of `MatchLevel`. Strings are
--               their bytes: every character that the code looks at is ASCII.
--   InFlight    src/inflight.rs. `CounterInner` with `inc`, `dec`, `available`; a step relation runs
--               the service: a call starts when `ready` has returned, guards drop in any order.
--   Dispatch    src/io.rs, the queue of responses: `handle_result` and `call_service` with its two
--               outcomes, a call that answers at once and one that is pending. The index arithmetic
--               wraps at 2^64.
--   Wire        src/utils.rs. Readers take from the front of a list of bytes and answer a value, an
--               error or a panic; a `Writer` is what an encoder appends, and its result. `Readers`
--               has the shapes that the decoders of both versions share, `Frames` the shape of a
--               frame.
--   Types       src/types.rs.
--   V3.Packet, V3.Decode, V3.Encode
--               src/v3/codec/packet.rs, decode.rs and encode.rs, one function for each of theirs.
--               The loops over topic filters run on fuel, the number of the bytes left, and panic
--               without it; that is enough, since each round takes at least two bytes.
--   V3.Codec    src/v3/codec/codec.rs. `decode` is the loop of `Decoder::decode` over its two
--               states; `encode` is `Encoder::encode`.
--   V3.Shared   src/v3/shared.rs. `State` has the data, `Operations` one function per method. A
--               channel is a number, and the parameter `alive` says whose receiver still exists; an
--               operation answers the new state and the list of its effects.
--   V3.Sink     src/v3/sink.rs. A future is cut where it waits: `send_at_least_once` runs up to the
--               first wait, `publish_when_woken` goes on from there. What `io.encode` answers and
--               whether the connection is closed are parameters, and every call of `io.encode` is an
--               effect with its answer: a refused packet may have left the start of a frame.
--   V5.PropertyType, V5.Reasons, V5.Packet
--               src/v5/codec/packet: the identifiers of properties, the reason codes with the tables
--               that `prim_enum!` makes of them, the packets.
--   V5.Property src/utils.rs and src/v5/codec/encode.rs. `read_properties` is the loop over the
--               properties, which all decoders have; it takes the `match` on the identifier as an
--               argument. It runs on fuel, the number of bytes of the properties, and panics without
--               it; a round takes a byte at least. `encode_opt_props` and `encoded_size_opt_props`
--               leave out what a limit has no room for, which `Fit` says independently.
--   V5.Lengths  src/v5/codec/encode.rs: `var_int_len` and its kin with their tables.
--   V5.Decode, V5.Encode
--               src/v5/codec/decode.rs and encode.rs, and the decoder, the encoder and the size of
--               every packet in src/v5/codec/packet. `RoundTrip` relates them packet by packet.
--   V5.Codec    src/v5/codec/codec.rs, with the flags and the two size limits.
--   Version     src/version.rs.
--
-- Machine integers. A `u8` is a number below 256 where a theorem says so, a `u16` and a `u32` keep
-- their wrap-around where they are added to or subtracted from, as without overflow checks; lengths
-- (`usize`) are numbers, and have 64 bits where the code counts bits.
-- Parameters: whether bytes are UTF-8 (`utf8`, the crate ntex-bytes), whose channel still has a
-- receiver (`alive`, ntex-util), and what encoding into the connection answers (`io_encode`,
-- ntex-io).
--
-- Not modelled: the queue and the dispatcher of MQTT 5, the dispatcher of 3.1.1, the poll loop of
-- src/io.rs with its timers, the handshake, routers and clients, whose state lives in the crates
-- ntex-io, ntex-service and ntex-router. Servers and services only wire those crates together. The
-- English reason texts of src/v5/codec/packet and the conversions into `Packet` only build values.
pub mod Base
pub mod Topic
pub mod InFlight
pub mod Dispatch
pub mod Wire
pub mod Types
pub mod V3
pub mod V5
pub mod Version
