-- ===== src/Lib.antt =====
-- A model of the JavaScript layer of webrtc-node, a WebRTC data channel library for Node.js on
-- libdatachannel. The program is lib/index.js; the native addon under src/native is not modelled, and
-- what it answers (whether a channel is open, what it has buffered, its events) stands in fields and
-- arguments of the model.
--
-- How the parts interact. An RTCPeerConnection owns its RTCDataChannels and their identifiers, keeps
-- the session descriptions of both sides, and derives from them the signaling state and the limits of
-- the SCTP transport. Descriptions are SDP texts, which the program splits into sections, checks, and
-- edits line by line for ICE candidates. A data channel hands messages to the native channel, or to
-- the channel it is paired with in the same process, and queues what it receives for the consumers
-- of its events. All of them are event targets.
--
-- The files:
--   Base          shared names, tests on numbers, lists, texts as lists of UTF-16 units, exceptions
--                 as values, numbers of JavaScript.
--   Sdp           Lines, Sections (splitSdpLines, parseSdpMediaSections, serializeSdp), Description
--                 (RTCSessionDescription, tests by regular expressions, the syntax check),
--                 Candidates (validateCandidateSyntax, selectCandidateSections,
--                 appendRemoteCandidateToDescription, strip and extract), Parsing (parseCandidate,
--                 sameCandidateEndpoint), Rewriting (randomIceCredential,
--                 rewriteIceCredentials).
--   Channel       Data (payloads and sizes), Sending (send, _enqueueSend, bufferedAmount), Inbox (the
--                 message queue, its gates, the batch path), Lifecycle (readyState and its events).
--   Events        SimpleEventTarget, callListener, reportListenerError.
--   Peer          Descriptions (the descriptions of both sides, _descriptionSignalingState,
--                 _currentSctpMaxMessageSize), Registry (_registerDataChannelId and the search for
--                 identifiers), Negotiation (Create: createOffer, createAnswer, restartIce; Local:
--                 setLocalDescription, with Special and General; Remote and Taking: setRemoteDescription;
--                 Jsep: the state machine of the specification and how the calls follow it),
--                 Operations (_finishPendingOperation, the deferred ICE events and their turns),
--                 Transport (_updateSctpTransport and what it schedules).
--   Wpt           assignWptSpecGroups of scripts/wpt-sharding.js.
--   Config        Init (enforceRange, toUnsignedLong, normalizeDataChannelInit), IceUrl, Servers
--                 (normalizeIceServers, normalizePeerConnectionConfiguration), CandidateInit
--                 (normalizeAddIceCandidateInput, configurePeerConnection).
--   Tests         runs at concrete inputs.
--
-- Methods that change an object are functions from its state to its state; a method that throws
-- returns a Result. A callback in a timer is an entry of a list in the state, and a step may run any
-- callback at any time, so that the orders that the timers can give are among those of the model.
-- Calls that leave the modelled object are logged, or are steps of the other object. Consumers of
-- events are functions that give the actions they perform on the object and whether they throw.
--
-- A call of the negotiation is two functions: what it does up to its first wait, where it may throw,
-- and what it does behind it. The second is one step, and returns, throws or is never settled, with
-- the state in each case; its later waits end nothing and no other step comes between. The answers of
-- the native peer are a record that is an argument. Calls that lead to the registry for pairing, the
-- transports or the candidates are logged in the order in which they are made.
--
-- Fuel. The flush loop takes a message in each round, so fuel above the number of waiting messages is
-- enough. The search for an identifier steps by two and ends at 65534, so 32768 rounds are enough.
-- Times and sizes are natural numbers; a sum of sizes above 2 ^ 53, where JavaScript rounds, is not
-- considered.
--
-- Not modelled: addIceCandidate behind the reading of its input and _ensureLocalAnswerApplied, the
-- pairing of peers, the announcement of data channels, the ICE and DTLS transports, statistics,
-- certificates, and the scripts other than assignWptSpecGroups; most of these work on processes,
-- files and the network.
pub mod Base
pub mod Sdp
pub mod Channel
pub mod Config
pub mod Events
pub mod Peer
pub mod Wpt
mod Tests
