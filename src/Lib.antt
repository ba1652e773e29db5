-- ===== src/Lib.antt =====
-- Verification of aliro_ccc_core, a C++ library for an Aliro UWB ranging responder.
--
-- The program. A session of ranging is set up by messages over another link (SetupMessageCodec), takes
-- its keys from a ranging secret (CccKeyDerivationEngine over ICryptoProvider), receives and sends frames
-- of the air interface (FrameCodec), whose payloads the SP0 engine seals and opens (Sp0SecurityEngine),
-- and turns the timestamps of an exchange into a distance (DistanceEstimator) that is trusted after some
-- consecutive agreement (RangeConsensusFilter), with detectors beside it for obstructed paths and
-- unstable angles. The session drives the radio through a controller (DW3000Controller), which calls the
-- vendor's driver, and hears of receptions and transmissions through the controller's callbacks.
--
-- The files. Paths are from the repository's root.
--   Base      numbers of machine words, signed integers, buffers as lists, `|`, `&` and `^`
--   Core      include/uwb/core: StatusCode, Result, the enumerations of Types.hpp
--   Frame     src/protocol/FrameCodec.cpp: decodeHeader is decode_header, and so on; an encoder takes
--             the output buffer and returns the result and the buffer behind it
--   Crypto    Provider: ICryptoProvider as a record, and MbedTlsCryptoProvider over a record for the
--             Mbed TLS library; Kdf: src/crypto/CccKeyDerivationEngine.cpp;
--             Sp0: src/crypto/Sp0SecurityEngine.cpp
--   Ranging   Hopping, Distance, Consensus, Aoa: the files of src/ranging; Nlos and Stability: the two
--             detectors of include/uwb/ranging/NlosDetector.hpp
--   Setup     include/uwb/protocol/SetupMessageCodec.hpp; Tlv: the writer and the parser of
--             src/protocol/SetupMessageCodec.cpp; Codec: its messages
--   Transceiver  src/transceiver/DW3000Controller.cpp: Platform has the driver's calls and answers, the
--             members and the trace of calls; Phy is initialize and configurePhy; StsKeys the loading of
--             keys; Arming the three starts; Reading timestamps, frames and diagnostics; Events
--             handleDriverRxSuccess; Uses the relation of its operations
--   Session   src/session/RangingSession.cpp: State has the members; PrePoll is decodePrePollFrame, over
--             the members that it reads and writes (Freshness) and those that it only reads
--             (SessionKeys); Cycle is deriveCycleKeys; Schedule is roundsPerBlock, blockStsStride,
--             pollStsIndexFor, scheduledRoundFor and nextScheduledExchange; Material is
--             deriveSessionMaterial; Listening is armPrePollListening, processStashedPrePoll and
--             refreshWarmKeys; Exchange has the handlers of the Pre-Poll, the Poll, the transmission and
--             the Final; FinalData is handleFinalDataReception; Control is start, stop, suspend, resume
--             and resumeWithAnchor; Dispatch is onRxSuccess and the other events, and the driver's
--             callbacks that raise them; Runs has the events, the steps and the runs of a session;
--             SentFrames says what another device puts into a frame
--   Checks    runs at concrete inputs
--
-- Conventions. A name of the source keeps its words: calculateSignedTofTicks is
-- calculate_signed_tof_ticks. A strong type is its number, an unsigned integer a natural number with
-- its wrap-around written out, a signed one an integer that is brought into its width where the source
-- converts it. An object is a record that its operations take and return. An out parameter is returned
-- beside the result, so that what an error leaves behind is seen. Addresses, spans and arrays are lists
-- of bytes; where a theorem needs a length or a range of bytes, it says so.
--
-- Parameters. The cipher and the CMAC (CryptoProvider, with the length of their outputs), the Mbed TLS
-- library (MbedTls), floating-point arithmetic (Floats), and the radio's driver with the pins and the
-- clock (Platform): what a call answers is a function of the call and of the calls before it. Environment
-- gathers these with the configuration of the build. The callback of a session is the list of the results
-- that it was called with.
--
-- Fuel. parse_elements runs on fuel, the end of its message, and each element takes two bytes at least;
-- blocks of the SP0 engine are 16 bytes and their loops run on the length of the input.
--
-- Not modelled. The functions that hand the SPI device to the driver, and the statics that register the
-- one active controller; the hardware interfaces of include/uwb/hal, which have no code; logging (no
-- logger is attached to a session), the names of status codes and states, and the replacement for
-- std::expected.
pub mod Base
pub mod Core
pub mod Frame
pub mod Crypto
pub mod Ranging
pub mod Setup
pub mod Transceiver
pub mod Session
mod Checks
