-- ===== src/Lib.antt =====
-- A verification library for rbfeeder, the AirNav feeder client built on dump1090.
--
-- The receiver's samples, handed on in the buffers of fifo.c, become 14-byte Mode S messages. crc.c
-- computes their checksums and corrects wrong bits by tables of error syndromes; mode_s.c chooses a
-- correction, scores it with the help of the addresses that icao_filter.c remembers, decodes the
-- fields, with mode_ac.c for Gillham altitudes, and makes the addresses of correct squitters known
-- to the filter. comm_b.c guesses the register of a Comm-B reply from its content. track.c keeps
-- what the messages say of each aircraft, as long as it is not too old, and cpr.c turns its position
-- reports into places. net_io.c sends messages to others and takes in theirs. stats.c adds up what
-- was counted.
--
-- The files, and the code that each models:
--   Base      the shared lemmas: Boolean tests, lists, bits and fields of numbers, integers, words;
--             Double is the arithmetic of doubles
--   Crc       crc.c: Checksum (initLookupTables, modesChecksum), Tables (prepareErrorTable and what it
--             calls, modesChecksumInit, modesChecksumDiagnose, modesChecksumFix); the other children
--             hold proofs
--   IcaoFilter  icao_filter.c: Defs (all operations)
--   Fifo      fifo.c: Defs (all operations); the sample buffers on their way to the demodulator
--   ModeAc    mode_ac.c: Defs (modeACInit, modeAToModeC, modeCToModeA), Reply (decodeModeAMessage)
--   ModeS     mode_s.c: Bits (getbit, getbits of mode_s.h), Altitude (decodeID13Field, decodeAC13Field,
--             decodeAC12Field and the movement fields), Correct (correctMessage), Score
--             (scoreModesMessage), Message (struct modesMessage of dump1090.h), Squitter
--             (decodeExtendedSquitter and the decoders that it calls), Decode (decodeModesMessage)
--   CommB     comm_b.c: Reply (what the decoders have in common), Registers (decodeEmptyResponse,
--             decodeBDS10, 17, 20, 30 and 05), Intent (40), Turn (50), Speed (60), Weather (44), Choice
--             (decodeCommB); the other children hold proofs
--   Cpr       cpr.c: Zones (the NL function), Decode (the three decoders); the other children hold
--             proofs
--   Net       net_io.c: Beast (writeBeastMessage, and what decodeBinMessage reads), Frames (the Beast
--             mode of modesReadFromClient), Avr (modesSendRawOutput, and what decodeHexMessage reads),
--             Outputs (the filters of the Beast and raw outputs), Remote (decodeBinMessage,
--             decodeHexMessage, and useModesMessage of mode_s.c, for messages of others); the other
--             children hold proofs
--   Stats     stats.c: Totals (add_timespecs, add_stats)
--   Track     track.c: Validity (data_validity), Integrity (compute_nic, compute_rc, compute_v0_nacp,
--             compute_v0_sil), Aircraft (struct aircraft, trackCreateAircraft), Position (doGlobalCPR,
--             doLocalCPR), Locate (updatePosition), Versions, Motion, Fields and Update
--             (trackUpdateFromMessage), Periodic (trackPeriodicUpdate and what it calls), Chain (the
--             list of aircraft as pointers on a heap); the other children hold proofs
--   Util      util.c: Timespec (normalize_timespec)
--
-- A buffer of bytes is a list of numbers; a read past its end is 0, and the theorems ask for buffers
-- of the right size. Unsigned arithmetic that can wrap is reduced modulo 2 ^ 32. An output buffer is
-- an argument and a result, so that what the code leaves unwritten shows. A frame is handed to its
-- handler without the data behind it, and handlers do not close the connection, as those of net_io.c
-- return 0. The scan of a buffer runs on as much fuel as there are bytes, of which a turn takes at
-- least one. A loop is a recursion on the number of rounds that its bounds give; the probes of the
-- filter run on fuel 4096, the number of slots, after which a probe is back at its start. The tables
-- that the program computes once at start are definitions. A `float` is the exact value that the
-- code rounds. A `double` is the fraction that it is (Base/Ratio), and the operations of cpr.c,
-- track.c, net_io.c and stats.c that can round do, one by one, to 53 significant bits with ties to
-- even (Base/Double); values stay far from the ends of the range of exponents.
--
-- The decoder of Mode S messages takes that of Comm-B replies as a parameter, for which the tests
-- put in decodeCommB. In decodeBDS50 the comparison with the theoretical turn rate, which takes a
-- tangent, is a parameter.
--
-- The list of aircraft is a list of records, and the loop that takes stale aircraft out of it is
-- also modelled on a heap of nodes, on fuel of one more than there are aircraft. The distances on
-- the globe that greatcircle computes are a parameter (Geometry), as is the place of the receiver.
-- The time of a message is its own, as _messageNow is set from it. A speed in knots is truncated
-- from the square root of its square, which is below 8192.
--
-- Not modelled: the calls of `abort` and `assert`; the printing of messages; what was last printed
-- of each aircraft (the fatsv_ and an fields of struct aircraft); and every other part of the
-- program (the rest of networking, demodulation, receivers, the AirNav client), which calls these
-- parts.
pub mod Base
pub mod CommB
pub mod Cpr
pub mod Crc
pub mod Fifo
pub mod IcaoFilter
pub mod ModeAc
pub mod ModeS
pub mod Net
pub mod Stats
pub mod Track
pub mod Util
