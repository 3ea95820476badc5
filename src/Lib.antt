-- ===== src/Lib.antt =====
-- libff: the data-carrying core of the C++ library: byte payloads, buffers, encodings, string
-- functions, values of several types, command lines and settings, identifiers, RTP packets, timing
-- wheel, ring buffer and checksums.
--
-- The parts and the code they are about (paths from the repository's root):
--   Payload      ff/src/buffer/Payload.cpp, ff/include/ff/Payload.h: the writer (`write_int`,
--                `write_string`, ... for the overloads of PayloadWriter::write), Payload/Reader the
--                reader (`read_int`, ... for those of PayloadReader::read, `next_data_type`), and
--                Payload/Printer PayloadReader::print. Flag, RoundTrip, Text, Array, Items,
--                Truncated, PrintRun and PrintItems hold the proofs.
--   Buffer       ff/src/buffer/Buffer.cpp: the members `data`, `size`, `capacity` and `readPos` as the
--                record `Buffer`, one function for each method. Valid has the invariant; Append,
--                Reading, Sizes and Faults the proofs.
--   Base64       ff/src/encrypt/Base64.cpp: Encrypt and Decrypt. Encoding has the encoding that
--                the encoder is compared with; Groups and RoundTrip the proofs.
--   Strings      ff/src/string/String.cpp: the functions on std::string. Search, ReplaceAll, Split
--                and Trim hold the proofs, by function.
--   Rtp          ff/src/rtp/RtpPacket.cpp, ff/include/ff/RtpPacket.h: the header and the packet,
--                which is a Buffer: `parse` calls its `clear` and `set_data`. Header and Parse hold
--                the proofs.
--   TimingWheel  ff/src/timer/TimingWheel.cpp: the wheel, addTask, getLastMs, doTick and one round of
--                run. Rounds holds the proofs.
--   Crc          ff/src/encrypt/CRC.cpp, ff/include/ff/CRC.h: the calculator; Crc/Parameters has the
--                sets of CrcParameter::Create. Reflect and Checks hold the proofs. A set of 64 bits
--                cannot be made: its mask shifts a word by its own width, which C++ leaves undefined.
--   CycleBuffer  ff/include/ff/CycleBuffer.h: the ring buffer. Window has the cells from a place on,
--                Queue the invariant and the proofs.
--   Variant      ff/src/variant/Variant.cpp, ff/include/ff/Variant.h: the value with its block. Types
--                has the types and their names, Convert the conversions; RoundTrip and Text the proofs.
--   Maps         std::map with strings as its keys, as far as Settings and CliPacket use it.
--   Cli          ff/src/cli/CliPacket.cpp: `parse` and `packet_text` (toString), over Variant, Maps and
--                Strings. Words, Scanner, Members and RoundTrip hold the proofs, from the words of a
--                line to the whole of it.
--   Settings     ff/src/settings/Settings.cpp: the values and the registered functions. The calls of them
--                are recorded, and what they do to the values is a parameter, `react`. Values and Observers
--                hold the proofs.
--   CmdLine      ff/src/app/CmdLineParser.cpp: `init` and `parse_args` (parse), which sets values of a
--                Settings, whose functions, if it has any, leave the values alone. Parse holds the
--                proofs.
--   Snowflake    ff/src/random/Snowflake.cpp: `gen` on a list of readings of the clock. Layout and Order
--                hold the proofs.
--   Uuid         ff/src/random/UUID.cpp: the bytes, fields and text of a UUID. Digits and RoundTrip hold
--                the proofs.
--   HexFormat    ff/src/numeric/HexNumberFormater.cpp: `format` and `parse_hex` (parse). RoundTrip holds
--                the proofs.
--   Ip           ff/src/network/IP.cpp, ff/include/ff/IP.h: parseV4 and toString. Octets has the texts of
--                the numbers, RoundTrip the proofs. parseV6 and host names are not modelled.
--   ByteOrder    ff/src/buffer/Buffer.cpp, ReverseBytes, and ff/include/ff/Endian.h. Reversal and
--                Conversion hold the proofs.
--   HexText      ff/src/buffer/Buffer.cpp: toHexString, toBinaryString and fromHexString, over Buffer and
--                Strings. Digits and RoundTrip hold the proofs.
--   Timer        ff/src/timer/Timer.cpp, ff/include/ff/Timer.h: the list of tasks, linked both ways, and the
--                operations on it. Nodes has the memory; Chain says what the links stand for. Insertion and
--                Pending hold the proofs on processNewTasks, Expiry and Faults those on the pass of the
--                timer's thread, Invariant, NextWait and Cancel those on the whole timer.
--   ThreadPool   ff/src/thread/ThreadPool.cpp: `get_thread` up to its wait, `take_idel` behind it, and
--                `put_thread` (PutTaskThreadPtr). Steps has the relation of the steps that the threads take;
--                Bounds and Wakeups hold the proofs.
--   FilePath     ff/src/file/File.cpp: the path of a File. Normal, Joined, RoundTrip and Children hold the
--                proofs. What asks the file system is not modelled.
--
-- Prelude holds what they share: lists and tests over the native numbers, memory (`copy_in`,
-- `copy_out`, little-endian bytes, uint32_t arithmetic), numbers as text, and facts on bits.
--
-- State is passed explicitly: a method takes the object and returns it with its result. A memory
-- access outside a block, which C++ leaves undefined, is a value of its own (`none`, `fault`,
-- `out_of_bounds`), so that a theorem that gives a result also says that there is no such access. (The
-- model of ReverseBytes reads 0 outside the memory and writes nothing there.)
-- Numbers wrap where the code's types do (uint32_t, size_t, uint8_t). A position that the code keeps in
-- an int is one below 2^31 or negative; where an int would overflow a model gives `none`. A byte is a number; memory that
-- `new` left indeterminate is a cell without one.
--
-- Fuel: PayloadReader::print, ReplaceAll, Split and ReverseBytes have loops whose end is a theorem. Their
-- models take a number of rounds. One more than the number of values is enough for `print`, one more
-- than the characters for ReplaceAll, the characters for Split, and half the bytes and one more for
-- ReverseBytes; the loops along the links of a Timer take a round for each task. The wait of Snowflake
-- ends with the list of readings. All other loops are structural.
--
-- What the standard library's streams give for a float, a double or the text of a number is a record of
-- parameters (`Streams`).
--
-- Not modelled: the class Payload around reader and writer, the regular expressions and number
-- conversions of String, the threads around the timing wheel and the timer, the files of Settings, the results that a command line tool reads (CliResult from a text), and the
-- other parts of the library: files, network, processes, logs, databases, compression and the Windows
-- wrappers are system or third-party calls; JSON and zlib are copies of other projects.
-- `isspace`, `tolower` and `toupper` are taken as in the "C" locale, and ntohs and ntohl as on a
-- little-endian host.
pub mod Prelude
pub mod Payload
pub mod Buffer
pub mod Base64
pub mod Strings
pub mod Rtp
pub mod TimingWheel
pub mod Crc
pub mod CycleBuffer
pub mod Cli
pub mod CmdLine
pub mod Snowflake
pub mod Uuid
pub mod HexFormat
pub mod Ip
pub mod ByteOrder
pub mod Maps
pub mod Settings
pub mod Variant
pub mod Timer
pub mod FilePath
pub mod ThreadPool
pub mod HexText
