-- ===== src/Lib.antt =====
-- Verification of the MaxCompute (ODPS) SDK for Go.
--
-- The SDK reads and writes the rows of tables through the tunnel service. A column has a data type,
-- whose name the parser of odps/datatype reads; a row is a record of values of odps/data; the record
-- writer of odps/tunnel turns records into tagged fields of protocol buffers, with a checksum behind
-- each record and the count of records and a checksum of the checksums at the end; the record reader
-- reads them back and checks all of it. A pack buffers records through a record writer; its flush
-- hands the bytes to a stream upload session, which sends them to the slots of the service in turn
-- and keeps these up to date. An upload session collects blocks and commits them. The Arrow streams
-- carry bytes in chunks, each with a checksum, and a checksum of everything at the end.
--
-- Prelude, Prelude/Boolean, Prelude/Lists, Prelude/Int: numbers, lists, signed integers.
-- Outcome: a value, an error or a run-time panic of a call, with the state behind it.
-- Text, Text/Decimal, Text/Unicode: Go strings as code points; `strconv.ParseInt` and `%d`;
--   `unicode` and the functions of `strings`, with the classes above ASCII as parameters.
-- Words, Bits: conversions between integer types, with their wrap-around; little-endian bytes.
-- Datatype: odps/datatype/data_type.go. `TypeId` is TypeID, `type_code_from_str` TypeCodeFromStr,
--   `type_id_string` String, `DataType` the types with their ID (`id`) and Name (`name`).
-- Datatype/Equal: IsTypeEqual, on fuel for the depth of the first type; Equal/Total: it is enough.
--   Equal/Same and Equal/Flat: the types that it takes for equal, where they hold no struct.
-- Datatype/Tokens, Datatype/Parser: odps/datatype/data_type_parser.go. `tokenize` is tokenize,
--   `parse` the method of that name with parseArray, parseMap and parseStruct, `parse_data_type`
--   ParseDataType. The fuel is the number of tokens and one more.
-- Datatype/WellFormed, Written, Scan, Tokenized, RoundTrip, Quoted, Total: what types are, how
--   their names fall into tokens, and the theorems on the parser.
-- Data, Data/Instant, Data/Make, Data/TypeOf: odps/data. A `data.Data` that may be nil is a `Cell`.
--   Instants are seconds and nanoseconds; NewIntervalDayTime, MakeChar, MakeVarChar and the methods
--   Type are functions.
-- Data/Composite/Arrays, Maps, Structs: odps/data/array.go, map.go and struct.go as objects whose
--   methods change them: `safe_append` is SafeAppend, `safe_set` SafeSet, `set_named` SetField,
--   `safe_set_field` SafeSetField, `infer_items` and `infer_entries` TypeInfer. A map's entries come
--   in the order in which a loop over it runs. Structs/Indexed: the indexes of a struct.
-- Tunnel/Protowire: what is used of google.golang.org/protobuf/encoding/protowire, as a parameter,
--   and its documented behaviour as the hypotheses of the round trips.
-- Tunnel/Crc: odps/tunnel/crc32_checksum.go, bit by bit; Crc/Append: updates by pieces.
-- Tunnel/StreamWriter, Tunnel/StreamReader: odps/tunnel/protoc_stream_writer.go and
--   protoc_stream_reader.go, over a sink that takes everything and over a body that gives bytes and
--   then an error.
-- Tunnel/Writer: odps/tunnel/record_protoc_writer.go. `write`, `write_field` and `close` are the
--   methods of those names; the loops of writeArray, writeMap and writeStruct are `write_items`,
--   `write_keys`, `write_values` and `write_members`. Writer/Closed: the mark of a closed writer.
-- Tunnel/Reader/Field, Tunnel/Reader: odps/tunnel/record_protoc_reader.go. `read` is Read, a round
--   of its loop is `read_round`, `iterate` is Iterator with a function that changes a state. The
--   fuel is the number of bytes left and one more, and each round takes a byte at least.
-- Tunnel/Reader/Field/Total, Tunnel/Reader/Total: how far reads move on, and the fuel.
-- Tunnel/RoundTrip: writes and the reads behind them. Stream and Time are the parts; Transmits pairs
--   a write with its read; Fits are the values that a column can hold, with Collect for maps and
--   structs; Scalar, Field, Column, Columns, Record, Streamed, Trailer and Whole go up to
--   the stream.
-- Tunnel/Pack: odps/tunnel/record_pack_stream_writer.go. `append`, `flush` and `reset` are Append,
--   Flush and Reset; the session's flushStream is a parameter. Pack/Calls are inversions, Pack/Steps
--   the sequences of calls against a list of records, Pack/Retry the calls behind a failed flush,
--   Pack/Delivered what the record reader makes of a flush, Pack/Uploaded a pack over a stream upload
--   session.
-- Tunnel/Schema, Tunnel/Retry: odps/tunnel/common.go. `to_table_schema` is toTableSchema, `retry` is
--   Retry, with the call as a parameter; Retry/Tries are the calls that it makes.
-- Tunnel/Slot: odps/tunnel/slot.go, with `rand.Intn` as a parameter. The methods hold a lock, so a
--   run of several goroutines is a sequence of calls.
-- Tunnel/Session, Session/Load: odps/tunnel/stream_upload_session.go. `flush_stream` is flushStream,
--   `load_information` loadInformation, `create_session` CreateStreamUploadSession; what the service
--   answers to the requests is a parameter, `Service`. Session/Settles, Routing, Refreshed, Flushes,
--   Created and Malformed: that the calls return, what they do with slots before and behind an
--   upload, the flushes, and the answers.
-- Tunnel/Upload, Upload/Status: odps/tunnel/upload_session.go. `commit` is Commit, `load` Load, over
--   a service as a parameter. Upload/Blocks compares blocks, Upload/Committed is on commits.
-- Tunnel/Arrow, Arrow/Writer, Arrow/Reader: odps/tunnel/arrow_stream_writer.go and
--   arrow_stream_reader.go. `write_arrow`, `close_arrow` and `read_arrow` are Write, Close and Read.
--   The size of chunks is an argument, which the source sets to `default_chunk_size`. The fuel of
--   Write is the number of bytes: each round writes one at least; that of Read is the length of the
--   slice and the bytes left, with three rounds more. Arrow/Pieces, Encoded, Delivers, Reads and
--   RoundTrip: writes in pieces, the stream they make, and the reads of it. Arrow/Loads and Bounds:
--   reads of any stream.
-- Tests modules: runs, and the theorems at concrete inputs. Tunnel/Tests/Wire has the wire format
--   of protocol buffers, with which the hypotheses of Tunnel/Protowire hold.
--
-- Values are compared as Go compares them where the reader fills a map: composite values, decimals
-- and JSON texts by address, so that two of them are never one key. Strings are sequences of code
-- points. An error with a stack counts as the error that it wraps. A slice of bytes is no longer than
-- 2^48, as on machines with addresses of 48 bits. A data type holds no nil, but the type of an array
-- or a map that was made with no type is told apart. A count of records stands for an int64, and the
-- theorems that depend on it are of fewer than 2^63 records.
--
-- Not modelled: the pooling of buffers and the metrics; HTTP requests, their query arguments and
-- connections, and the goroutine behind an upload, of which only the answer counts; flushes of one
-- session that run at the same time, whose calls interleave; inner writers of an Arrow stream that
-- fail; the download sessions, the compressors, the client of the service, the SQL driver, and the
-- copy of Apache Arrow, which is another project.
pub mod Prelude
pub mod Outcome
pub mod Text
pub mod Datatype
pub mod Bits
pub mod Words
pub mod Data
pub mod Tunnel
