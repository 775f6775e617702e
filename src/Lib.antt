-- ===== src/Lib.antt =====
-- A model of the evtx crate, which parses Windows event log files (paths are from the
-- repository's root).
--
-- A file is a header and chunks of 65536 bytes. src/evtx_parser.rs finds the chunks,
-- src/evtx_chunk.rs checks one, fills its caches of names and templates and iterates over its
-- records, src/binxml reads a record's binary XML into tokens, and src/binxml/assemble.rs expands
-- the templates, makes a record model of the tokens and calls a visitor, which is one of the
-- outputs.
--
-- Prelude has tests, lists, integers and texts. Foreign is the record of what other packages give
-- (winstructs, chrono, encoding, crc32fast, bitflags): every definition that uses it takes it as
-- a parameter. Err is src/err.rs: an outcome is a value, an error, a panic or the end of the
-- model's fuel. Cursor and Macros are src/macros.rs over an in-memory cursor: a reader takes the
-- bytes and a position, and gives a value and the new position. Strings is
-- src/utils/binxml_utils.rs and src/utils/time.rs (read_utf16_by_size,
-- read_len_prefixed_utf16_string, read_ansi_encoded_string, read_systemtime). Header has the
-- three headers: EvtxFileHeader::from_stream is from_stream, EvtxChunkHeader::from_reader is
-- chunk_header, EvtxRecordHeader::from_reader is record_header. Raw has BinXmlValueType::from_u8
-- and BinXMLRawToken::from_u8, Model the tokens of src/model/deserialized.rs, Name
-- src/binxml/name.rs, Value src/binxml/value_variant.rs (deserialize_value_type), Tokens
-- src/binxml/tokens.rs and Deserializer src/binxml/deserializer.rs (IterTokens is a state,
-- inner_next its step, read_binxml_fragment its loop). Settings is ParserSettings. Chunk is
-- EvtxChunkData of src/evtx_chunk.rs, Cache src/string_cache.rs and src/template_cache.rs,
-- Records EvtxChunk and IterChunkRecords, whose next is next_record. Parser is EvtxParser:
-- allocate_chunk, find_next_chunk, the chunk iterators' next as next_chunk, and in Parser/Batches
-- the batches of serialized_records; Parser/Open is from_path. Assemble is expand_templates and
-- expand_string_ref of src/binxml/assemble.rs, RecordModel create_record_model with src/model/xml.rs, and Visit
-- parse_tokens with the trait BinXmlOutput of src/xml_output.rs.
--
-- The outputs. Value/CowStr is as_cow_str and Value/ToJson the conversions into serde_json's values;
-- Display is how numbers are written, with a record for the formatting that other packages give.
-- SerdeJson is serde_json as a record of operations, with the laws that its documentation gives.
-- Json, Json/Insert and Json/Visitor are JsonOutput of src/json_output.rs: where a method of the
-- source gives a mutable reference into the document, the model's at_current_path and
-- at_current_parent take what the caller does with it. Xml is XmlOutput of src/xml_output.rs over a
-- writer of events. Serialize is into_output, into_json and into_xml of src/evtx_record.rs, and
-- Parser/Serialized is serialized_records and the iterators over it. Dump is src/bin/evtx_dump.rs:
-- Ranges::from_str is ranges_from_str, run's loop is dump_records, Dump/Run has run, and Dump/Cli
-- from_cli_matches and create_output_file. Hexdump is src/utils/hexdump.rs.
--
-- Definitions stand in the modules named so far, in Parser/Batches and in the loop of Records/Run;
-- the other modules below a component hold its proofs, and Tests runs the theorems at concrete
-- inputs.
--
-- Bytes are natural numbers, a wrap-around is written out, and floats are bit patterns. A `Cow`
-- is its value. A read of a file in memory fails only at its end.
--
-- Fuel. A fragment is read with two rounds more than the buffer has bytes: each nested read
-- starts behind the byte that names it. A sized array has a round more than its size. The search
-- for a chunk has a round more than the file has bytes, and filling a cache may follow a link for
-- each byte of the chunk and one more. The expansion of templates takes its fuel, the depth of
-- nested calls, as an argument, since a template may instantiate itself.
--
-- A JSON document looks for a free numbered name in one round more than the object has entries. A
-- hexdump has two rounds more than there are bytes. serialized_records has a fuel for the batches,
-- one for a chunk's records and one for the templates.
--
-- A record of a chunk is read with the same fuel, but there the source may go back in the bytes
-- (the heuristic for a missing dependency identifier) and need not end. A panic unwinds: it leaves no
-- batch, or none of the batch's records, and is the last item of serialized_records.
--
-- Not modelled: the parallel execution of a batch (its results are collected in the order of the
-- chunks), the definition of the command line, logging, and the text of error messages. The
-- visitors for CDATA sections and character references are never called.
pub mod Prelude
pub mod Foreign
pub mod Err
pub mod Cursor
pub mod Macros
pub mod Strings
pub mod Header
pub mod Hexdump
pub mod Json
pub mod Raw
pub mod Model
pub mod Name
pub mod Value
pub mod Tokens
pub mod Deserializer
pub mod Display
pub mod Dump
pub mod Settings
pub mod Chunk
pub mod Cache
pub mod Records
pub mod Parser
pub mod Assemble
pub mod RecordModel
pub mod SerdeJson
pub mod Serialize
pub mod Visit
pub mod Xml
pub mod Tests
