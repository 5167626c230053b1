-- ===== src/Lib.antt =====
-- Verification library of opencodecs, a Python package of codecs for scientific images.
--
-- A container reader asks a data source for byte ranges, decodes the tiles that a region needs and
-- keeps what it decoded. The library models the parts of that path, and of the codecs, that are
-- algorithms of the package itself.
--
-- * `TileCache` is `DecodedTileCache` of src/opencodecs/core/tile_cache.py. `claim_round`, `store`,
--   `release` and `clear` are `claim`, `store`, `release` and `clear` under the lock, over a state
--   that holds the ordered dictionary, the claims in flight and the counters. `Threads` has any
--   number of threads that call them: a step is one critical section, or the `event.set()` that
--   follows it. The children are `Accounting` and `Invariant` (the byte counts), `Eviction` (what
--   goes and what stays), `Protocol` and `Safety` (what holds in every state that threads reach).
-- * `RangeIndex` is `RangeIndex` of src/opencodecs/core/_range_index.py. `Filed` and `Filing` are its
--   invariant, `Membership` what its operations do to the set of keys, `Search` and `Covering` the
--   search, `Sets` the whole index against a plain set.
-- * `PackBits` is the run-length coder of src/opencodecs/_dicomrle_codec.py, and `DicomRle` the
--   container around it, down to the byte planes of an array.
-- * `Bitstreams` is src/opencodecs/backends/_bitstreams.py: emulation prevention, the bit reader and
--   writer, exp-Golomb numbers, LEB128. Code that reads fields is a `Reader`, a function of the bytes
--   and the position with do blocks. `Hevc` is `hevc_sps` and what it calls, `Rewrite`
--   `hevc_sps_rewrite`, `hevc_vps_rewrite` and `_rewrite_bits`, `Av1` `av1_sequence_header` and
--   `av1_set_color`, `Annexb` and `Obus` the two ways of splitting a stream, `Records` the
--   configuration boxes. `Moves` and `Local` are about the bits that a reader consumes, `Prints` about
--   fields that are written and read; the parsers and the rewriters meet in `Rewrite/Signal` and
--   `Av1/SetColor`.
-- * `Heif` is src/opencodecs/backends/_heifbox.py: `Bytes` for numbers in bytes, `Prefixed` for units
--   behind their lengths, `Gets`, `Fields`, `Made` and `Config` for the hvcC box that
--   `Bitstreams/Records` makes, `Items`, `Parse` and `Reasons` for the reader, `Writer` for
--   `write_single_item`. `Laid` has boxes one behind the other, `Handled`, `Located`, `Entered` and
--   `ReadBack` what `parse` takes from written boxes, `Packed`, `Properties`, `Writable`, `Sizes` and
--   `Written` the bytes of the writer, and `Single`, `Placed`, `Sized`, `Colored` and `RoundTrip`
--   bring both together.
-- * `Ole` is src/opencodecs/_ole2.py, the reader of compound files: `Tables` for the header and the
--   tables, `Directory` and `Streams` for what its names say, `Runs` for the reads of whole runs,
--   `Chains` and `Walks` for `_read_chain` on every table, `Errors` for what it reports, `Wholes` for
--   chains whose sectors the file has, `Rounds` for the other loops, `Prefixes`, `MiniPrefixes` and
--   `Starts` for a whole stream and its start.
-- * `Ranges` is `coalesce_ranges` and `_spans` of src/opencodecs/core/io.py: `Sorting` for the order
--   of the ranges, `Placing` and `Splits` for what each range is cut from, `Limits` for the length of
--   the fetches, `Spans` for the parts of one range.
-- * `Pipeline` is `map_bounded` and `range_batches` of src/opencodecs/core/pipeline.py: `Filling` and
--   `Order` compare the scheduler with running the tasks in sequence, `Bounds` is about its limits,
--   `Batches` about `range_batches`.
-- * `Pyramid` has the level choice and the region bounds of src/opencodecs/core/pyramid.py (`Levels`,
--   `Axis`).
-- * `Packints` has the layout checks, the paired layout and the sample counts of
--   src/opencodecs/_packints_codec.py (`Paired`).
-- * `Common` has what these share: Boolean tests, lists, Python's ordered dictionary (`Dict`), results
--   of code that raises (`Result`), words and slices (`Bytes`), bit lengths (`Bits`), integers (`Int`).
--
-- Bytes, counts and offsets are natural numbers; a byte buffer is a list. A Python exception is
-- `none`, or `raise` with one constructor for each place that raises. Loops recur on the list that
-- is left, or on fuel: the length of the input for PackBits and the bit writer, whose rounds each
-- take an element, the value plus one for LEB128, which divides it, the length of the stream for
-- the OBUs, whose rounds each take two bytes at least, the bits of the payload for the zeros of an
-- AV1 number, the length of the range for boxes and of the data plus one for prefixed units, the
-- entries of the table plus one for the sectors of a chain, as the code has it, and its bytes for the
-- mini chain, the total for the spans, whose steps are at least 1, and the number of items plus two for
-- `map_bounded`, whose rounds each take a task but for the last two; the theorems hold with this
-- fuel.
-- The size of an array and its pixels are parameters, as numpy is not part of the package. The data
-- source of a compound file is the bytes of the file, and a read past its end gives fewer bytes.
--
-- Not modelled: the native bindings and the vendored C code, file and network access, the vendor
-- formats that are read field by field, the splitting of numpy arrays into byte planes, the bit
-- streams of packed integers that numpy packs, and the batches of `iter_regions`.
pub mod Common
pub mod TileCache
pub mod RangeIndex
pub mod PackBits
pub mod DicomRle
pub mod Bitstreams
pub mod Heif
pub mod Ole
pub mod Ranges
pub mod Pipeline
pub mod Pyramid
pub mod Packints
