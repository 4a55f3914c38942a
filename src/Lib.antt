-- ===== src/Lib.antt =====
-- den-atlas answers a media client's requests from a data set it holds in memory: a request passes the
-- gate of its class (src/admission.rs), is read (its configuration in the path by src/config.rs, its
-- query string by src/handler.rs and src/maturity.rs), answered from the cache or from an upstream
-- that may ask to be left alone (src/cache.rs, src/util.rs), and the body goes out through the layer
-- for conditional and range requests (src/http.rs). A filter (src/filter.rs) reads a selection of
-- kinds and values from the query and answers with the titles that match it.
--
-- Which file models what:
--   Admission            src/admission.rs. Admission.antt has Gate, the phases of a task that acquires
--                        and holds a permit, and one operation per atomic access of the code: `advance`
--                        is `Gate::acquire`, `Queued::enter` and the drops of `Queued` and `Permit`, cut
--                        at each shared access; `run` interleaves any number of tasks. Acquire runs one
--                        task alone, Jobs is `Admission::from_env`. Permits is what the code relies on
--                        of the tokio semaphore, an interface.
--   Cache                src/cache.rs. Cache.antt is the map of `TtlCache` with get, age, put, eviction
--                        and the loading of a file. Cache/Writer.antt is `put` and `save`: tasks that
--                        store rows, coordinators that write the file, and the file itself, as
--                        interleaved operations with failures of the disk and of the serializer.
--                        Cache/Memo.antt is `EmbedMemo`.
--   Http                 src/http.rs. `serve`, `parse_range`, `is_not_modified`, `if_range_matches` and
--                        `build`, with a response as its status, headers and body.
--   Upstream             src/util.rs. `Backoff`, `log_due`, and (Upstream/Allowance.antt) `retry_after` and
--                        `exhausted_for`; the clock's readings are arguments.
--   Calendar             src/util.rs. `civil_date` and `rfc3339`.
--   Config               src/config.rs and the table look-up of src/catalog.rs. `parse` and `country`;
--                        `split_config` of src/handler.rs in Config/Path.antt.
--   Query                src/handler.rs: `query_param`, `extra_value` and `percent_decode`.
--   Maturity             src/maturity.rs: the policy of a request, read from its query (`from_query`), what
--                        it admits (`allows_title_with`, `allows_direct`) and its identity in caches.
--   TitleSearch          crates/den-titlesearch. Export is src/export.rs, `ExportScanner`: Json.antt reads
--                        strings and numbers of a line, Export.antt is the scanner, and `BinaryHeap` is an
--                        interface (Export/Heaps.antt) that does not say which of several least titles is
--                        given up. Fold is src/fold.rs. Index is src/index.rs: the runs of titles by trigram
--                        that `TitleIndex::build` lays flat, and `TitleIndex::postings`.
--   Index                crates/den-index/src/regions.rs: the tables of regions and continents.
--   Franchises           src/franchises.rs. Franchises.antt reads the curated table of the store (`from_store`)
--                        and answers look-ups; Franchises/Members.antt is `members_for`.
--   Billing              src/billing.rs: `build` and `of`. Of the credits, kept by src/tmdb.rs, a title's roles
--                        are read.
--   Filter               src/filter.rs and the reading of traits of src/filter/people.rs. Spec has the kinds
--                        and their tables, Ids the canonical ids, Request the grammar of a selection
--                        (Request.antt), the parameters one by one and `Request::parse` as a whole. Bits is the
--                        sets of rows, Entities the posting lists, Interleaving the order of both types
--                        together. State is `Context`, Values its `value_bits`, Matching `matched_without`
--                        and `counted`.
--   Prelude              what they share: Boolean tests, lists over the native numbers, text as bytes with
--                        `str`'s operations, decimal numbers, maps as lists, permutations and
--                        sorting, results, and counting over tasks.
--
-- Numbers are naturals; a counter of 64 bits wraps around at 2^64, written out where it is changed,
-- and saturating operations stop at the largest word. A Duration is its nanoseconds. Every loop is
-- structural recursion but those that take a number of rounds: the eviction down to the limit after a
-- restart takes as many as there are rows, and each round takes one away; a number is written with as
-- many digits as one more than itself, which is more than it has; a task alone is over after at most
-- six operations once its wait ends; the loops over the bits of a word take 64 rounds, one for each;
-- and the merge of two posting lists takes as many as both are long, each round taking a title away.
-- The places in the title index are taken to be below 2^32, which the code does not check. A row
-- written beyond the words of a set is the panic of the code, `none`.
--
-- Parameters, for what is not in the repository: the semaphore of tokio (its laws are the fields of
-- Semaphore), `serde_json`'s encoder and decoder, `httpdate`'s parser, which header values the `http`
-- crate accepts, floating-point numbers with their two orders (TitleSearch/Popularity.antt), the
-- binary heap of the standard library, the reading of bytes as UTF-8, and the decomposition, the
-- combining marks and the lower case of characters. The curated table of the store is what `den_store`
-- reads of it (the record Store). For src/billing.rs the columns of the store and its mark for no
-- person are arguments, and so is what src/maturity.rs and src/franchises.rs look up of a title.
-- The filter's index is a record (Context) as its build leaves it, with the names of the plot axes, the
-- rows of a character's name and those of More Like This, and the readings of names by
-- src/characters.rs and src/facts.rs; binary search is a look-up in a table without repeats.
-- Atomic operations are taken to be sequentially consistent.
--
-- Not modelled: how the filter's index is built from the store, its tallies of whole kinds and the
-- selection of people, the upstream clients, the store in SQLite, the request handler and its pages, the
-- embedding service, and the ranking of titles, which is by floating-point scores. Metrics and log
-- lines are left out of what is modelled, and so is the file of the embedding memo.
pub mod Prelude
pub mod Admission
pub mod Cache
pub mod Http
pub mod Upstream
pub mod Calendar
pub mod Config
pub mod Query
pub mod Maturity
pub mod TitleSearch
pub mod Index
pub mod Franchises
pub mod Billing
pub mod Filter
